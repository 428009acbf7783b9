-- ===== src/Replies/Seen.antt =====
-- Every message of an enrolled target is handled once.
use text.Mathlib.TextPositions.{eq_refl}
use linkedin_outreach_agent.Prelude.{
  ℕ, String, ◌≡◌, Bool, true, false, List, [], ◌∷◌, ◌++◌, length, arith, inl, inr, Option-cases,
  Bool-cases, ==_refl, or_true,
}
use linkedin_outreach_agent.Domain.{UserId, TargetRow, TargetProgressRow}
use linkedin_outreach_agent.Effects.{Step, Answer-cases, bind_cases, ret, ◌>>=◌, ◌>>◌}
use linkedin_outreach_agent.Acceptance.{Groups, group_on}
use linkedin_outreach_agent.Store.Sequence.{active_enrollments}
use linkedin_outreach_agent.Store.Tables.{find_target}
use linkedin_outreach_agent.Replies.{
  InboundMessage, InboxThread, MessageKey, Mailroom, ReplyDeps, Watermarks, message_key, has_seen,
  recorded, routed, same_key, same_string, is_last, is_unchanged, oldest_first, find_thread,
  find_enrolled, on_port, add_seen, mark_thread_seen, read_inbox_cached, read_threads_cached,
  record_inbound, classify_and_route, classify_and_route_only, handle_new, handle, handle_all,
  handle_history,
}
use linkedin_outreach_agent.Replies.Pass.{
  read_thread, scan_enrollment, scan_enrollments, scan_inbox, scan_account, scan_groups, reply_tick,
}

pub same_key_refl : (k : MessageKey) → same_key k k ≡ true
unfolding same_key same_string
same_key_refl k = rw (eq_refl k.thread_urn, eq_refl k.text, ==_refl k.received_at)

module _ {O : Type 0} (key : MessageKey) where
  -- A step that forgets nothing of the seen-set.
  abbrev pub Keeps : {A : Type 0} → Step (Mailroom O) A → Type 0
  Keeps m = (w : Mailroom O) → has_seen w.seen key ≡ true → has_seen (m w).1.seen key ≡ true

  pub bind-Keeps :
      {A B : Type 0} (m : Step (Mailroom O) A) (f : A → Step (Mailroom O) B)
      → Keeps m
      → ((a : A) → Keeps (f a))
      → Keeps (m >>= f)
  bind-Keeps m f h k w s =
      bind_cases m f w (λ r. has_seen r.1.seen key ≡ true) (λ e x. h w s)
        (λ a x. k a (m w).1 (h w s))

  pub then-Keeps :
      {A B : Type 0} (m : Step (Mailroom O) A) (k : Step (Mailroom O) B)
      → Keeps m
      → Keeps k
      → Keeps (m >> k)
  then-Keeps m k h l = bind-Keeps m (λ a. k) h (λ a. l)

  pub add_seen-Keeps : (k : MessageKey) → Keeps (add_seen k)
  unfolding add_seen has_seen
  add_seen-Keeps k w s = or_true (same_key k key) (has_seen w.seen key) s

  mark-Keeps : (t : InboxThread) → Keeps (mark_thread_seen t)
  unfolding mark_thread_seen
  mark-Keeps t w s = ground (arith, s)

  module _ (deps : ReplyDeps O) where
    pub inbox-Keeps : (account : UserId) → Keeps (read_inbox_cached deps account)
    unfolding read_inbox_cached
    inbox-Keeps account w s = ground (arith, s)

    pub threads-Keeps :
        (read : UserId → ℕ → Step O (List InboxThread)) (account : UserId)
        → Keeps (read_threads_cached deps read account)
    unfolding read_threads_cached
    threads-Keeps read account w s = ground (arith, s)

    pub record-Keeps :
        (account : UserId) (target : TargetRow) (m : InboundMessage)
        → Keeps (record_inbound deps account target m)
    unfolding record_inbound
    record-Keeps account target m w s = ground (arith, s)

    pub classify-Keeps :
        (account : UserId) (target : TargetRow) (campaign : UserId) (m : InboundMessage)
        → Keeps (classify_and_route deps account target campaign m)
    unfolding classify_and_route classify_and_route_only
    classify-Keeps account target campaign m =
        then-Keeps (record_inbound deps account target m)
          (classify_and_route_only deps target campaign m) (record-Keeps account target m)
          (λ w s. ground (arith, s))

    new-Keeps :
        (account : UserId) (p : TargetProgressRow) (t : TargetRow) (m : InboundMessage)
        (route : Bool)
        → Keeps (handle_new deps account p t m route)
    unfolding handle_new
    new-Keeps account p t m false =
        then-Keeps (add_seen (message_key m) >> record_inbound deps account t m)
          (ret (recorded t.id m.thread_urn))
          (then-Keeps (add_seen (message_key m)) (record_inbound deps account t m)
            (add_seen-Keeps (message_key m)) (record-Keeps account t m))
          (λ w s. s)
    new-Keeps account p t m true =
        bind-Keeps (add_seen (message_key m) >> classify_and_route deps account t p.campaign_id m)
          (λ intent. ret (routed t.id m.thread_urn intent))
          (then-Keeps (add_seen (message_key m)) (classify_and_route deps account t p.campaign_id m)
            (add_seen-Keeps (message_key m)) (classify-Keeps account t p.campaign_id m))
          (λ intent w s. s)

    pub handle-Keeps :
        (account : UserId) (enrolled : List TargetProgressRow) (m : InboundMessage) (route : Bool)
        → Keeps (handle deps account enrolled m route)
    unfolding handle
    handle-Keeps account enrolled m route w s =
        elim (Answer-cases (find_enrolled deps.unicode m enrolled w)) [
          | inr (e, h) ↦ rw (handle, h) s
          | inl (found, h) ↦ elim (Option-cases found) [
            | inl n ↦ rw (handle, h, n) s
            | inr (hit, n) ↦ elim (Bool-cases (has_seen w.seen (message_key m))) [
              | inl b ↦ rw (handle, h, n, b) s
              | inr b ↦ rw (handle, h, n, b) (new-Keeps account hit.0 hit.1 m route w s)
            ]
          ]
        ]

    handle_all-Keeps :
        (account : UserId) (enrolled : List TargetProgressRow) (ms : List InboundMessage)
        → Keeps (handle_all deps account enrolled ms)
    unfolding handle_all
    handle_all-Keeps account enrolled [] = λ w s. s
    handle_all-Keeps account enrolled (m ∷ ms) =
        bind-Keeps (handle deps account enrolled m true)
          (λ o. handle_all deps account enrolled ms >>= λ os. ret (o ∷ os))
          (handle-Keeps account enrolled m true)
          (λ o.
            bind-Keeps (handle_all deps account enrolled ms) (λ os. ret (o ∷ os))
              (handle_all-Keeps account enrolled ms) (λ os w s. s))

    handle_history-Keeps :
        (account : UserId) (p : TargetProgressRow) (ms : List InboundMessage)
        → Keeps (handle_history deps account p ms)
    unfolding handle_history
    handle_history-Keeps account p [] = λ w s. s
    handle_history-Keeps account p (m ∷ ms) =
        bind-Keeps (handle deps account (p ∷ []) m (is_last ms))
          (λ o. handle_history deps account p ms >>= λ os. ret (o ∷ os))
          (handle-Keeps account (p ∷ []) m (is_last ms))
          (λ o.
            bind-Keeps (handle_history deps account p ms) (λ os. ret (o ∷ os))
              (handle_history-Keeps account p ms) (λ os w s. s))

    pub port-Keeps : {A : Type 0} (m : Step O A) → Keeps (on_port m)
    port-Keeps m w s = s

    -- The pass.
    read_thread-Keeps :
        (read : UserId → String → Step O (List InboundMessage)) (account : UserId)
        (p : TargetProgressRow) (t : InboxThread)
        → Keeps (read_thread deps read account p t)
    unfolding read_thread
    read_thread-Keeps read account p t =
        bind-Keeps (on_port (read account t.thread_urn))
          (λ history. handle_history deps account p (oldest_first history) >>= λ os.
            mark_thread_seen t >> ret os)
          (port-Keeps (read account t.thread_urn))
          (λ history.
            bind-Keeps (handle_history deps account p (oldest_first history))
              (λ os. mark_thread_seen t >> ret os)
              (handle_history-Keeps account p (oldest_first history))
              (λ os. then-Keeps (mark_thread_seen t) (ret os) (mark-Keeps t) (λ w s. s)))

    scan_enrollment-Keeps :
        (read : UserId → String → Step O (List InboundMessage)) (account : UserId)
        (threads : List InboxThread) (marks : Watermarks) (p : TargetProgressRow)
        → Keeps (scan_enrollment deps read account threads marks p)
    unfolding scan_enrollment
    scan_enrollment-Keeps read account threads marks p w s =
        elim (Option-cases (find_target w.desk.store p.target_id)) [
          | inl h ↦ rw (scan_enrollment, h) s
          | inr (target, h) ↦ elim (Answer-cases (find_thread deps.unicode threads target)) [
            | inr (e, k) ↦ rw (scan_enrollment, h, k) s
            | inl (found, k) ↦ elim (Option-cases found) [
              | inl n ↦ rw (scan_enrollment, h, k, n) s
              | inr (t, n) ↦ elim (Bool-cases (is_unchanged t marks)) [
                | inl b ↦ rw (scan_enrollment, h, k, n, b) s
                | inr b ↦ rw (scan_enrollment, h, k, n, b) (read_thread-Keeps read account p t w s)
              ]
            ]
          ]
        ]

    scan_enrollments-Keeps :
        (read : UserId → String → Step O (List InboundMessage)) (account : UserId)
        (threads : List InboxThread) (marks : Watermarks) (ps : List TargetProgressRow)
        → Keeps (scan_enrollments deps read account threads marks ps)
    unfolding scan_enrollments
    scan_enrollments-Keeps read account threads marks [] = λ w s. s
    scan_enrollments-Keeps read account threads marks (p ∷ ps) =
        bind-Keeps (scan_enrollment deps read account threads marks p)
          (λ os. scan_enrollments deps read account threads marks ps >>= λ rest. ret (os ++ rest))
          (scan_enrollment-Keeps read account threads marks p)
          (λ os.
            bind-Keeps (scan_enrollments deps read account threads marks ps)
              (λ rest. ret (os ++ rest)) (scan_enrollments-Keeps read account threads marks ps)
              (λ rest w s. s))

    scan_inbox-Keeps :
        (account : UserId) (enrolled : List TargetProgressRow)
        → Keeps (scan_inbox deps account enrolled)
    unfolding scan_inbox
    scan_inbox-Keeps account enrolled =
        bind-Keeps (read_inbox_cached deps account) (handle_all deps account enrolled)
          (inbox-Keeps account) (handle_all-Keeps account enrolled)

    history_account-Keeps :
        (read_list : UserId → ℕ → Step O (List InboxThread))
        (read : UserId → String → Step O (List InboundMessage)) (marks : Watermarks)
        (account : UserId) (enrolled : List TargetProgressRow)
        → Keeps (
            read_threads_cached deps read_list account >>= λ threads.
            scan_enrollments deps read account threads marks enrolled >>= λ os.
            scan_inbox deps account enrolled >>= λ rest. ret (os ++ rest))
    history_account-Keeps read_list read marks account enrolled =
        bind-Keeps (read_threads_cached deps read_list account)
          (λ threads. scan_enrollments deps read account threads marks enrolled >>= λ os.
            scan_inbox deps account enrolled >>= λ rest. ret (os ++ rest))
          (threads-Keeps read_list account)
          (λ threads.
            bind-Keeps (scan_enrollments deps read account threads marks enrolled)
              (λ os. scan_inbox deps account enrolled >>= λ rest. ret (os ++ rest))
              (scan_enrollments-Keeps read account threads marks enrolled)
              (λ os.
                bind-Keeps (scan_inbox deps account enrolled) (λ rest. ret (os ++ rest))
                  (scan_inbox-Keeps account enrolled) (λ rest w s. s)))

    scan_account-Keeps :
        (marks : Watermarks) (account : UserId) (enrolled : List TargetProgressRow)
        → Keeps (scan_account deps marks account enrolled)
    unfolding scan_account
    scan_account-Keeps marks account enrolled w s = elim (Option-cases deps.history) [
      | inl h ↦ rw (scan_account, h) (scan_inbox-Keeps account enrolled w s)
      | inr (readers, h) ↦
          rw (scan_account, h)
            (history_account-Keeps readers.0 readers.1 marks account enrolled w s)
    ]

    scan_groups-Keeps : (marks : Watermarks) (gs : Groups) → Keeps (scan_groups deps marks gs)
    unfolding scan_groups
    scan_groups-Keeps marks [] = λ w s. s
    scan_groups-Keeps marks ((account, enrolled) ∷ gs) =
        bind-Keeps (scan_account deps marks account enrolled)
          (λ os. scan_groups deps marks gs >>= λ rest. ret (os ++ rest))
          (scan_account-Keeps marks account enrolled)
          (λ os.
            bind-Keeps (scan_groups deps marks gs) (λ rest. ret (os ++ rest))
              (scan_groups-Keeps marks gs) (λ rest w s. s))

    pub reply_tick-Keeps : Keeps (reply_tick deps)
    unfolding reply_tick
    reply_tick-Keeps w s =
        let gs = group_on [] (active_enrollments w.desk.store) in
        bind-Keeps (scan_groups deps w.watermarks gs) (λ os. ret (length gs, os))
          (scan_groups-Keeps w.watermarks gs) (λ os w s. s) w s
