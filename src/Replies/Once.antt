-- ===== src/Replies/Once.antt =====
-- What is behind a message for good once it was handled: passes, probes and the other parts of the
-- program do not bring it back.
use linkedin_outreach_agent.Prelude.{
  String, ◌≡◌, Bool, true, false, Option, some, List, [], ◌∷◌, inl, inr, Option-cases, Bool-cases,
}
use linkedin_outreach_agent.Domain.{UserId, Time, TargetRow, TargetProgressRow}
use linkedin_outreach_agent.Effects.{Step, Answer-cases, returned, bind_cases, ret, ◌>>◌}
use linkedin_outreach_agent.Router.{Desk}
use linkedin_outreach_agent.Replies.{
  InboundMessage, InboxThread, Mailroom, MessageKey, ReplyDeps, message_key, recorded, routed,
  has_seen, is_last, oldest_first, find_thread, find_enrolled, on_port, add_seen, read_inbox_cached,
  read_threads_cached, record_inbound, classify_and_route, handle_new, handle,
}
use linkedin_outreach_agent.Replies.Pass.{
  probe_new, probe_one, probe_history, probe_all, probe_matches, probe_inbox, probe_thread,
  probe_target, reply_tick, matching, has_any,
}
use linkedin_outreach_agent.Replies.Seen.{
  Keeps, bind-Keeps, then-Keeps, add_seen-Keeps, inbox-Keeps, threads-Keeps, record-Keeps,
  classify-Keeps, port-Keeps, reply_tick-Keeps, same_key_refl,
}

module _ {O : Type 0} (deps : ReplyDeps O) where
  module _ (key : MessageKey) where
    probe_new-Keeps :
        (account : UserId) (target : TargetRow) (m : InboundMessage) (route : Bool)
        → Keeps key (probe_new deps account target m route)
    unfolding probe_new
    probe_new-Keeps account target m true =
        then-Keeps key
          (add_seen (message_key m) >> classify_and_route deps account target target.campaign_id m)
          (ret tt)
          (then-Keeps key (add_seen (message_key m))
            (classify_and_route deps account target target.campaign_id m)
            (add_seen-Keeps key (message_key m))
            (classify-Keeps key deps account target target.campaign_id m))
          (λ w s. s)
    probe_new-Keeps account target m false =
        then-Keeps key (add_seen (message_key m)) (record_inbound deps account target m)
          (add_seen-Keeps key (message_key m)) (record-Keeps key deps account target m)

    probe_one-Keeps :
        (account : UserId) (target : TargetRow) (m : InboundMessage) (route : Bool)
        → Keeps key (probe_one deps account target m route)
    unfolding probe_one
    probe_one-Keeps account target m route w s =
        elim (Bool-cases (has_seen w.seen (message_key m))) [
          | inl b ↦ rw (probe_one, b) s
          | inr b ↦ rw (probe_one, b) (probe_new-Keeps account target m route w s)
        ]

    probe_history-Keeps :
        (account : UserId) (target : TargetRow) (ms : List InboundMessage)
        → Keeps key (probe_history deps account target ms)
    unfolding probe_history
    probe_history-Keeps account target [] = λ w s. s
    probe_history-Keeps account target (m ∷ ms) =
        then-Keeps key (probe_one deps account target m (is_last ms))
          (probe_history deps account target ms) (probe_one-Keeps account target m (is_last ms))
          (probe_history-Keeps account target ms)

    probe_all-Keeps :
        (account : UserId) (target : TargetRow) (ms : List InboundMessage)
        → Keeps key (probe_all deps account target ms)
    unfolding probe_all
    probe_all-Keeps account target [] = λ w s. s
    probe_all-Keeps account target (m ∷ ms) =
        then-Keeps key (probe_one deps account target m true) (probe_all deps account target ms)
          (probe_one-Keeps account target m true) (probe_all-Keeps account target ms)

    probe_matches-Keeps :
        (account : UserId) (target : TargetRow) (since : Option Time) (ms : List InboundMessage)
        → Keeps key (probe_matches deps account target since ms)
    unfolding probe_matches
    probe_matches-Keeps account target since ms w s =
        elim (Answer-cases (matching deps.unicode target since ms)) [
          | inr (e, h) ↦ rw (probe_matches, h) s
          | inl (kept, h) ↦
              rw (probe_matches, h)
                (then-Keeps key (probe_all deps account target kept) (ret (has_any deps kept))
                  (probe_all-Keeps account target kept) (λ w s. s) w s)
        ]

    probe_inbox-Keeps :
        (account : UserId) (target : TargetRow) (since : Option Time)
        → Keeps key (probe_inbox deps account target since)
    unfolding probe_inbox
    probe_inbox-Keeps account target since =
        bind-Keeps key (read_inbox_cached deps account) (probe_matches deps account target since)
          (inbox-Keeps key deps account) (probe_matches-Keeps account target since)

    probe_thread-Keeps :
        (read : UserId → String → Step O (List InboundMessage)) (account : UserId)
        (target : TargetRow) (since : Option Time) (threads : List InboxThread)
        → Keeps key (probe_thread deps read account target since threads)
    unfolding probe_thread
    probe_thread-Keeps read account target since threads w s =
        elim (Answer-cases (find_thread deps.unicode threads target)) [
          | inr (e, h) ↦ rw (probe_thread, h) s
          | inl (found, h) ↦ elim (Option-cases found) [
            | inl n ↦ rw (probe_thread, h, n) (probe_inbox-Keeps account target since w s)
            | inr (t, n) ↦
                rw (probe_thread, h, n)
                  (bind-Keeps key (on_port (read account t.thread_urn))
                    (λ history.
                      probe_history deps account target (oldest_first history)
                      >> ret (has_any deps history))
                    (port-Keeps key deps (read account t.thread_urn))
                    (λ history.
                      then-Keeps key (probe_history deps account target (oldest_first history))
                        (ret (has_any deps history))
                        (probe_history-Keeps account target (oldest_first history)) (λ w s. s))
                    w s)
          ]
        ]

    probe_target-Keeps :
        (account : UserId) (target : TargetRow) (since : Option Time)
        → Keeps key (probe_target deps account target since)
    unfolding probe_target
    probe_target-Keeps account target since w s = elim (Option-cases deps.history) [
      | inl h ↦ rw (probe_target, h) (probe_inbox-Keeps account target since w s)
      | inr (readers, h) ↦
          rw (probe_target, h)
            (bind-Keeps key (read_threads_cached deps readers.0 account)
              (probe_thread deps readers.1 account target since)
              (threads-Keeps key deps readers.0 account)
              (probe_thread-Keeps readers.1 account target since) w s)
    ]

  -- What can happen in a process: passes and probes, which may end in an exception, single messages,
  -- and whatever the rest of the program does to the store and outside.
  pub data Runs : Mailroom O → Mailroom O → Type 0 where
    stop : (w : Mailroom O) → Runs w w
    pass : {w w1 : Mailroom O} → Runs (reply_tick deps w).1 w1 → Runs w w1
    probe :
        (account : UserId) (target : TargetRow) (since : Option Time) {w w1 : Mailroom O}
        → Runs (probe_target deps account target since w).1 w1
        → Runs w w1
    rest : (desk : Desk O) {w w1 : Mailroom O} → Runs (record w { desk = desk }) w1 → Runs w w1

  Runs-Keeps :
      (key : MessageKey) {w w1 : Mailroom O}
      → Runs w w1
      → has_seen w.seen key ≡ true
      → has_seen w1.seen key ≡ true
  Runs-Keeps key (Runs.stop w) s = s
  Runs-Keeps key (Runs.pass {w} r) s = Runs-Keeps key r (reply_tick-Keeps key deps w s)
  Runs-Keeps key (Runs.probe account target since {w} r) s =
      Runs-Keeps key r (probe_target-Keeps key account target since w s)
  Runs-Keeps key (Runs.rest desk r) s = Runs-Keeps key r s

  module _ (m : InboundMessage) where
    just_seen : (w : Mailroom O) → has_seen (message_key m ∷ w.seen) (message_key m) ≡ true
    unfolding has_seen
    just_seen w = rw (same_key_refl (message_key m))

    -- The mark comes before the routing, so it stays when the routing throws.
    new_seen :
        (account : UserId) (p : TargetProgressRow) (t : TargetRow) (route : Bool) (w : Mailroom O)
        → has_seen (handle_new deps account p t m route w).1.seen (message_key m) ≡ true
    unfolding handle_new
    new_seen account p t false w =
        let marked = record w { seen = message_key m ∷ w.seen } in
        let s = record-Keeps (message_key m) deps account t m marked (just_seen w) in
        bind_cases (add_seen (message_key m) >> record_inbound deps account t m)
          (λ u. ret (recorded t.id m.thread_urn)) w (λ r. has_seen r.1.seen (message_key m) ≡ true)
          (λ e x. s) (λ a x. s)
    new_seen account p t true w =
        let marked = record w { seen = message_key m ∷ w.seen } in
        let s =
          classify-Keeps (message_key m) deps account t p.campaign_id m marked (just_seen w) in
        bind_cases (add_seen (message_key m) >> classify_and_route deps account t p.campaign_id m)
          (λ intent. ret (routed t.id m.thread_urn intent)) w
          (λ r. has_seen r.1.seen (message_key m) ≡ true) (λ e x. s) (λ a x. s)

    seen_after :
        (account : UserId) (enrolled : List TargetProgressRow) (route : Bool) (w : Mailroom O)
        (hit : TargetProgressRow × TargetRow)
        → find_enrolled deps.unicode m enrolled w ≡ returned (some hit)
        → has_seen (handle deps account enrolled m route w).1.seen (message_key m) ≡ true
    unfolding handle
    seen_after account enrolled route w hit h =
        elim (Bool-cases (has_seen w.seen (message_key m))) [
          | inl b ↦ rw (handle, h, b) b
          | inr b ↦ rw (handle, h, b) (new_seen account hit.0 hit.1 route w)
        ]

    ignored :
        (account : UserId) (enrolled : List TargetProgressRow) (route : Bool) (w : Mailroom O)
        → has_seen w.seen (message_key m) ≡ true
        → (handle deps account enrolled m route w).1 ≡ w
    unfolding handle
    ignored account enrolled route w s =
        elim (Answer-cases (find_enrolled deps.unicode m enrolled w)) [
          | inr (e, h) ↦ rw (handle, h)
          | inl (found, h) ↦ elim (Option-cases found) [
            | inl n ↦ rw (handle, h, n)
            | inr (hit, n) ↦ rw (handle, h, n, s)
          ]
        ]

    -- A message of an enrolled target is handled once in the life of the process, also when its
    -- routing throws: whatever passes and probes follow, and whatever else changes the store, to
    -- handle it again, for any account and any enrollments, changes nothing.
    pub handled_once :
        (account : UserId) (enrolled : List TargetProgressRow) (route : Bool) (w w1 : Mailroom O)
        (hit : TargetProgressRow × TargetRow)
        → find_enrolled deps.unicode m enrolled w ≡ returned (some hit)
        → Runs (handle deps account enrolled m route w).1 w1
        → (other : UserId) (others : List TargetProgressRow) (again : Bool)
        → (handle deps other others m again w1).1 ≡ w1
    handled_once account enrolled route w w1 hit h r other others again =
        ignored other others again w1
          (Runs-Keeps (message_key m) r (seen_after account enrolled route w hit h))
