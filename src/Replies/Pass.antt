-- ===== src/Replies/Pass.antt =====
-- `probeTarget` and `runTick` of runtime/src/dispatch/reply-tick.ts.
use linkedin_outreach_agent.Prelude.{
  ℕ, String, Bool, true, false, ◌&&◌, ltb, Option, none, some, List, [], ◌∷◌, ◌++◌, if◌then◌else◌,
  length,
}
use linkedin_outreach_agent.Domain.{UserId, Time, TargetRow, TargetProgressRow}
use linkedin_outreach_agent.Effects.{Step, Answer, returned, threw, other_error, ret, ◌>>=◌, ◌>>◌}
use linkedin_outreach_agent.Acceptance.{Groups, group_on}
use linkedin_outreach_agent.Store.Sequence.{active_enrollments}
use linkedin_outreach_agent.Store.Tables.{find_target}
use linkedin_outreach_agent.Texts.{Unicode}
use linkedin_outreach_agent.Replies.{
  InboundMessage, InboxThread, ReplyOutcome, Mailroom, ReplyDeps, Watermarks, message_key, has_seen,
  is_last, is_unchanged, matches_target, oldest_first, find_thread, on_port, add_seen,
  mark_thread_seen, read_inbox_cached, read_threads_cached, record_inbound, classify_and_route,
  handle_all, handle_history,
}

-- `since == null || m.receivedAt > since`
abbrev pub is_after : Option Time → Time → Bool
is_after none at = true
is_after (some t) at = ltb t at

-- The filter of the probe, whose test may throw.
unfoldable pub matching :
    Unicode → TargetRow → Option Time → List InboundMessage → Answer (List InboundMessage)
unfolding matches_target
matching unicode target since [] = returned []
matching unicode target since (m ∷ ms) =
    let rest = matching unicode target since ms in
    elim (matches_target unicode m target) [
      | none ↦ threw (other_error "URI malformed")
      | some b ↦ elim rest [
        | threw e ↦ threw e
        | returned kept ↦
            if b && is_after since m.received_at then returned (m ∷ kept) else returned kept
      ]
    ]

module _ {O : Type 0} (deps : ReplyDeps O) where
  -- One message of a probe that is not seen yet.
  unfoldable pub probe_new :
      UserId → TargetRow → InboundMessage → Bool → Step (Mailroom O) (Unit {0})
  unfolding classify_and_route record_inbound add_seen
  probe_new account target m true =
      add_seen (message_key m)
      >> classify_and_route deps account target target.campaign_id m
      >> ret tt
  probe_new account target m false =
      add_seen (message_key m) >> record_inbound deps account target m

  unfoldable pub probe_one :
      UserId → TargetRow → InboundMessage → Bool → Step (Mailroom O) (Unit {0})
  unfolding probe_new has_seen
  probe_one account target m route w = elim (has_seen w.seen (message_key m)) [
    | true ↦ (returned tt, w)
    | false ↦ probe_new account target m route w
  ]

  -- The loop over a history: the last message is routed.
  unfoldable pub probe_history :
      UserId → TargetRow → List InboundMessage → Step (Mailroom O) (Unit {0})
  unfolding probe_one
  probe_history account target [] = ret tt
  probe_history account target (m ∷ ms) =
      probe_one account target m (is_last ms) >> probe_history account target ms

  -- The loop over the inbox: every match is routed.
  unfoldable pub probe_all : UserId → TargetRow → List InboundMessage → Step (Mailroom O) (Unit {0})
  unfolding probe_one
  probe_all account target [] = ret tt
  probe_all account target (m ∷ ms) = probe_one account target m true >> probe_all account target ms

  abbrev pub has_any {ℓ} : {A : Type ℓ} → List A → Bool
  has_any [] = false
  has_any (x ∷ xs) = true

  unfoldable pub probe_matches :
      UserId → TargetRow → Option Time → List InboundMessage → Step (Mailroom O) Bool
  unfolding matching probe_all
  probe_matches account target since inbound w = elim (matching deps.unicode target since inbound) [
    | threw e ↦ (threw e, w)
    | returned kept ↦ (probe_all account target kept >> ret (has_any kept)) w
  ]

  unfoldable pub probe_inbox : UserId → TargetRow → Option Time → Step (Mailroom O) Bool
  unfolding read_inbox_cached probe_matches
  probe_inbox account target since =
      read_inbox_cached deps account >>= probe_matches account target since

  unfoldable pub probe_thread :
      (UserId → String → Step O (List InboundMessage))
      → UserId
      → TargetRow
      → Option Time
      → List InboxThread
      → Step (Mailroom O) Bool
  unfolding find_thread probe_history oldest_first probe_inbox
  probe_thread read account target since threads w =
      elim (find_thread deps.unicode threads target) [
        | threw e ↦ (threw e, w)
        | returned found ↦ elim found [
          | none ↦ probe_inbox account target since w
          | some t ↦
              (on_port (read account t.thread_urn) >>= λ history.
              probe_history account target (oldest_first history) >> ret (has_any history))
                w
        ]
      ]

  -- `probeTarget`
  unfoldable pub probe_target : UserId → TargetRow → Option Time → Step (Mailroom O) Bool
  unfolding read_threads_cached probe_thread probe_inbox
  probe_target account target since = elim deps.history [
    | none ↦ probe_inbox account target since
    | some readers ↦
        read_threads_cached deps readers.0 account >>= probe_thread readers.1 account target since
  ]

  -- The thread of one enrollment that has moved since the last pass.
  unfoldable pub read_thread :
      (UserId → String → Step O (List InboundMessage))
      → UserId
      → TargetProgressRow
      → InboxThread
      → Step (Mailroom O) (List ReplyOutcome)
  unfolding handle_history oldest_first mark_thread_seen
  read_thread read account p t = on_port (read account t.thread_urn) >>= λ history.
      handle_history deps account p (oldest_first history) >>= λ os. mark_thread_seen t >> ret os

  unfoldable pub scan_enrollment :
      (UserId → String → Step O (List InboundMessage))
      → UserId
      → List InboxThread
      → Watermarks
      → TargetProgressRow
      → Step (Mailroom O) (List ReplyOutcome)
  unfolding find_thread is_unchanged read_thread
  scan_enrollment read account threads marks p w = elim (find_target w.desk.store p.target_id) [
    | none ↦ (returned [], w)
    | some target ↦ elim (find_thread deps.unicode threads target) [
      | threw e ↦ (threw e, w)
      | returned found ↦ elim found [
        | none ↦ (returned [], w)
        | some t ↦ elim (is_unchanged t marks) [
          | true ↦ (returned [], w)
          | false ↦ read_thread read account p t w
        ]
      ]
    ]
  ]

  unfoldable pub scan_enrollments :
      (UserId → String → Step O (List InboundMessage))
      → UserId
      → List InboxThread
      → Watermarks
      → List TargetProgressRow
      → Step (Mailroom O) (List ReplyOutcome)
  unfolding scan_enrollment
  scan_enrollments read account threads marks [] = ret []
  scan_enrollments read account threads marks (p ∷ ps) =
      scan_enrollment read account threads marks p >>= λ os.
      scan_enrollments read account threads marks ps >>= λ rest. ret (os ++ rest)

  unfoldable pub scan_inbox :
      UserId → List TargetProgressRow → Step (Mailroom O) (List ReplyOutcome)
  unfolding read_inbox_cached handle_all
  scan_inbox account enrolled = read_inbox_cached deps account >>= handle_all deps account enrolled

  -- The body of the loop over the accounts; `marks` are the watermarks of the start of the pass.
  unfoldable pub scan_account :
      Watermarks → UserId → List TargetProgressRow → Step (Mailroom O) (List ReplyOutcome)
  unfolding read_threads_cached scan_enrollments scan_inbox
  scan_account marks account enrolled = elim deps.history [
    | none ↦ scan_inbox account enrolled
    | some readers ↦ read_threads_cached deps readers.0 account >>= λ threads.
        scan_enrollments readers.1 account threads marks enrolled >>= λ os.
        scan_inbox account enrolled >>= λ rest. ret (os ++ rest)
  ]

  unfoldable pub scan_groups : Watermarks → Groups → Step (Mailroom O) (List ReplyOutcome)
  unfolding scan_account
  scan_groups marks [] = ret []
  scan_groups marks ((account, enrolled) ∷ gs) = scan_account marks account enrolled >>= λ os.
      scan_groups marks gs >>= λ rest. ret (os ++ rest)

  -- `runTick`: the accounts that were read, and the outcomes.
  unfoldable pub reply_tick : Step (Mailroom O) (ℕ × List ReplyOutcome)
  unfolding scan_groups group_on active_enrollments
  reply_tick w =
      let gs = group_on [] (active_enrollments w.desk.store) in
      (scan_groups w.watermarks gs >>= λ os. ret (length gs, os)) w
