-- ===== src/Store/FunnelLaws.antt =====
-- What it means that a target has left the funnel.
use linkedin_outreach_agent.Prelude.{
  ◌≡◌, ◌≢◌, refl, ap, some, none, Bool-cases, inl, inr, ==_iff, Pairs, Pairs-map, true, false, not,
  ◌==◌, arith, All, All-map, keep_if, map_twice, keep_if-map,
}
use linkedin_outreach_agent.Domain.{
  UserId, Time, ProgressState, MessageStatus, MessageDirection, TargetProgressRow, MessageRow,
  StopReason, is_active_progress, is_cancelable_status,
}
use linkedin_outreach_agent.Store.Defs.{Store}
use linkedin_outreach_agent.Store.Sequence.{is_due}
use linkedin_outreach_agent.Store.Funnel.{
  stop_cursor, is_outbound, cancel_message, stop_funnel, pull_target_from_funnel,
  exclude_target_from_funnel,
}

abbrev pub IsStopped : UserId → TargetProgressRow → Type 0
IsStopped target p = p.target_id ≡ target → is_active_progress p.state ≡ false

abbrev pub IsSilent : UserId → MessageRow → Type 0
IsSilent target m =
    m.target_id ≡ target → is_outbound m.direction ≡ true → is_cancelable_status m.status ≡ false

-- The states from which a cursor can still act.
pub data IsRunning (s : ProgressState) : Type 0 where
  pending : s ≡ ProgressState.pending → IsRunning s
  in_progress : s ≡ ProgressState.in_progress → IsRunning s
  awaiting_approval : s ≡ ProgressState.awaiting_approval → IsRunning s
  awaiting_connection : s ≡ ProgressState.awaiting_connection → IsRunning s

-- A message that is not sent yet, though it may still be.
pub data IsUnsent (s : MessageStatus) : Type 0 where
  draft : s ≡ MessageStatus.draft → IsUnsent s
  approved : s ≡ MessageStatus.approved → IsUnsent s

-- A target's running cursor becomes `terminal` for the reason, and is not due any more; every other
-- cursor is as it was.
pub record StoppedBy (target : UserId) (reason : StopReason) (terminal : ProgressState)
    (p q : TargetProgressRow) : Type 0 where
  pub ended :
      p.target_id ≡ target
      → IsRunning p.state
      → q ≡ record p { state = terminal; next_step_at = none; error_message = some reason }
  pub others : p.target_id ≢ target → q ≡ p
  pub over : ¬ IsRunning p.state → q ≡ p

-- A target's unsent outbound message becomes cancelled; every other message is as it was.
pub record CancelledFor (target : UserId) (m n : MessageRow) : Type 0 where
  pub cancelled :
      m.target_id ≡ target
      → m.direction ≡ MessageDirection.outbound
      → IsUnsent m.status
      → n ≡ record m { status = MessageStatus.cancelled }
  pub others : m.target_id ≢ target → n ≡ m
  pub inbound : m.direction ≡ MessageDirection.inbound → n ≡ m
  pub decided : ¬ IsUnsent m.status → n ≡ m

running_active : (s : ProgressState) → IsRunning s → is_active_progress s ≡ true
unfolding is_active_progress
running_active s (IsRunning.pending e) = ap is_active_progress e
running_active s (IsRunning.in_progress e) = ap is_active_progress e
running_active s (IsRunning.awaiting_approval e) = ap is_active_progress e
running_active s (IsRunning.awaiting_connection e) = ap is_active_progress e

active-IsRunning : (s : ProgressState) → is_active_progress s ≡ true → IsRunning s
unfolding is_active_progress
active-IsRunning ProgressState.pending h = IsRunning.pending refl
active-IsRunning ProgressState.in_progress h = IsRunning.in_progress refl
active-IsRunning ProgressState.awaiting_approval h = IsRunning.awaiting_approval refl
active-IsRunning ProgressState.awaiting_connection h = IsRunning.awaiting_connection refl
active-IsRunning _ h = absurd cc

unsent_cancelable : (s : MessageStatus) → IsUnsent s → is_cancelable_status s ≡ true
unfolding is_cancelable_status
unsent_cancelable s (IsUnsent.draft e) = ap is_cancelable_status e
unsent_cancelable s (IsUnsent.approved e) = ap is_cancelable_status e

pub cancelable_unsent : (s : MessageStatus) → is_cancelable_status s ≡ true → IsUnsent s
unfolding is_cancelable_status
cancelable_unsent MessageStatus.draft h = IsUnsent.draft refl
cancelable_unsent MessageStatus.approved h = IsUnsent.approved refl
cancelable_unsent _ h = absurd cc

stop_cursor-StoppedBy :
    (target : UserId) (reason : StopReason) (terminal : ProgressState) (p : TargetProgressRow)
    → StoppedBy target reason terminal p (stop_cursor target reason terminal p)
unfolding stop_cursor
stop_cursor-StoppedBy target reason terminal p = record {
  ended = λ e r. ground (arith, (==_iff p.target_id target).1 e, running_active p.state r);
  others = λ n. ground (arith, n);
  over = λ n. elim (Bool-cases (is_active_progress p.state)) [
    | inl a ↦ absurd (n (active-IsRunning p.state a))
    | inr a ↦ ground (arith, a)
  ];
}

pub cancel_message-CancelledFor :
    (target : UserId) (m : MessageRow) → CancelledFor target m (cancel_message target m)
unfolding cancel_message
cancel_message-CancelledFor target m = record {
  cancelled = λ e d u.
      ground
        (arith, (==_iff m.target_id target).1 e, ap is_outbound d, unsent_cancelable m.status u);
  others = λ n. ground (arith, n);
  inbound = λ d. ground (arith, ap is_outbound d);
  decided = λ n. elim (Bool-cases (is_cancelable_status m.status)) [
    | inl a ↦ absurd (n (cancelable_unsent m.status a))
    | inr a ↦ ground (arith, a)
  ];
}

module _ (target : UserId) (reason : StopReason) (terminal : ProgressState)
    (ends : is_active_progress terminal ≡ false) where
  stop_cursor-IsStopped :
      (p : TargetProgressRow) → IsStopped target (stop_cursor target reason terminal p)
  unfolding stop_cursor
  stop_cursor-IsStopped p e = ground arith

  cancel_message-IsSilent : (m : MessageRow) → IsSilent target (cancel_message target m)
  unfolding cancel_message is_cancelable_status
  cancel_message-IsSilent m e o = ground arith

  stop_cursor_twice :
      (r : StopReason) (t : ProgressState) (p : TargetProgressRow)
      → stop_cursor target r t (stop_cursor target reason terminal p)
        ≡ stop_cursor target reason terminal p
  unfolding stop_cursor
  stop_cursor_twice r t p = ground arith

  cancel_message_twice :
      (m : MessageRow) → cancel_message target (cancel_message target m) ≡ cancel_message target m
  unfolding cancel_message is_cancelable_status
  cancel_message_twice m = ground arith

  stop_cursor_other :
      (p : TargetProgressRow)
      → not (p.target_id == target) ≡ true
      → stop_cursor target reason terminal p ≡ p
  unfolding stop_cursor
  stop_cursor_other p h = ground arith

  stop_cursor-target :
      (p : TargetProgressRow) → (stop_cursor target reason terminal p).target_id ≡ p.target_id
  unfolding stop_cursor
  stop_cursor-target p = ground arith

  cancel_message_other :
      (m : MessageRow) → not (m.target_id == target) ≡ true → cancel_message target m ≡ m
  unfolding cancel_message
  cancel_message_other m h = ground arith

  cancel_message-target : (m : MessageRow) → (cancel_message target m).target_id ≡ m.target_id
  unfolding cancel_message
  cancel_message-target m = ground arith

  pub stop_funnel_lem :
      (s : Store)
      → All (IsStopped target) (stop_funnel s target reason terminal).progress
        × All (IsSilent target) (stop_funnel s target reason terminal).messages
        × ((r : StopReason) (t : ProgressState)
            → stop_funnel (stop_funnel s target reason terminal) target r t
              ≡ stop_funnel s target reason terminal)
        × (keep_if
              (λ p. not (p.target_id == target))
              (stop_funnel s target reason terminal).progress
            ≡ keep_if (λ p. not (p.target_id == target)) s.progress)
        × (keep_if
              (λ m. not (m.target_id == target))
              (stop_funnel s target reason terminal).messages
            ≡ keep_if (λ m. not (m.target_id == target)) s.messages)
  unfolding stop_funnel
  stop_funnel_lem s = (
    All-map (IsStopped target) (stop_cursor target reason terminal) s.progress
        stop_cursor-IsStopped,
    All-map (IsSilent target) (cancel_message target) s.messages cancel_message-IsSilent,
    λ r t. cc (
      map_twice (stop_cursor target r t) (stop_cursor target reason terminal) s.progress
          (stop_cursor_twice r t),
      map_twice (cancel_message target) (cancel_message target) s.messages cancel_message_twice,
    ),
    keep_if-map (λ p. not (p.target_id == target)) (stop_cursor target reason terminal) s.progress
        (λ p. ground (arith, stop_cursor-target p)) stop_cursor_other,
    keep_if-map (λ m. not (m.target_id == target)) (cancel_message target) s.messages
        (λ m. ground (arith, cancel_message-target m)) cancel_message_other,
  )

-- A reply pull sets every running cursor of the target to 'replied' for the reason, with no due time,
-- sets every outbound draft or approved message of it to 'cancelled', and leaves every other cursor
-- and message as it was; so no cursor of the target is active and no outbound message of it can still
-- go out. The pull is final: a later removal or pull of the same target changes nothing, so that its
-- cursors keep the state 'replied'.
pub pull_target_from_funnel_lem :
    (s : Store) (target : UserId) (reason : StopReason)
    → let q = pull_target_from_funnel s target reason in
      Pairs (StoppedBy target reason ProgressState.replied) s.progress q.progress
      × Pairs (CancelledFor target) s.messages q.messages
      × All (IsStopped target) q.progress
      × All (IsSilent target) q.messages
      × ((r : StopReason) → exclude_target_from_funnel q target r ≡ q)
      × ((r : StopReason) → pull_target_from_funnel q target r ≡ q)
      × (keep_if (λ p. not (p.target_id == target)) q.progress
          ≡ keep_if (λ p. not (p.target_id == target)) s.progress)
      × (keep_if (λ m. not (m.target_id == target)) q.messages
          ≡ keep_if (λ m. not (m.target_id == target)) s.messages)
unfolding pull_target_from_funnel exclude_target_from_funnel is_active_progress stop_funnel
pull_target_from_funnel_lem s target reason =
    let l = stop_funnel_lem target reason ProgressState.replied refl s in
    (
      Pairs-map (StoppedBy target reason ProgressState.replied)
          (stop_cursor target reason ProgressState.replied) s.progress
          (stop_cursor-StoppedBy target reason ProgressState.replied),
      Pairs-map (CancelledFor target) (cancel_message target) s.messages
          (cancel_message-CancelledFor target),
      l.0,
      l.1,
      λ r. l.2 r ProgressState.skipped,
      λ r. l.2 r ProgressState.replied,
      l.3,
      l.4,
    )

-- `is_due` implies an active state.
pub due_active :
    (now : Time) (p : TargetProgressRow) → is_due now p ≡ true → is_active_progress p.state ≡ true
unfolding is_due is_active_progress
due_active now p h = ground arith
