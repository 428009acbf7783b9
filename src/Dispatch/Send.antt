-- ===== src/Dispatch/Send.antt =====
-- `DispatchTick.sendApproved` and what it calls: one approved message is sent, held, cancelled or
-- given up. Each function is the rest of the method from one of its early returns on.
use linkedin_outreach_agent.Prelude.{
  ℕ, Bool, true, false, ◌&&◌, Option, none, some, ltb, leb, if◌then◌else◌,
}
use linkedin_outreach_agent.Domain.{
  UserId, Time, ActionType, ActionResult, same_type, ActRequest, text_payload, TargetRow,
  TargetProgressRow, MessageRow, MessageStatus, ProgressState, StopReason, TargetStage, Decision,
  allow, approved_send_held_reply,
}
use linkedin_outreach_agent.Calendar.{Zone}
use linkedin_outreach_agent.Effects.{Step, ret, try, ◌>>=◌, ◌>>◌}
use linkedin_outreach_agent.Mcp.{ActionRef}
use linkedin_outreach_agent.Store.Tables.{find_target, count_failed_since}
use linkedin_outreach_agent.Store.Sequence.{get_target_progress_by_target}
use linkedin_outreach_agent.Suppression.{is_suppressed}
use linkedin_outreach_agent.Dispatch.Outcome.{
  cancel_approved, halt_send_lane, give_up_approved, after_connect, after_send, after_skip,
  is_connect,
}
use linkedin_outreach_agent.Dispatch.World.{
  World, TickDeps, HoldReason, CancelReason, StepOutcome, max_send_attempts, cursor_id, read, mark,
  log_event, lane_is_systemically_failing,
}

unfoldable pub is_replied : Option TargetProgressRow → Bool
is_replied none = false
is_replied (some p) = elim p.state [ ProgressState.replied ↦ true | _ ↦ false ]

unfoldable pub is_lost : TargetStage → Bool
is_lost TargetStage.lost = true
is_lost _ = false

unfoldable pub target_reason : Option TargetRow → Bool → Option (CancelReason × StopReason)
unfolding is_lost
target_reason none suppressed = some (CancelReason.target_missing, StopReason.target_missing)
target_reason (some t) suppressed =
    if is_lost t.stage
    then some (CancelReason.stage_lost, StopReason.stage_lost)
    else if suppressed
    then some (CancelReason.suppressed, StopReason.suppressed)
    else none

-- `cancelReason`: why an approved message is not sent any more, in the order of the code's tests.
unfoldable pub cancel_reason :
    Option TargetProgressRow → Option TargetRow → Bool → Option (CancelReason × StopReason)
unfolding is_replied target_reason
cancel_reason progress target suppressed =
    if is_replied progress
    then some (CancelReason.replied, StopReason.replied)
    else target_reason target suppressed

unfoldable pub is_not_before : Option TargetProgressRow → Time → Bool
is_not_before none now = false
is_not_before (some p) now = elim p.next_step_at [ none ↦ false | some t ↦ ltb now t ]

unfoldable pub probe_since : Option TargetProgressRow → MessageRow → Option Time
probe_since none msg = some msg.created_at
probe_since (some p) msg = elim p.last_step_at [ none ↦ some msg.created_at | some t ↦ some t ]

module _ {O : Type 0} (z : Zone) (deps : TickDeps O) where
  -- What the executor's row says.
  unfoldable pub on_result :
      Time
      → MessageRow
      → ActRequest
      → ActionRef
      → ActionResult
      → Step (World O) (Option StepOutcome)
  unfolding after_skip after_connect after_send
  on_result now msg req action ActionResult.skipped =
      try (after_skip z deps now msg req action) (λ o. ret o) (λ error. ret none)
  on_result now msg req action ActionResult.success =
      mark now msg.id MessageStatus.sent
      >> (if is_connect req
          then after_connect z deps now msg action.id
          else after_send z deps now msg action.id)
  on_result now msg req action _ = ret none

  -- The executor is called with the message's body; whatever it throws leaves the message approved.
  unfoldable pub dispatch_send :
      Time → MessageRow → ActRequest → Step (World O) (Option StepOutcome)
  unfolding on_result
  dispatch_send now msg req =
      try (deps.gate.execute (record req { payload = text_payload msg.body }))
        (λ action. on_result now msg req action action.result) (λ error. ret none)

  -- The probe's answer.
  unfoldable pub on_probe :
      Time
      → MessageRow
      → ActRequest
      → Option TargetProgressRow
      → Bool
      → Step (World O) (Option StepOutcome)
  unfolding dispatch_send
  on_probe now msg req progress true =
      log_event deps now (approved_send_held_reply msg.id msg.target_id) (some msg.account_id)
      >> ret (some (StepOutcome.held (cursor_id progress msg.target_id) HoldReason.replied))
  on_probe now msg req progress false = dispatch_send now msg req

  -- The reply probe of a message to a target; one that throws ends the attempt.
  unfoldable pub probe_with :
      Time
      → MessageRow
      → ActRequest
      → Option TargetProgressRow
      → TargetRow
      → Option (UserId → TargetRow → Option Time → Step (World O) Bool)
      → Step (World O) (Option StepOutcome)
  unfolding dispatch_send on_probe
  probe_with now msg req progress target none = dispatch_send now msg req
  probe_with now msg req progress target (some check) =
      try (check req.account_id target (probe_since progress msg)) (on_probe now msg req progress)
        (λ error. ret none)

  unfoldable pub probe_send :
      Time
      → MessageRow
      → ActRequest
      → Option TargetProgressRow
      → Option TargetRow
      → Step (World O) (Option StepOutcome)
  unfolding dispatch_send probe_with
  probe_send now msg req progress none = dispatch_send now msg req
  probe_send now msg req progress (some target) =
      probe_with now msg req progress target deps.reply_probe

  -- The guards of a message: cancel, wait, probe.
  unfoldable pub guard_by :
      Time
      → MessageRow
      → ActRequest
      → Option TargetProgressRow
      → Option TargetRow
      → Option (CancelReason × StopReason)
      → Step (World O) (Option StepOutcome)
  unfolding is_not_before probe_send
  guard_by now msg req progress target (some reason) =
      cancel_approved z deps now msg progress reason
  guard_by now msg req progress target none =
      if is_not_before progress now then ret none else probe_send now msg req progress target

  unfoldable pub guard_message :
      Time
      → MessageRow
      → ActRequest
      → Bool
      → Option TargetProgressRow
      → Option TargetRow
      → Step (World O) (Option StepOutcome)
  unfolding guard_by
  guard_message now msg req suppressed progress target =
      guard_by now msg req progress target (cancel_reason progress target suppressed)

  -- The guards by whether the request is a message; any other is cancelled for a suppression only.
  unfoldable pub guard_kind :
      Time → MessageRow → ActRequest → Bool → Bool → Step (World O) (Option StepOutcome)
  unfolding guard_message dispatch_send
  guard_kind now msg req suppressed true = read (λ s. find_target s msg.target_id) >>= λ target.
      read (λ s. get_target_progress_by_target s msg.target_id) >>= λ progress.
      guard_message now msg req suppressed progress target
  guard_kind now msg req suppressed false =
      if suppressed
      then cancel_approved z deps now msg none (CancelReason.suppressed, StopReason.suppressed)
      else dispatch_send now msg req

  unfoldable pub guard_send : Time → MessageRow → ActRequest → Step (World O) (Option StepOutcome)
  unfolding guard_kind
  guard_send now msg req =
      read (λ s. deps.has_suppression && is_suppressed s msg.target_id) >>= λ suppressed.
      guard_kind now msg req suppressed (same_type req.type ActionType.message)

  -- A send that failed too often: the lane is broken, or the target is given up.
  unfoldable pub give_up_or_halt :
      Time → MessageRow → ActRequest → ℕ → Step (World O) (Option StepOutcome)
  unfolding halt_send_lane give_up_approved
  give_up_or_halt now msg req failures =
      read (λ s. lane_is_systemically_failing s req.account_id req.type now) >>= λ broken.
      if broken
      then halt_send_lane z deps now msg req.type
      else (read (λ s. get_target_progress_by_target s msg.target_id) >>= λ prog.
          give_up_approved z deps now msg prog req.type failures)

  unfoldable pub check_attempts :
      Time → MessageRow → ActRequest → Step (World O) (Option StepOutcome)
  unfolding guard_send give_up_or_halt
  check_attempts now msg req =
      if deps.has_actions
      then (read (λ s. count_failed_since s msg.target_id req.type msg.created_at) >>= λ failures.
          if leb max_send_attempts failures
          then give_up_or_halt now msg req failures
          else guard_send now msg req)
      else guard_send now msg req

  unfoldable pub on_allowed :
      Time → MessageRow → ActRequest → Decision → Step (World O) (Option StepOutcome)
  unfolding check_attempts
  on_allowed now msg req allow = check_attempts now msg req
  on_allowed now msg req _ = ret none

  unfoldable pub send_bound :
      Time → MessageRow → Option ActRequest → Step (World O) (Option StepOutcome)
  unfolding on_allowed
  send_bound now msg none = ret none
  send_bound now msg (some req) = deps.gate.get_account req.account_id >>= λ account.
      deps.gate.can_act account req >>= on_allowed now msg req

  -- `sendApproved`
  unfoldable pub send_approved : Time → MessageRow → Step (World O) (Option StepOutcome)
  unfolding send_bound
  send_approved now msg = send_bound now msg msg.pending_req
