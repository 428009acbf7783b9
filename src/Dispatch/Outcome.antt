-- ===== src/Dispatch/Outcome.antt =====
-- How `DispatchTick` (runtime/src/dispatch/tick.ts) settles an approved send: parked for
-- acceptance, cancelled, given up, its lane halted, or the cursor moved on.
use linkedin_outreach_agent.Prelude.{
  ℕ, ◌+◌, Bool, true, false, Option, none, some, ◌∷◌, if◌then◌else◌, any_of,
}
use linkedin_outreach_agent.Domain.{
  UserId, Time, ActionType, ActionResult, same_type, ActRequest, TargetProgressRow, MessageRow,
  MessageStatus, ProgressState, StopReason, TargetStage, approved_send_cancelled,
  approved_send_exhausted, send_lane_halted, no_invite_sent, abandoned,
}
use linkedin_outreach_agent.Calendar.{Zone}
use linkedin_outreach_agent.Effects.{Step, ret, ◌>>=◌, ◌>>◌}
use linkedin_outreach_agent.Mcp.{ActionRef}
use linkedin_outreach_agent.Store.Sequence.{
  Patch, no_patch, get_target_progress_by_target, enabled_steps,
}
use linkedin_outreach_agent.Dispatch.Advance.{advance_after_step}
use linkedin_outreach_agent.Dispatch.World.{
  World, TickDeps, CancelReason, StepOutcome, awaiting_connection, already_invited,
  next_action_type, cursor_id, read, mark, move_stage, advance, pull, log_event, schedule_for,
  in_lane,
}

-- The patches of `parkAfterConnect`.
abbrev pub parked : ProgressState → Time → Patch
parked state now = record no_patch {
  state = some state;
  next_step_at = some none;
  last_step_at = some (some now);
  error_message = some none;
}

abbrev pub stopped : StopReason → Patch
stopped error = record no_patch {
  state = some ProgressState.failed;
  next_step_at = some none;
  error_message = some (some error);
}

module _ {O : Type 0} where
  -- `parkAfterConnect`
  unfoldable pub park_after_connect :
      UserId → UserId → ActionResult → Time → Step (World O) StepOutcome
  park_after_connect progress target ActionResult.skipped now =
      move_stage target TargetStage.invited
      >> advance progress (parked ProgressState.already_invited now)
      >> ret (already_invited progress)
  park_after_connect progress target ActionResult.success now =
      move_stage target TargetStage.invited
      >> advance progress (parked ProgressState.awaiting_connection now)
      >> ret (awaiting_connection progress)
  park_after_connect progress target result now =
      advance progress (stopped (no_invite_sent result))
      >> ret (StepOutcome.failed progress (no_invite_sent result))

unfoldable pub is_parked : ProgressState → Bool
is_parked ProgressState.awaiting_approval = true
is_parked _ = false

abbrev pub is_connect : ActRequest → Bool
is_connect req = same_type req.type ActionType.connect

module _ {O : Type 0} (z : Zone) (deps : TickDeps O) where
  -- `cancelApproved`
  unfoldable pub cancel_approved :
      Time
      → MessageRow
      → Option TargetProgressRow
      → CancelReason × StopReason
      → Step (World O) (Option StepOutcome)
  cancel_approved now msg progress reason =
      mark now msg.id MessageStatus.cancelled
      >> pull msg.target_id reason.1
      >> log_event deps now (approved_send_cancelled msg.id msg.target_id reason.1)
          (some msg.account_id)
      >> ret (some (StepOutcome.cancelled (cursor_id progress msg.target_id) msg.id reason.0))

  -- `haltSendLane`
  unfoldable pub halt_send_lane :
      Time → MessageRow → ActionType → Step (World O) (Option StepOutcome)
  halt_send_lane now msg type w =
      if any_of (in_lane msg.account_id type) w.halted_lanes
      then ret none w
      else (log_event deps now (send_lane_halted type) (some msg.account_id) >> ret none)
          (record w { halted_lanes = (msg.account_id, type) ∷ w.halted_lanes })

  -- `giveUpApproved`
  unfoldable pub give_up_approved :
      Time
      → MessageRow
      → Option TargetProgressRow
      → ActionType
      → ℕ
      → Step (World O) (Option StepOutcome)
  give_up_approved now msg progress type failures =
      mark now msg.id MessageStatus.cancelled
      >> (elim progress [
        | none ↦ ret tt
        | some p ↦ advance p.id (stopped (abandoned type failures))
      ])
      >> log_event deps now (approved_send_exhausted msg.id msg.target_id type failures)
          (some msg.account_id)
      >> ret (
          some (
            StepOutcome.cancelled (cursor_id progress msg.target_id) msg.id
              CancelReason.send_failed_exhausted))

  -- The cursor of an approved connect that went out.
  unfoldable pub settle_connect :
      Time → MessageRow → UserId → Option TargetProgressRow → Step (World O) (Option StepOutcome)
  settle_connect now msg action none = ret (some (StepOutcome.executed msg.target_id action none))
  settle_connect now msg action (some p) =
      if is_parked p.state
      then (advance p.id (parked ProgressState.awaiting_connection now)
          >> ret (some (awaiting_connection p.id)))
      else ret (some (StepOutcome.executed p.id action none))

  unfoldable pub after_connect : Time → MessageRow → UserId → Step (World O) (Option StepOutcome)
  unfolding settle_connect
  after_connect now msg action =
      move_stage msg.target_id TargetStage.invited
      >> (read (λ s. get_target_progress_by_target s msg.target_id)
          >>= settle_connect now msg action)

  -- The cursor of a target whose approved send went out.
  unfoldable pub resume_cursor :
      Time → UserId → TargetProgressRow → Step (World O) (Option StepOutcome)
  resume_cursor now action p = read (λ s. enabled_steps s p.campaign_id) >>= λ steps.
      schedule_for deps p.account_id (next_action_type steps p.current_step) >>= λ schedule.
      advance p.id (advance_after_step z steps p.current_step now schedule)
      >> ret (some (StepOutcome.executed p.id action (some (p.current_step + 1))))

  unfoldable pub settle_send :
      Time → MessageRow → UserId → Option TargetProgressRow → Step (World O) (Option StepOutcome)
  unfolding resume_cursor
  settle_send now msg action none = ret (some (StepOutcome.executed msg.target_id action none))
  settle_send now msg action (some p) =
      if is_parked p.state
      then resume_cursor now action p
      else ret (some (StepOutcome.executed p.id action none))

  unfoldable pub after_send : Time → MessageRow → UserId → Step (World O) (Option StepOutcome)
  unfolding settle_send
  after_send now msg action =
      read (λ s. get_target_progress_by_target s msg.target_id) >>= settle_send now msg action

  -- The executor found nothing to do.
  unfoldable pub settle_skip :
      Time
      → MessageRow
      → ActRequest
      → ActionRef
      → Option TargetProgressRow
      → Step (World O) (Option StepOutcome)
  settle_skip now msg req action none =
      ret (some (StepOutcome.cancelled msg.target_id msg.id CancelReason.nothing_to_send))
  settle_skip now msg req action (some p) =
      if is_connect req
      then (park_after_connect p.id p.target_id action.result now >>= λ o. ret (some o))
      else ret (some (StepOutcome.cancelled p.id msg.id CancelReason.nothing_to_send))

  unfoldable pub after_skip :
      Time → MessageRow → ActRequest → ActionRef → Step (World O) (Option StepOutcome)
  unfolding settle_skip
  after_skip now msg req action =
      mark now msg.id MessageStatus.cancelled
      >> (read (λ s. get_target_progress_by_target s msg.target_id)
          >>= settle_skip now msg req action)
