-- ===== src/Dispatch/Steps.antt =====
-- `DispatchTick.step` (runtime/src/dispatch/tick.ts): one due cursor is moved by one step of its
-- sequence. Each function is the rest of the method from one of its early returns on.
use linkedin_outreach_agent.Prelude.{
  ◌+◌, Bool, true, false, not, ◌&&◌, Option, none, some, List, if◌then◌else◌, get_elem?, get_or,
  length, leb,
}
use linkedin_outreach_agent.Domain.{
  UserId, Time, ActionType, CampaignStepType, CampaignStepRow, CampaignRow, TargetRow,
  TargetProgressRow, ProgressState, StopReason, TargetStage, at_stage, reply_probe_failed,
  step_held_reply,
}
use linkedin_outreach_agent.Calendar.{Zone}
use linkedin_outreach_agent.Effects.{Step, ret, try, ◌>>=◌, ◌>>◌}
use linkedin_outreach_agent.Mcp.{may_execute_directly}
use linkedin_outreach_agent.Store.Tables.{find_target}
use linkedin_outreach_agent.Store.Sequence.{no_patch, enabled_steps}
use linkedin_outreach_agent.Suppression.{is_suppressed}
use linkedin_outreach_agent.Dispatch.Advance.{due_after_delay}
use linkedin_outreach_agent.Dispatch.Act.{draft_body_for, act_step, lock_step}
use linkedin_outreach_agent.Dispatch.World.{
  World, TickDeps, HoldReason, StepOutcome, past_stage, not_connected, no_steps, action_type, read,
  advance, pull, log_event, schedule_for,
}

-- `SEQUENCE_STOP_STAGES.has(stage)`
unfoldable pub is_stop_stage : TargetStage → Bool
is_stop_stage TargetStage.in_conversation = true
is_stop_stage TargetStage.replied = true
is_stop_stage TargetStage.won = true
is_stop_stage TargetStage.lost = true
is_stop_stage _ = false

unfoldable pub is_connected : TargetStage → Bool
is_connected TargetStage.connected = true
is_connected _ = false

module _ {O : Type 0} (z : Zone) (deps : TickDeps O) where
  -- A 'delay' step.
  unfoldable pub step_delay :
      Time → TargetProgressRow → Option CampaignStepRow → Step (World O) StepOutcome
  step_delay now p none =
      advance p.id (record no_patch {
        current_step = some (p.current_step + 1);
        state = some ProgressState.completed;
        next_step_at = some none;
        last_step_at = some (some now);
      })
      >> ret (StepOutcome.completed p.id)
  step_delay now p (some next) =
      schedule_for deps p.account_id (action_type next.step_type) >>= λ schedule.
      advance p.id (record no_patch {
        current_step = some (p.current_step + 1);
        next_step_at = some (due_after_delay z now next.delay_seconds schedule);
        last_step_at = some (some now);
      })
      >> ret (StepOutcome.delayed p.id (p.current_step + 1))

  -- The body of a message is personalized, then it is contact like any other.
  unfoldable pub draft_step :
      Time
      → TargetProgressRow
      → List CampaignStepRow
      → CampaignStepRow
      → TargetRow
      → Step (World O) StepOutcome
  unfolding lock_step draft_body_for
  draft_step now p steps step target =
      lock_step z deps now p steps step ActionType.message
        (some (deps.personalize (get_or (draft_body_for CampaignStepType.message step) "") target))

  -- The probe threw: a campaign that would send at once waits, any other drafts.
  unfoldable pub on_broken_probe :
      Time
      → TargetProgressRow
      → List CampaignStepRow
      → CampaignStepRow
      → TargetRow
      → CampaignRow
      → Step (World O) StepOutcome
  unfolding draft_step
  on_broken_probe now p steps step target campaign =
      if may_execute_directly campaign.autonomy_level ActionType.message
      then ret (StepOutcome.held p.id HoldReason.reply_probe_failed)
      else draft_step now p steps step target

  unfoldable pub probe_threw :
      Time
      → TargetProgressRow
      → List CampaignStepRow
      → CampaignStepRow
      → TargetRow
      → Step (World O) StepOutcome
  unfolding on_broken_probe
  probe_threw now p steps step target =
      log_event deps now (reply_probe_failed p.id p.target_id) (some p.account_id)
      >> deps.gate.get_campaign p.campaign_id
      >>= on_broken_probe now p steps step target

  unfoldable pub on_probe :
      Time
      → TargetProgressRow
      → List CampaignStepRow
      → CampaignStepRow
      → TargetRow
      → Bool
      → Step (World O) StepOutcome
  unfolding draft_step
  on_probe now p steps step target true =
      log_event deps now (step_held_reply p.id p.target_id) (some p.account_id)
      >> ret (StepOutcome.held p.id HoldReason.replied)
  on_probe now p steps step target false = draft_step now p steps step target

  unfoldable pub probe_step :
      Time
      → TargetProgressRow
      → List CampaignStepRow
      → CampaignStepRow
      → TargetRow
      → Option (UserId → TargetRow → Option Time → Step (World O) Bool)
      → Step (World O) StepOutcome
  unfolding draft_step probe_threw on_probe
  probe_step now p steps step target none = draft_step now p steps step target
  probe_step now p steps step target (some check) =
      try (check p.account_id target (some (get_or p.last_step_at p.created_at)))
        (on_probe now p steps step target) (λ error. probe_threw now p steps step target)

  unfoldable pub pull_suppressed : TargetProgressRow → Step (World O) StepOutcome
  pull_suppressed p =
      pull p.target_id StopReason.suppressed >> ret (StepOutcome.held p.id HoldReason.suppressed)

  -- A message goes to a target in stage 'connected' only.
  unfoldable pub message_step :
      Time
      → TargetProgressRow
      → List CampaignStepRow
      → CampaignStepRow
      → Option TargetRow
      → Step (World O) StepOutcome
  unfolding probe_step pull_suppressed
  message_step now p steps step none = ret (StepOutcome.held p.id not_connected)
  message_step now p steps step (some target) =
      if is_stop_stage target.stage
      then (pull p.target_id (at_stage target.stage)
          >> ret (StepOutcome.held p.id (past_stage target.stage)))
      else if not (is_connected target.stage)
      then ret (StepOutcome.held p.id not_connected)
      else (read (λ s. deps.has_suppression && is_suppressed s p.target_id) >>= λ suppressed.
          if suppressed
          then pull_suppressed p
          else probe_step now p steps step target deps.reply_probe)

  unfoldable pub connect_step :
      Time → TargetProgressRow → List CampaignStepRow → CampaignStepRow → Step (World O) StepOutcome
  unfolding lock_step pull_suppressed draft_body_for
  connect_step now p steps step =
      read (λ s. deps.has_suppression && is_suppressed s p.target_id) >>= λ suppressed.
      if suppressed
      then pull_suppressed p
      else lock_step z deps now p steps step ActionType.connect
          (draft_body_for CampaignStepType.connect step)

  -- One step, by its type.
  unfoldable pub typed_step :
      Time
      → TargetProgressRow
      → List CampaignStepRow
      → CampaignStepRow
      → CampaignStepType
      → Step (World O) StepOutcome
  unfolding step_delay message_step connect_step act_step
  typed_step now p steps step CampaignStepType.delay =
      step_delay now p (get_elem? steps (p.current_step + 1))
  typed_step now p steps step CampaignStepType.message =
      read (λ s. find_target s p.target_id) >>= λ target. message_step now p steps step target
  typed_step now p steps step CampaignStepType.connect = connect_step now p steps step
  typed_step now p steps step CampaignStepType.follow =
      act_step z deps now p steps step ActionType.follow none
  typed_step now p steps step CampaignStepType.react =
      act_step z deps now p steps step ActionType.react none
  typed_step now p steps step CampaignStepType.view_profile =
      act_step z deps now p steps step ActionType.view_profile none

  -- `step`
  unfoldable pub step : Time → TargetProgressRow → Step (World O) StepOutcome
  unfolding typed_step
  step now p = read (λ s. enabled_steps s p.campaign_id) >>= λ steps.
      if leb (length steps) 0 then ret (no_steps p.id) else elim (get_elem? steps p.current_step) [
        | none ↦
            advance p.id
              (record no_patch { state = some ProgressState.completed; next_step_at = some none })
            >> ret (StepOutcome.exhausted p.id)
        | some at ↦ typed_step now p steps at at.step_type
      ]
