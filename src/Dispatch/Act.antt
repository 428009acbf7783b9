-- ===== src/Dispatch/Act.antt =====
-- The end of `DispatchTick.step` (runtime/src/dispatch/tick.ts): the lock across campaigns, the gate,
-- and what its outcome does to the cursor.
use linkedin_outreach_agent.Prelude.{
  ◌+◌, Bool, true, false, String, Option, none, some, List, if◌then◌else◌, get_or,
}
use linkedin_outreach_agent.Domain.{
  Time, Text, ActionType, ActionResult, ActRequest, Payload, no_payload, text_payload,
  reaction_payload, CampaignStepType, CampaignStepRow, TargetRow, TargetProgressRow, ProgressState,
  StopReason, TargetStage, did_not_land, step_held_cross_campaign, target_skipped_cross_campaign,
}
use linkedin_outreach_agent.Calendar.{Zone}
use linkedin_outreach_agent.Effects.{Step, Failure, ret, try, ◌>>=◌, ◌>>◌}
use linkedin_outreach_agent.Mcp.{GateOutcome, gate_act}
use linkedin_outreach_agent.Store.Sequence.{no_patch}
use linkedin_outreach_agent.Dispatch.Advance.{advance_after_step}
use linkedin_outreach_agent.Dispatch.Outcome.{park_after_connect, stopped}
use linkedin_outreach_agent.Dispatch.World.{
  World, TickDeps, HoldReason, StepOutcome, cross_campaign_active, cross_campaign_contacted,
  next_action_type, read, move_stage, advance, exclude, log_event, schedule_for,
  held_by_other_campaign,
}

-- `actRequestFor`
unfoldable pub act_request_for : ActionType → CampaignStepRow → TargetProgressRow → ActRequest
act_request_for type step p = record {
  account_id = p.account_id;
  target_id = p.target_id;
  campaign_id = p.campaign_id;
  type = type;
  payload = payload type;
}
  where
    payload : ActionType → Payload
    payload ActionType.connect = elim step.note [ none ↦ no_payload | some n ↦ text_payload n ]
    payload ActionType.message = text_payload (get_or step.body "")
    payload ActionType.react = reaction_payload (get_or step.reaction "like")
    payload _ = no_payload

-- `draftBodyFor`
unfoldable pub draft_body_for : CampaignStepType → CampaignStepRow → Option String
draft_body_for CampaignStepType.message step = some (get_or step.body "")
draft_body_for CampaignStepType.connect step = step.note
draft_body_for _ step = none

-- `CROSS_CAMPAIGN_HOLD_STAGES.has(stage)`
unfoldable pub is_hold_stage : TargetStage → Bool
is_hold_stage TargetStage.invited = true
is_hold_stage _ = false

module _ {O : Type 0} (z : Zone) (deps : TickDeps O) where
  -- What follows from the gate's outcome.
  unfoldable pub after_gate :
      Time
      → TargetProgressRow
      → List CampaignStepRow
      → CampaignStepType
      → GateOutcome
      → Step (World O) StepOutcome
  after_gate now p steps type (GateOutcome.queued pending) =
      advance p.id (record no_patch { state = some ProgressState.awaiting_approval })
      >> ret (StepOutcome.held p.id HoldReason.queued)
  after_gate now p steps type (GateOutcome.deferred until) =
      ret (StepOutcome.held p.id HoldReason.deferred)
  after_gate now p steps type (GateOutcome.denied reason) =
      ret (StepOutcome.held p.id HoldReason.denied)
  after_gate now p steps CampaignStepType.connect (GateOutcome.executed action result) =
      park_after_connect p.id p.target_id result now
  after_gate now p steps type (GateOutcome.executed action ActionResult.success) =
      schedule_for deps p.account_id (next_action_type steps p.current_step) >>= λ schedule.
      advance p.id (advance_after_step z steps p.current_step now schedule)
      >> ret (StepOutcome.executed p.id action (some (p.current_step + 1)))
  after_gate now p steps type (GateOutcome.executed action result) =
      advance p.id (stopped (did_not_land type result))
      >> ret (StepOutcome.failed p.id (did_not_land type result))

  -- The `catch` of the gate's call.
  unfoldable pub on_gate_throw : TargetProgressRow → Failure → Step (World O) StepOutcome
  on_gate_throw p error =
      advance p.id (stopped (StopReason.thrown error))
      >> ret (StepOutcome.failed p.id (StopReason.thrown error))

  -- The action goes through the gate.
  unfoldable pub act_step :
      Time
      → TargetProgressRow
      → List CampaignStepRow
      → CampaignStepRow
      → ActionType
      → Option String
      → Step (World O) StepOutcome
  unfolding after_gate act_request_for on_gate_throw
  act_step now p steps step type draft_body =
      try (gate_act deps.gate (act_request_for type step p) draft_body)
        (after_gate now p steps step.step_type) (on_gate_throw p)

  -- The lock across campaigns, for a step that contacts the person.
  unfoldable pub locked_by :
      Time
      → TargetProgressRow
      → List CampaignStepRow
      → CampaignStepRow
      → ActionType
      → Option String
      → Option (TargetRow × Text)
      → Step (World O) StepOutcome
  unfolding act_step
  locked_by now p steps step type draft_body none = act_step now p steps step type draft_body
  locked_by now p steps step type draft_body (some (blocker, key)) =
      if is_hold_stage blocker.stage
      then (log_event deps now
            (step_held_cross_campaign p.id p.target_id key blocker.campaign_id blocker.stage)
            (some p.account_id)
          >> ret (StepOutcome.held p.id cross_campaign_active))
      else (log_event deps now
            (target_skipped_cross_campaign p.id p.target_id key blocker.campaign_id blocker.stage)
            (some p.account_id)
          >> exclude p.target_id StopReason.cross_campaign_contacted
          >> move_stage p.target_id TargetStage.lost
          >> ret (StepOutcome.held p.id cross_campaign_contacted))

  unfoldable pub lock_step :
      Time
      → TargetProgressRow
      → List CampaignStepRow
      → CampaignStepRow
      → ActionType
      → Option String
      → Step (World O) StepOutcome
  unfolding locked_by
  lock_step now p steps step type draft_body =
      read (λ s. held_by_other_campaign s p) >>= locked_by now p steps step type draft_body
