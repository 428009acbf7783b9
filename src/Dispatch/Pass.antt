-- ===== src/Dispatch/Pass.antt =====
-- `DispatchTick.runTick` (runtime/src/dispatch/tick.ts): the approved messages, the due cursors, then
-- the messages that can be drafted ahead. An exception ends the pass.
use linkedin_outreach_agent.Prelude.{
  ℕ, Bool, true, false, not, Option, none, some, List, [], ◌∷◌, ◌++◌, if◌then◌else◌, get_elem?,
  keep_if, length, leb,
}
use linkedin_outreach_agent.Domain.{
  Time, ActionType, CampaignStepType, CampaignStepRow, MessageStatus, MessageRow, TargetProgressRow,
}
use linkedin_outreach_agent.Calendar.{Zone}
use linkedin_outreach_agent.Effects.{Step, ret, ◌>>=◌}
use linkedin_outreach_agent.Mcp.{may_execute_directly}
use linkedin_outreach_agent.Store.{Store}
use linkedin_outreach_agent.Store.Sequence.{
  due_target_progress, upcoming_target_progress, enabled_steps, sort_by, insert_by,
}
use linkedin_outreach_agent.Dispatch.World.{World, TickDeps, StepOutcome, read}
use linkedin_outreach_agent.Dispatch.Send.{send_approved}
use linkedin_outreach_agent.Dispatch.Steps.{step}

abbrev is_approved : MessageStatus → Bool
is_approved MessageStatus.approved = true
is_approved _ = false

-- `listApproved`: the oldest first.
unfoldable pub list_approved : Store → List MessageRow
unfolding sort_by insert_by
list_approved s =
    sort_by (λ a b. leb a.created_at b.created_at) (keep_if (λ m. is_approved m.status) s.messages)

unfoldable pub is_message_step : Option CampaignStepRow → Bool
is_message_step none = false
is_message_step (some s) = elim s.step_type [ CampaignStepType.message ↦ true | _ ↦ false ]

abbrev pub with_outcome : Option StepOutcome → List StepOutcome → List StepOutcome
with_outcome none rest = rest
with_outcome (some o) rest = o ∷ rest

module _ {O : Type 0} (z : Zone) (deps : TickDeps O) where
  unfoldable pub send_all : Time → List MessageRow → Step (World O) (List StepOutcome)
  send_all now [] = ret []
  send_all now (m ∷ ms) =
      send_approved z deps now m >>= λ o. send_all now ms >>= λ rest. ret (with_outcome o rest)

  unfoldable pub step_all : Time → List TargetProgressRow → Step (World O) (List StepOutcome)
  step_all now [] = ret []
  step_all now (p ∷ ps) = step z deps now p >>= λ o. step_all now ps >>= λ rest. ret (o ∷ rest)

  -- The pre-draft of one upcoming cursor.
  unfoldable pub pre_draft : Time → TargetProgressRow → Step (World O) (Option StepOutcome)
  pre_draft now p = read (λ s. enabled_steps s p.campaign_id) >>= λ steps.
      if not (is_message_step (get_elem? steps p.current_step))
      then ret none
      else (deps.gate.get_campaign p.campaign_id >>= λ campaign.
          if may_execute_directly campaign.autonomy_level ActionType.message
          then ret none
          else (step z deps now p >>= λ o. ret (some o)))

  unfoldable pub pre_draft_all : Time → List TargetProgressRow → Step (World O) (List StepOutcome)
  unfolding pre_draft
  pre_draft_all now [] = ret []
  pre_draft_all now (p ∷ ps) =
      pre_draft now p >>= λ o. pre_draft_all now ps >>= λ rest. ret (with_outcome o rest)

  -- `runTick`: the number of due cursors, and the outcomes.
  unfoldable pub run_tick : Time → Step (World O) (ℕ × List StepOutcome)
  unfolding send_all step_all pre_draft_all list_approved
  run_tick now = read list_approved >>= λ approved. send_all now approved >>= λ sent.
      read (λ s. due_target_progress s now) >>= λ due. step_all now due >>= λ stepped.
      read (λ s. upcoming_target_progress s now) >>= λ upcoming.
      pre_draft_all now upcoming >>= λ drafted. ret (length due, sent ++ (stepped ++ drafted))
