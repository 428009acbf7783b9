-- ===== src/Examples/Dispatches.antt =====
-- The theorems on the dispatch tick at concrete inputs: an approved message, a due message step and a
-- due connect step, with ports that allow and carry out everything.
use linkedin_outreach_agent.Prelude.{
  Option, ◌==◌, if◌then◌else◌, ℕ, ◌+◌, ◌*◌, ◌≤◌, ◌<◌, ◌≡◌, refl, true, false, ◌&&◌, none, some, [],
  ◌∷◌, arith, any_of, find_row, set_row, find_first, includes, keep_if, eq_text,
}
use linkedin_outreach_agent.Domain.{
  Time, ActionType, ActionResult, CampaignStepRow, CampaignStepType, MessageRow, MessageStatus,
  ProgressState, autonomous, allow, is_contacted_stage, AccountSchedule,
}
use linkedin_outreach_agent.Dispatch.Stagger.{Occupancy, next}
use linkedin_outreach_agent.Dispatch.Stagger.Laws.{Claimed, next-Claimed}
use linkedin_outreach_agent.Calendar.Fixed.{utc}
use linkedin_outreach_agent.Effects.{ret}
use linkedin_outreach_agent.Mcp.{
  GateDeps, gate_act, route, may_execute_directly, is_message_class, on_decision,
}
use linkedin_outreach_agent.Suppression.{is_suppressed, is_urn_suppressed}
use linkedin_outreach_agent.Dispatch.World.{
  World, TickDeps, mark, advance, move_stage, schedule_for, next_action_type,
  held_by_other_campaign, is_blocker,
}
use linkedin_outreach_agent.Dispatch.Advance.{
  day_seconds, due_after_delay, advance_after_step, advance_onto,
}
use linkedin_outreach_agent.Dispatch.AdvanceLaws.{FirstActive, due_after_delay_lem}
use linkedin_outreach_agent.Dispatch.Outcome.{
  park_after_connect, after_send, settle_send, resume_cursor, is_parked,
}
use linkedin_outreach_agent.Dispatch.OutcomeLaws.{Parked, park_after_connect_lem}
use linkedin_outreach_agent.Dispatch.Send.{
  send_approved, send_bound, on_allowed, check_attempts, guard_send, guard_kind, guard_message,
  guard_by, cancel_reason, is_replied, target_reason, is_lost, is_not_before, probe_send,
  probe_with, on_probe, dispatch_send, on_result,
}
use linkedin_outreach_agent.Dispatch.Steps.{
  typed_step, message_step, connect_step, is_stop_stage, is_connected, probe_step,
  on_probe as steps_on_probe, draft_step,
}
use linkedin_outreach_agent.Dispatch.Act.{
  lock_step, locked_by, act_step, after_gate, act_request_for, draft_body_for,
}
use linkedin_outreach_agent.Profile.{
  canonical_profile_key, first_match, match_here, after, id_chars, is_id_char, with_id,
}
use linkedin_outreach_agent.Store.Tables.{
  find_target, find_message, set_status, set_stage, list_by_urn, list_suppression,
  count_failed_since,
}
use linkedin_outreach_agent.Store.Sequence.{
  get_target_progress_by_target, enabled_steps, list_campaign_steps, sort_by,
  advance_target_progress, find_progress, apply_patch,
}
use linkedin_outreach_agent.Dispatch.SendLaws.Guards.{Sent, send_approved-Sent}
use linkedin_outreach_agent.Dispatch.StepLaws.{
  Passed, MayMessage, message_step-MayMessage, connect_step-Passed,
}
use linkedin_outreach_agent.Examples.Safety.{anna, monday_noon}
use linkedin_outreach_agent.Examples.Stores.{draft, cursor, lead, small}
use linkedin_outreach_agent.Examples.Gates.{campaign_at}

abbrev open_gate : GateDeps (World ℕ)
open_gate = record {
  get_account = λ id. ret anna;
  get_campaign = λ id. ret (campaign_at autonomous);
  can_act = λ a r. ret allow;
  enqueue = λ r l b. ret 99;
  execute = λ r. ret (record { id = 500; result = ActionResult.success });
}

abbrev open_deps : TickDeps ℕ
open_deps = record {
  gate = open_gate;
  has_actions = true;
  has_suppression = true;
  has_log = true;
  reply_probe = some (λ a t since. ret false);
  personalize = λ body t. body;
}

abbrev ready : MessageRow
ready = record draft { status = MessageStatus.approved }

abbrev waiting : World ℕ
waiting = record {
  store = record small {
    messages = ready ∷ [];
    progress = (record cursor { state = ProgressState.awaiting_approval }) ∷ [];
  };
  halted_lanes = [];
  outside = 0;
}

abbrev running : World ℕ
running = record { store = small; halted_lanes = []; outside = 0 }

abbrev first_step : CampaignStepType → CampaignStepRow
first_step type = record {
  id = 60;
  campaign_id = 3;
  step_order = 0;
  step_type = type;
  delay_seconds = 0;
  note = none;
  body = some "hi";
  reaction = none;
  enabled = true;
}

send_approved-Sent_example : Sent utc open_deps monday_noon ready 500 waiting
unfolding send_approved send_bound on_allowed check_attempts guard_send guard_kind guard_message
    guard_by cancel_reason is_replied target_reason is_lost is_not_before probe_send probe_with
    on_probe dispatch_send on_result after_send settle_send resume_cursor is_parked mark advance
    schedule_for next_action_type is_suppressed is_urn_suppressed list_suppression any_of
    find_target find_message set_status find_row set_row get_target_progress_by_target find_first
    enabled_steps list_campaign_steps sort_by keep_if advance_after_step advance_onto
    advance_target_progress find_progress apply_patch count_failed_since
send_approved-Sent_example = send_approved-Sent utc open_deps monday_noon ready waiting 500 refl

message_step-MayMessage_example :
    MayMessage utc open_deps monday_noon cursor
      (first_step CampaignStepType.message ∷ [])
      (first_step CampaignStepType.message)
      running
unfolding typed_step message_step connect_step is_stop_stage is_connected probe_step steps_on_probe
    draft_step lock_step locked_by held_by_other_campaign is_blocker act_step gate_act route
    may_execute_directly is_message_class on_decision after_gate park_after_connect act_request_for
    draft_body_for mark advance move_stage set_stage schedule_for next_action_type is_suppressed
    is_urn_suppressed list_suppression any_of find_target find_row set_row find_first list_by_urn
    eq_text canonical_profile_key first_match match_here after id_chars is_id_char with_id keep_if
    advance_after_step advance_onto advance_target_progress find_progress apply_patch
    is_contacted_stage
message_step-MayMessage_example =
    message_step-MayMessage utc open_deps monday_noon cursor
      (first_step CampaignStepType.message ∷ []) (first_step CampaignStepType.message) running refl

connect_step-Passed_example :
    ((true && is_suppressed small 20) ≡ false)
    × Passed utc open_deps monday_noon cursor
        (first_step CampaignStepType.connect ∷ [])
        (first_step CampaignStepType.connect)
        ActionType.connect
unfolding typed_step message_step connect_step is_stop_stage is_connected probe_step steps_on_probe
    draft_step lock_step locked_by held_by_other_campaign is_blocker act_step gate_act route
    may_execute_directly is_message_class on_decision after_gate park_after_connect act_request_for
    draft_body_for mark advance move_stage set_stage schedule_for next_action_type is_suppressed
    is_urn_suppressed list_suppression any_of find_target find_row set_row find_first list_by_urn
    eq_text canonical_profile_key first_match match_here after id_chars is_id_char with_id keep_if
    advance_after_step advance_onto advance_target_progress find_progress apply_patch
    is_contacted_stage
connect_step-Passed_example =
    connect_step-Passed utc open_deps monday_noon cursor (first_step CampaignStepType.connect ∷ [])
      (first_step CampaignStepType.connect) running refl

park_after_connect_lem_example :
    Parked 30 20 ActionResult.skipped lead
      (park_after_connect 30 20 ActionResult.skipped monday_noon running).1
unfolding find_progress find_target find_row
park_after_connect_lem_example =
    park_after_connect_lem 30 20 monday_noon running cursor lead ActionResult.skipped refl refl

abbrev weekdays : AccountSchedule
weekdays = record { hours_start = 8; hours_end = 18; days = 1 ∷ 2 ∷ 3 ∷ 4 ∷ 5 ∷ [] }

due_after_delay_lem_example :
    (day_seconds ≡ 0 → due_after_delay utc monday_noon day_seconds weekdays ≡ none)
    × (0 < day_seconds
        → day_seconds < day_seconds
        → due_after_delay utc monday_noon day_seconds weekdays
          ≡ some (monday_noon + day_seconds * 1000))
    × (day_seconds ≤ day_seconds
        → (t : ℕ) × (due_after_delay utc monday_noon day_seconds weekdays ≡ some t)
          × FirstActive utc 8 weekdays.days 5 t)
unfolding includes
due_after_delay_lem_example =
    due_after_delay_lem utc monday_noon day_seconds weekdays 3 (omega arith) (omega arith) refl

-- Two are taken today and two tomorrow, of two a day.
abbrev taken : Occupancy
taken d = if d == 4 then 2 else if d == 5 then 2 else 0

next-Claimed_example :
    (r : Option Time × Occupancy) × (next utc monday_noon 2 weekdays 7 taken ≡ some r)
    × Claimed utc monday_noon 2 weekdays taken 0 r
    × (((k : ℕ) → taken k ≤ 2) → (k : ℕ) → r.1 k ≤ 2)
unfolding includes
next-Claimed_example =
    next-Claimed utc monday_noon 2 weekdays 3 (omega arith) (omega arith) refl (λ k. omega arith)
      taken 6 (omega arith) (λ d h. ground arith)
