-- ===== src/Dispatch/World.antt =====
-- The state of `DispatchTick` (runtime/src/dispatch/tick.ts), its ports and its small operations.
-- The world is the store, the lanes that were reported as broken, and `outside`: what the ports
-- keep behind them. A tick's writes carry the tick's time.
use linkedin_outreach_agent.Prelude.{
  ℕ, ◌+◌, ◌-◌, Bool, not, ◌&&◌, String, Option, none, some, List, ◌==◌, leb, if◌then◌else◌,
  find_first, get_elem?,
}
use linkedin_outreach_agent.Domain.{
  UserId, Time, Text, day_ms, AccountSchedule, ActionType, same_type, CampaignStepType,
  CampaignStepRow, TargetRow, TargetProgressRow, MessageStatus, StopReason, EventKind, TargetStage,
  is_contacted_stage,
}
use linkedin_outreach_agent.Effects.{Step, not_found, returned, threw, ret, ◌>>=◌}
use linkedin_outreach_agent.Mcp.{GateDeps}
use linkedin_outreach_agent.Profile.{canonical_profile_key}
use linkedin_outreach_agent.Safety.Config.{default_config}
use linkedin_outreach_agent.Safety.Schedule.{effective_schedule}
use linkedin_outreach_agent.Store.{Store}
use linkedin_outreach_agent.Store.Tables.{
  find_target, set_stage, set_status, list_by_urn, record_event, lane_health_since,
}
use linkedin_outreach_agent.Store.Sequence.{Patch, advance_target_progress}
use linkedin_outreach_agent.Store.Funnel.{pull_target_from_funnel, exclude_target_from_funnel}

pub record World (O : Type 0) : Type 0 where
  pub store : Store
  pub halted_lanes : List (UserId × ActionType)
  pub outside : O

-- The optional dependencies of the tick are present or not; `reply_probe` is a port.
pub record TickDeps (O : Type 0) : Type 0 where
  pub gate : GateDeps (World O)
  pub has_actions : Bool
  pub has_suppression : Bool
  pub has_log : Bool
  pub reply_probe : Option (UserId → TargetRow → Option Time → Step (World O) Bool)
  pub personalize : String → TargetRow → String

pub data HoldReason : Type 0 where
  replied not_connected suppressed reply_probe_failed : HoldReason
  cross_campaign_active cross_campaign_contacted queued deferred denied : HoldReason
  past_stage : TargetStage → HoldReason

pub data CancelReason : Type 0 where
  replied target_missing stage_lost suppressed nothing_to_send send_failed_exhausted : CancelReason

-- A cursor's id, or the target's when there is no cursor.
pub data StepOutcome : Type 0 where
  delayed : UserId → ℕ → StepOutcome
  executed : UserId → UserId → Option ℕ → StepOutcome
  completed : UserId → StepOutcome
  held : UserId → HoldReason → StepOutcome
  awaiting_connection : UserId → StepOutcome
  already_invited : UserId → StepOutcome
  cancelled : UserId → UserId → CancelReason → StepOutcome
  failed : UserId → StopReason → StepOutcome
  no_steps : UserId → StepOutcome
  exhausted : UserId → StepOutcome

abbrev pub max_send_attempts : ℕ
max_send_attempts = 5

abbrev pub systemic_failure_targets : ℕ
systemic_failure_targets = 3

abbrev pub lane_health_window_ms : ℕ
lane_health_window_ms = day_ms

-- `stepType` as an action; `none` for 'delay'.
unfoldable pub action_type : CampaignStepType → Option ActionType
action_type CampaignStepType.view_profile = some ActionType.view_profile
action_type CampaignStepType.connect = some ActionType.connect
action_type CampaignStepType.message = some ActionType.message
action_type CampaignStepType.follow = some ActionType.follow
action_type CampaignStepType.react = some ActionType.react
action_type CampaignStepType.delay = none

-- `nextActionType`
unfoldable pub next_action_type : List CampaignStepRow → ℕ → Option ActionType
unfolding action_type
next_action_type steps handled = elim (get_elem? steps (handled + 1)) [
  | none ↦ none
  | some next ↦ action_type next.step_type
]

-- The cursor's id if there is one.
abbrev pub cursor_id : Option TargetProgressRow → UserId → UserId
cursor_id none other = other
cursor_id (some p) other = p.id

module _ {O : Type 0} where
  abbrev pub read : {A : Type 0} → (Store → A) → Step (World O) A
  read f w = (returned (f w.store), w)

  abbrev pub write : (Store → Store) → Step (World O) (Unit {0})
  write f w = (returned tt, record w { store = f w.store })

  -- A write that throws when the row `id` is absent.
  abbrev pub update : UserId → (Store → Option Store) → Step (World O) (Unit {0})
  update id f w = elim (f w.store) [
    | none ↦ (threw (not_found id), w)
    | some s ↦ (returned tt, record w { store = s })
  ]

  unfoldable pub mark : Time → UserId → MessageStatus → Step (World O) (Unit {0})
  mark now id status =
      update id (λ s. elim (set_status s now id status) [ none ↦ none | some r ↦ some r.1 ])

  unfoldable pub move_stage : UserId → TargetStage → Step (World O) (Unit {0})
  move_stage id stage = update id (λ s. set_stage s id stage)

  unfoldable pub advance : UserId → Patch → Step (World O) (Unit {0})
  advance id patch = update id (λ s. advance_target_progress s id patch)

  unfoldable pub pull : UserId → StopReason → Step (World O) (Unit {0})
  pull target reason = write (λ s. pull_target_from_funnel s target reason)

  unfoldable pub exclude : UserId → StopReason → Step (World O) (Unit {0})
  exclude target reason = write (λ s. exclude_target_from_funnel s target reason)

  module _ (deps : TickDeps O) where
    -- `logEvent`
    unfoldable pub log_event : Time → EventKind → Option UserId → Step (World O) (Unit {0})
    log_event now kind account =
        if deps.has_log then write (λ s. record_event s now kind account) else ret tt

    -- `scheduleFor`
    unfoldable pub schedule_for : UserId → Option ActionType → Step (World O) AccountSchedule
    schedule_for account action = do
      acct ← deps.gate.get_account account
      ret (effective_schedule acct.limits default_config action)

-- `laneIsSystemicallyFailing`: (failed targets, successes)
unfoldable pub lane_is_systemically_failing : Store → UserId → ActionType → Time → Bool
lane_is_systemically_failing s account type now =
    let lane = lane_health_since s account type (now - lane_health_window_ms) in
    lane.1 == 0 && leb systemic_failure_targets lane.0

unfoldable pub in_lane : UserId → ActionType → UserId × ActionType → Bool
in_lane account type lane = lane.0 == account && same_type lane.1 type

-- The target of another campaign that is being contacted already.
unfoldable pub is_blocker : UserId → TargetRow → Bool
is_blocker campaign t = not (t.campaign_id == campaign) && is_contacted_stage t.stage

-- `heldByOtherCampaign`: the blocking target and the key.
unfoldable pub held_by_other_campaign : Store → TargetProgressRow → Option (TargetRow × Text)
unfolding is_blocker
held_by_other_campaign s p = elim (find_target s p.target_id) [
  | none ↦ none
  | some target ↦
      let key = canonical_profile_key target.linkedin_urn in
      elim (find_first (is_blocker p.campaign_id) (list_by_urn s key)) [
        | none ↦ none
        | some blocker ↦ some (blocker, key)
      ]
]
