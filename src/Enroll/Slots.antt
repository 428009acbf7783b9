-- ===== src/Enroll/Slots.antt =====
-- enrollStagger of runtime/src/adapters/mcp-ports.ts, and the allocator of
-- runtime/src/dispatch/stagger.ts with the rounds that its loop is given.
use linkedin_outreach_agent.Prelude.{
  ℕ, suc, ◌&&◌, Option, none, some, List, [], ◌∷◌, map, ltb, ◌==◌, if◌then◌else◌, get_or, keep_if,
  find_first,
}
use linkedin_outreach_agent.Domain.{
  UserId, Time, ActionType, AccountSchedule, AccountLimits, CampaignStepType, default_schedule,
  default_caps,
}
use linkedin_outreach_agent.Calendar.{Zone}
use linkedin_outreach_agent.Safety.Config.{default_config}
use linkedin_outreach_agent.Safety.Schedule.{effective_schedule}
use linkedin_outreach_agent.Store.{Store}
use linkedin_outreach_agent.Store.Tables.{find_account}
use linkedin_outreach_agent.Store.Sequence.{list_campaign_steps, is_in_progress}
use linkedin_outreach_agent.Dispatch.Stagger.{Occupancy, no_one, take_ledger, ledger_day, next}

-- A `StaggerAllocator`, with the number of a day from which on no day is occupied: the loop of `next`
-- is given so many rounds and one.
pub record Allocator : Type 0 where
  pub cap : ℕ
  pub schedule : AccountSchedule
  pub occupancy : Occupancy
  pub beyond : ℕ

abbrev pub later_day : ℕ → ℕ → ℕ
later_day d e = if ltb d e then e else d

abbrev pub step_action : CampaignStepType → Option ActionType
step_action CampaignStepType.delay = none
step_action CampaignStepType.connect = some ActionType.connect
step_action CampaignStepType.message = some ActionType.message
step_action CampaignStepType.view_profile = some ActionType.view_profile
step_action CampaignStepType.follow = some ActionType.follow
step_action CampaignStepType.react = some ActionType.react

abbrev pub limits_of : Store → UserId → Option AccountLimits
limits_of s account = elim (find_account s account) [ none ↦ none | some row ↦ row.limits ]

abbrev pub cap_of : Option AccountLimits → ActionType → ℕ
cap_of none type = get_or (default_caps type) 0
cap_of (some limits) type = get_or (limits.caps type) (get_or (default_caps type) 0)

abbrev pub schedule_of : Option AccountLimits → ActionType → AccountSchedule
schedule_of none type = default_schedule
schedule_of (some limits) type = effective_schedule (some limits) default_config (some type)

-- The due times of the first step that the campaign has already.
unfoldable pub first_step_ledger : Store → UserId → List (Option Time)
first_step_ledger s campaign =
    map (λ p. p.next_step_at)
      (keep_if (λ p. is_in_progress p.state && p.current_step == 0)
        (keep_if (λ p. p.campaign_id == campaign) s.progress))

module _ (z : Zone) (now : Time) where
  unfoldable pub ledger_end : List (Option Time) → ℕ
  unfolding ledger_day
  ledger_end [] = 0
  ledger_end (at ∷ rest) = later_day (suc (ledger_day z now at)) (ledger_end rest)

  unfoldable pub stagger_of : ℕ → AccountSchedule → List (Option Time) → Allocator
  unfolding take_ledger ledger_end
  stagger_of cap schedule ledger = record {
    cap = cap;
    schedule = schedule;
    occupancy = take_ledger z now no_one ledger;
    beyond = ledger_end ledger;
  }

  -- `stagger.next()`; `none` when the rounds run out.
  unfoldable pub next_slot : Allocator → Option (Option Time × Allocator)
  unfolding next
  next_slot a = elim (next z now a.cap a.schedule (suc a.beyond) a.occupancy) [
    | none ↦ none
    | some r ↦ some (
      r.0,
      record a { occupancy = r.1; beyond = later_day a.beyond (suc (z.day (get_or r.0 now))) },
    )
  ]

  -- `stagger ? stagger.next() : null`
  unfoldable pub next_start : Option Allocator → Option (Option Time × Option Allocator)
  unfolding next_slot
  next_start none = some (none, none)
  next_start (some a) = elim (next_slot a) [ none ↦ none | some r ↦ some (r.0, some r.1) ]

  unfoldable pub stagger_for : Store → UserId → UserId → ActionType → Option Allocator
  unfolding stagger_of first_step_ledger default_caps effective_schedule find_account
  stagger_for s campaign account type =
      let limits = limits_of s account in
      let cap = cap_of limits type in
      if ltb 0 cap
      then some (stagger_of cap (schedule_of limits type) (first_step_ledger s campaign))
      else none

  -- `enrollStagger`
  unfoldable pub enroll_stagger : Store → UserId → UserId → Option Allocator
  unfolding stagger_for list_campaign_steps find_first
  enroll_stagger s campaign account =
      elim (find_first (λ r. r.enabled) (list_campaign_steps s campaign)) [
        | none ↦ none
        | some first ↦ elim (step_action first.step_type) [
          | none ↦ none
          | some type ↦ stagger_for s campaign account type
        ]
      ]
