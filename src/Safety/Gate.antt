-- ===== src/Safety/Gate.antt =====
-- `DefaultSafetyGate` of safety-gate.ts: the budget of an account and `canAct`. The ports are the
-- optional counters of `SafetyGateOptions`; `draw` is the random draw of the call, a number below
-- 2 ^ 53 that stands for `draw / 2 ^ 53`, as `Math.random` has them.
pub mod Laws
pub mod Caps
use linkedin_outreach_agent.Prelude.{
  ℕ, zero, suc, ◌+◌, ◌*◌, ◌/◌, ◌^◌, Bool, true, false, not, ◌&&◌, ◌||◌, Option, none, some, ltb,
  leb, ◌==◌, if◌then◌else◌, get_or,
}
use linkedin_outreach_agent.Domain.{
  UserId, Time, ActionType, AccountState, cold, warming, active, throttled, cooldown, restricted,
  CapTable, DailyBudget, AccountLimits, Account, Decision, allow, defer, deny, paused_by_operator,
  account_restricted, in_cooldown, disabled_by_operator, not_permitted, too_many_outstanding,
  same_type,
}
use linkedin_outreach_agent.Calendar.{Zone}
use linkedin_outreach_agent.Safety.Config.{SafetyConfig}
use linkedin_outreach_agent.Safety.Schedule.{next_day, iso_date, effective_schedule, schedule_defer}

pub record Ports : Type 0 where
  pub weekly_invites : Option (UserId → ℕ)
  pub daily_usage : Option (UserId → CapTable)
  pub outstanding_invites : Option (UserId → ℕ)
  pub recent_actions : Option (UserId → Option Time)
  pub pause : Option (UserId → Bool)

pub record Gate : Type 0 where
  pub cfg : SafetyConfig
  pub ports : Ports
  pub open ports use *

abbrev pub is_some {ℓ} : {A : Type ℓ} → Option A → Bool
is_some none = false
is_some (some a) = true

-- The constructor: `none` is the error that it throws.
unfoldable pub new_gate : SafetyConfig → Ports → Bool → Option Gate
new_gate cfg p allow_missing_counters =
    if not allow_missing_counters
      && (not (is_some p.daily_usage)
          || not (is_some p.weekly_invites)
          || not (is_some p.recent_actions)
          || not (is_some p.outstanding_invites))
    then none
    else some (record { cfg = cfg; ports = p })

-- `scaleCaps`
unfoldable pub scale_caps : CapTable → ℕ → ℕ → CapTable
scale_caps caps num den k = elim (caps k) [ none ↦ none | some c ↦ some (c * num / den) ]

unfoldable pub zero_caps : CapTable
zero_caps k = some 0

-- `{ ...emptyUsed(), ...used }`
unfoldable pub with_empty_used : CapTable → CapTable
with_empty_used used k = some (get_or (used k) 0)

unfoldable pub base_caps : Gate → Account → CapTable
base_caps g acct = elim acct.limits [ none ↦ g.cfg.active | some l ↦ l.caps ]

unfoldable pub caps_in_state : Gate → Account → AccountState → CapTable
unfolding base_caps scale_caps zero_caps
caps_in_state g acct throttled =
    scale_caps (base_caps g acct) g.cfg.throttle_numerator g.cfg.throttle_denominator
caps_in_state g acct cooldown = zero_caps
caps_in_state g acct restricted = zero_caps
caps_in_state g acct _ = base_caps g acct

-- `capsForState`
unfoldable pub caps_for_state : Gate → Account → CapTable
unfolding caps_in_state
caps_for_state g acct = caps_in_state g acct acct.state

unfoldable pub used_today : Gate → Time → Account → CapTable
unfolding with_empty_used iso_date
used_today g now acct = elim g.daily_usage [
  | some counter ↦ with_empty_used (counter acct.id)
  | none ↦
      if acct.budget.date == iso_date now
      then with_empty_used acct.budget.used
      else with_empty_used (λ k. none)
]

unfoldable pub budget : Gate → Time → Account → DailyBudget
unfolding caps_for_state used_today iso_date
budget g now acct = record {
  date = iso_date now;
  caps = caps_for_state g acct;
  used = used_today g now acct;
}

unfoldable pub action_enabled : Option AccountLimits → ActionType → Bool
action_enabled none type = true
action_enabled (some l) type = get_or (l.enabled type) true

unfoldable pub is_paused : Gate → UserId → Bool
is_paused g id = elim g.pause [ none ↦ false | some p ↦ p id ]

unfoldable pub invites_last_7d : Gate → Account → ℕ → ℕ
invites_last_7d g acct today_connect_used = elim g.weekly_invites [
  | none ↦ today_connect_used
  | some count ↦ count acct.id
]

unfoldable pub is_connect : ActionType → Bool
is_connect type = same_type type ActionType.connect

-- The spacing of actions: the last section of `canAct`.
unfoldable pub pace : Gate → Time → ℕ → Account → Decision
pace g now draw acct = elim g.recent_actions [
  | none ↦ allow
  | some last_action_at ↦ elim (last_action_at acct.id) [
    | none ↦ allow
    | some last ↦
        let gap = g.cfg.min_action_gap_ms + draw * g.cfg.action_gap_jitter_ms / 2 ^ 53 in
        if ltb now (last + gap) then defer (last + gap) else allow
  ]
]

module _ (z : Zone) where
  -- The working schedule, then the spacing.
  unfoldable pub check_schedule : Gate → Time → ℕ → Account → ActionType → Decision
  check_schedule g now draw acct type =
      elim (schedule_defer z now (effective_schedule acct.limits g.cfg (some type))) [
        | some until ↦ defer until
        | none ↦ pace g now draw acct
      ]

  -- The ceiling on outstanding invitations, then the rest.
  unfoldable pub check_outstanding : Gate → Time → ℕ → Account → ActionType → Decision
  check_outstanding g now draw acct type = elim g.outstanding_invites [
    | none ↦ check_schedule g now draw acct type
    | some count ↦
        if is_connect type && leb g.cfg.outstanding_invite_ceiling (count acct.id)
        then deny (too_many_outstanding (count acct.id) g.cfg.outstanding_invite_ceiling)
        else check_schedule g now draw acct type
  ]

  -- The daily cap and the weekly ceiling, then the rest.
  unfoldable pub check_caps : Gate → Time → ℕ → Account → ActionType → ℕ → ℕ → Decision
  check_caps g now draw acct type cap used =
      if leb cap 0
      then deny (not_permitted type acct.state)
      else if leb cap used
      then defer (next_day now)
      else if is_connect type && leb g.cfg.weekly_invite_ceiling (invites_last_7d g acct used)
      then defer (next_day now)
      else check_outstanding g now draw acct type

  unfoldable pub check_enabled : Gate → Time → ℕ → Account → ActionType → Decision
  check_enabled g now draw acct type =
      if not (action_enabled acct.limits type)
      then deny (disabled_by_operator type)
      else check_caps g now draw acct type (get_or ((budget g now acct).caps type) 0)
          (get_or ((budget g now acct).used type) 0)

  -- The states that halt an account, then the rest.
  unfoldable pub check_state : Gate → Time → ℕ → Account → ActionType → AccountState → Decision
  check_state g now draw acct type restricted = deny account_restricted
  check_state g now draw acct type cooldown = deny in_cooldown
  check_state g now draw acct type _ = check_enabled g now draw acct type

  -- `canAct`
  unfoldable pub can_act : Gate → Time → ℕ → Account → ActionType → Decision
  can_act g now draw acct type =
      if is_paused g acct.id
      then deny paused_by_operator
      else check_state g now draw acct type acct.state
