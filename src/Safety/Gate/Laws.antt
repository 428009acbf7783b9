-- ===== src/Safety/Gate/Laws.antt =====
-- When `canAct` allows an action: exactly under the conjunction of its conditions.
use linkedin_outreach_agent.Prelude.{
  ℕ, ◌+◌, ◌*◌, ◌/◌, ◌^◌, ◌≤◌, ◌<◌, ◌≡◌, ◌↔◌, true, false, Option, none, some, get_or, arith, inl,
  inr, Option-cases, Bool-cases,
}
use linkedin_outreach_agent.Domain.{
  UserId, Time, ActionType, AccountState, cooldown, restricted, Account, allow,
}
use linkedin_outreach_agent.Calendar.{Zone}
use linkedin_outreach_agent.Safety.Schedule.{effective_schedule, schedule_defer}
use linkedin_outreach_agent.Safety.Gate.{
  Gate, budget, action_enabled, is_paused, invites_last_7d, is_connect, pace, check_schedule,
  check_outstanding, check_caps, check_enabled, check_state, can_act,
}

-- The gap that the call's draw asks for.
abbrev pub gap : Gate → ℕ → ℕ
gap g draw = g.cfg.min_action_gap_ms + draw * g.cfg.action_gap_jitter_ms / 2 ^ 53

abbrev pub cap_of : Gate → Time → Account → ActionType → ℕ
cap_of g now acct type = get_or ((budget g now acct).caps type) 0

abbrev pub used_of : Gate → Time → Account → ActionType → ℕ
used_of g now acct type = get_or ((budget g now acct).used type) 0

abbrev pub Spaced : Gate → Time → ℕ → Account → Type 0
Spaced g now draw acct =
    (clock : UserId → Option Time) (last : Time)
    → g.recent_actions ≡ some clock
    → clock acct.id ≡ some last
    → last + gap g draw ≤ now

abbrev pub PileBelow : Gate → Account → ActionType → Type 0
PileBelow g acct type =
    (count : UserId → ℕ)
    → g.outstanding_invites ≡ some count
    → is_connect type ≡ true
    → count acct.id < g.cfg.outstanding_invite_ceiling

abbrev pub IsWorking : AccountState → Type 0
IsWorking cooldown = ⊥
IsWorking restricted = ⊥
IsWorking _ = Unit

module _ (z : Zone) (g : Gate) (now : Time) (draw : ℕ) (acct : Account) (type : ActionType) where
  pub record MayAct : Type 0 where
    pub running : is_paused g acct.id ≡ false
    pub working : IsWorking acct.state
    pub enabled : action_enabled acct.limits type ≡ true
    pub below_cap : used_of g now acct type < cap_of g now acct type
    pub below_weekly :
        is_connect type ≡ true
        → invites_last_7d g acct (used_of g now acct type) < g.cfg.weekly_invite_ceiling
    pub pile_below : PileBelow g acct type
    pub in_hours : schedule_defer z now (effective_schedule acct.limits g.cfg (some type)) ≡ none
    pub spaced : Spaced g now draw acct

  pace-Spaced : Spaced g now draw acct → pace g now draw acct ≡ allow
  unfolding pace
  pace-Spaced h = elim (Option-cases g.recent_actions) [
    | inl e ↦ ground arith
    | inr (clock, c) ↦ elim (Option-cases (clock acct.id)) [
      | inl e ↦ ground arith
      | inr (last, l) ↦ ground (arith, h clock last c l)
    ]
  ]

  pace_allow : (pace g now draw acct ≡ allow) ↔ Spaced g now draw acct
  unfolding pace
  pace_allow = (λ e clock last c l. ground arith, pace-Spaced)

  schedule_allow :
      (check_schedule z g now draw acct type ≡ allow)
      ↔ (schedule_defer z now (effective_schedule acct.limits g.cfg (some type)) ≡ none)
        × (pace g now draw acct ≡ allow)
  unfolding check_schedule
  schedule_allow = (λ e. ground arith, λ e. ground arith)

  outstanding_below :
      PileBelow g acct type
      → check_schedule z g now draw acct type ≡ allow
      → check_outstanding z g now draw acct type ≡ allow
  unfolding check_outstanding
  outstanding_below h s = elim (Option-cases g.outstanding_invites) [
    | inl e ↦ ground arith
    | inr (count, c) ↦ elim (Bool-cases (is_connect type)) [
      | inl k ↦ ground (arith, h count c k)
      | inr k ↦ ground arith
    ]
  ]

  outstanding_allow :
      (check_outstanding z g now draw acct type ≡ allow)
      ↔ PileBelow g acct type × (check_schedule z g now draw acct type ≡ allow)
  unfolding check_outstanding
  outstanding_allow =
      (λ e. (λ count c k. ground arith, ground arith), λ e. outstanding_below e.0 e.1)

  caps_allow :
      (cap used : ℕ)
      → (check_caps z g now draw acct type cap used ≡ allow)
        ↔ (used < cap)
          × (is_connect type ≡ true → invites_last_7d g acct used < g.cfg.weekly_invite_ceiling)
          × (check_outstanding z g now draw acct type ≡ allow)
  unfolding check_caps
  caps_allow cap used = (
    λ e. (ground arith, λ k. ground arith, ground arith),
    λ e. elim (Bool-cases (is_connect type)) [
      | inl k ↦ ground (arith, e.1 k)
      | inr k ↦ ground arith
    ],
  )

  enabled_allow :
      (check_enabled z g now draw acct type ≡ allow)
      ↔ (action_enabled acct.limits type ≡ true)
        × (check_caps z g now draw acct type (cap_of g now acct type) (used_of g now acct type)
            ≡ allow)
  unfolding check_enabled
  enabled_allow = (λ e. (ground arith, ground arith), λ e. ground arith)

  state_allow :
      (s : AccountState)
      → (check_state z g now draw acct type s ≡ allow)
        ↔ IsWorking s × (check_enabled z g now draw acct type ≡ allow)
  unfolding check_state
  state_allow cooldown = (λ e. cc, λ e. absurd e.0)
  state_allow restricted = (λ e. cc, λ e. absurd e.0)
  state_allow _ = (λ e. (tt, e), λ e. e.1)

  can_act_stages :
      (can_act z g now draw acct type ≡ allow)
      ↔ (is_paused g acct.id ≡ false) × (check_state z g now draw acct type acct.state ≡ allow)
  unfolding can_act
  can_act_stages = (λ e. (ground arith, ground arith), λ e. ground arith)

  allow-MayAct : can_act z g now draw acct type ≡ allow → MayAct
  allow-MayAct e =
      let top = can_act_stages.0 e in
      let live = (state_allow acct.state).0 top.1 in
      let on = enabled_allow.0 live.1 in
      let caps = (caps_allow (cap_of g now acct type) (used_of g now acct type)).0 on.1 in
      let pile = outstanding_allow.0 caps.2 in
      let hours = schedule_allow.0 pile.1 in
      record {
        running = top.0;
        working = live.0;
        enabled = on.0;
        below_cap = caps.0;
        below_weekly = caps.1;
        pile_below = pile.0;
        in_hours = hours.0;
        spaced = pace_allow.0 hours.1;
      }

  MayAct-allow : MayAct → can_act z g now draw acct type ≡ allow
  MayAct-allow m =
      let hours = schedule_allow.1 (m.in_hours, pace_allow.1 m.spaced) in
      let pile = outstanding_allow.1 (m.pile_below, hours) in
      let caps =
        (caps_allow (cap_of g now acct type) (used_of g now acct type)).1
          (m.below_cap, m.below_weekly, pile) in
      can_act_stages.1
        (m.running, (state_allow acct.state).1 (m.working, enabled_allow.1 (m.enabled, caps)))

  -- The gate allows an action exactly if the account is not paused, in a state that works, the
  -- action's type is enabled, today's use is below its cap, an invite meets the weekly and the
  -- outstanding ceilings, the working schedule is open and the gap since the last action has passed.
  pub can_act-MayAct : (can_act z g now draw acct type ≡ allow) ↔ MayAct
  can_act-MayAct = (allow-MayAct, MayAct-allow)
