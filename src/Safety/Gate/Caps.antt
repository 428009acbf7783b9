-- ===== src/Safety/Gate/Caps.antt =====
-- Caps by state, and what a deferral or a missing cap means.
use linkedin_outreach_agent.Prelude.{
  ℕ, ◌*◌, ◌/◌, ◌≤◌, ◌<◌, ◌≡◌, none, some, get_or, arith, Option-cases, inl, inr, refl,
}
use linkedin_outreach_agent.Domain.{
  Time, ActionType, AccountState, active, throttled, cooldown, restricted, Account, Decision,
  AccountSchedule, allow, defer, deny, CapTable,
}
use linkedin_outreach_agent.Calendar.{Zone}
use linkedin_outreach_agent.Safety.Schedule.{next_day, effective_schedule, schedule_defer}
use linkedin_outreach_agent.Safety.Schedule.Laws.{schedule_defer-future}
use linkedin_outreach_agent.Safety.Gate.{
  Gate, budget, base_caps, scale_caps, caps_in_state, caps_for_state, is_paused, invites_last_7d,
  pace, check_schedule, check_outstanding, check_caps, check_enabled, check_state, can_act,
  used_today,
}
use linkedin_outreach_agent.Safety.Gate.Laws.{can_act-MayAct, cap_of, used_of}

abbrev pub in_state : AccountState → Account → Account
in_state s acct = record acct { state = s }

abbrev pub IsDeny : Decision → Type 0
IsDeny (deny r) = Unit
IsDeny _ = ⊥

scale_le : (c num den : ℕ) → num ≤ den → c * num / den ≤ c
scale_le c num den h = grind arith

get_scale_le :
    (caps : CapTable) (num den : ℕ) (k : ActionType)
    → num ≤ den
    → get_or (scale_caps caps num den k) 0 ≤ get_or (caps k) 0
unfolding scale_caps
get_scale_le caps num den k h = elim (Option-cases (caps k)) [
  | inl e ↦ ground arith
  | inr (c, e) ↦ ground (arith, scale_le c num den h)
]

module _ (g : Gate) (now : Time) (acct : Account) (type : ActionType) where
  cap_throttled_le :
      g.cfg.throttle_numerator ≤ g.cfg.throttle_denominator
      → cap_of g now (in_state throttled acct) type ≤ cap_of g now (in_state active acct) type
  unfolding budget caps_for_state caps_in_state base_caps
  cap_throttled_le h =
      get_scale_le (base_caps g acct) g.cfg.throttle_numerator g.cfg.throttle_denominator type h

  used_same : (s : AccountState) → used_of g now (in_state s acct) type ≡ used_of g now acct type
  unfolding budget used_today
  used_same s = refl

module _ (z : Zone) (g : Gate) (now : Time) (draw : ℕ) (acct : Account) (type : ActionType) where
  -- If a throttled account may act, then so may the same account when it is active, for a
  -- multiplier of at most one.
  pub throttled_tightens :
      g.cfg.throttle_numerator ≤ g.cfg.throttle_denominator
      → can_act z g now draw (in_state throttled acct) type ≡ allow
      → can_act z g now draw (in_state active acct) type ≡ allow
  unfolding budget used_today is_paused invites_last_7d
  throttled_tightens h e =
      let m = (can_act-MayAct z g now draw (in_state throttled acct) type).0 e in
      (can_act-MayAct z g now draw (in_state active acct) type).1 (record {
        running = m.running;
        working = tt;
        enabled = m.enabled;
        below_cap = omega (arith, m.below_cap, cap_throttled_le g now acct type h);
        below_weekly = m.below_weekly;
        pile_below = m.pile_below;
        in_hours = m.in_hours;
        spaced = m.spaced;
      })

  -- A type without an entry among the caps is denied in every state: never allowed, never deferred.
  pub missing_cap_denies : base_caps g acct type ≡ none → IsDeny (can_act z g now draw acct type)
  unfolding can_act check_state check_enabled check_caps budget caps_for_state caps_in_state
      scale_caps
  missing_cap_denies h = ground arith

  next_day-future : now < next_day now
  unfolding next_day
  next_day-future = omega arith

  pace_future : (t : Time) → pace g now draw acct ≡ defer t → now < t
  unfolding pace
  pace_future t e = elim (Option-cases g.recent_actions) [
    | inl n ↦ absurd (ground arith)
    | inr (clock, c) ↦ elim (Option-cases (clock acct.id)) [
      | inl n ↦ absurd (ground arith)
      | inr (last, l) ↦ ground arith
    ]
  ]

  schedule_future :
      (t : Time)
      → (effective_schedule acct.limits g.cfg (some type)).hours_start < 24
      → check_schedule z g now draw acct type ≡ defer t
      → now < t
  unfolding check_schedule
  schedule_future t h e =
      let s : AccountSchedule = effective_schedule acct.limits g.cfg (some type) in
      elim (Option-cases (schedule_defer z now s)) [
        | inl n ↦ pace_future t (ground arith)
        | inr (u, o) ↦ schedule_defer-future z now t s h (ground arith)
      ]

  outstanding_future :
      (t : Time)
      → (effective_schedule acct.limits g.cfg (some type)).hours_start < 24
      → check_outstanding z g now draw acct type ≡ defer t
      → now < t
  unfolding check_outstanding
  outstanding_future t h e = elim (Option-cases g.outstanding_invites) [
    | inl n ↦ schedule_future t h (ground arith)
    | inr (count, c) ↦ schedule_future t h (ground arith)
  ]

  caps_future :
      (t cap used : ℕ)
      → (effective_schedule acct.limits g.cfg (some type)).hours_start < 24
      → check_caps z g now draw acct type cap used ≡ defer t
      → now < t
  unfolding check_caps
  caps_future t cap used h e = ground (arith, next_day-future, outstanding_future t h)

  state_future :
      (t : ℕ) (s : AccountState)
      → (effective_schedule acct.limits g.cfg (some type)).hours_start < 24
      → check_state z g now draw acct type s ≡ defer t
      → now < t
  unfolding check_state check_enabled
  state_future t cooldown h e = cc
  state_future t restricted h e = cc
  state_future t _ h e =
      ground (arith, caps_future t (cap_of g now acct type) (used_of g now acct type) h)

  -- A deferral names a time in the future, when the working schedule starts at an hour of the day.
  pub defer_future :
      (t : Time)
      → (effective_schedule acct.limits g.cfg (some type)).hours_start < 24
      → can_act z g now draw acct type ≡ defer t
      → now < t
  unfolding can_act
  defer_future t h e = ground (arith, state_future t acct.state h)
