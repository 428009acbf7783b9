-- ===== src/Safety/Schedule/Laws.antt =====
-- The deferral target of the working schedule is the next moment at which the schedule lets the
-- account act, for a schedule with an active weekday.
use native.Mathlib.Decide.{dec_lt, ℕ_discrete}
use mathlib.Core.Option.{some-injective}
use linkedin_outreach_agent.Prelude.{
  ℕ, zero, suc, ◌+◌, ◌%◌, ◌≤◌, ◌<◌, ◌≡◌, ◌≢◌, ◌-◌, ◌∙◌, sym, refl, Bool, ◌⊎◌, inl, inr, true, false,
  ◌&&◌, some, none, List, arith, ltb, includes, Bool-cases, subst,
}
use linkedin_outreach_agent.Domain.{Time, AccountSchedule}
use linkedin_outreach_agent.Calendar.{Zone, weekday}
use linkedin_outreach_agent.Safety.Schedule.{start_hour, in_window, walk_forward, schedule_defer}

module _ (z : Zone) where
  open z use {day, hour, at}

  -- Time order is the lexicographic order of day and hour, as far as those show it.
  day_hour_mono : (u v : Time) → u ≤ v → (day u < day v) ⊎ ((day u ≡ day v) × (hour u ≤ hour v))
  day_hour_mono u v h = elim (dec_lt v (at (day u) (hour u))) [
    | yes p ↦ absurd (omega (arith, z.le-at (day u) (hour u) u (z.hour-lt u) (omega arith)))
    | no p ↦ z.at-le (day u) (hour u) v (z.hour-lt u) (omega arith)
  ]

  -- What the walk returns: a candidate `at d' start` in the future on an active day, with every
  -- earlier candidate refused.
  record Found (now : Time) (start : ℕ) (days : List ℕ) (d t : ℕ) : Type 0 where
    on : ℕ
    from_on : d ≤ on
    at_on : t ≡ at on start
    future : now < t
    active : includes days (weekday on) ≡ true
    earlier : (e : ℕ) → d ≤ e → e < on → (now < at e start) → includes days (weekday e) ≡ false

  candidate : Time → ℕ → List ℕ → ℕ → Bool
  candidate now start days d = ltb now (at d start) && includes days (weekday d)

  Found-here :
      (now : Time) (start : ℕ) (days : List ℕ) (d : ℕ)
      → candidate now start days d ≡ true
      → Found now start days d (at d start)
  unfolding candidate
  Found-here now start days d c = record {
    on = d;
    from_on = omega arith;
    at_on = refl;
    future = ground arith;
    active = ground arith;
    earlier = λ e le lt f. absurd (omega arith);
  }

  Found-later :
      (now : Time) (start : ℕ) (days : List ℕ) (d t : ℕ)
      → candidate now start days d ≡ false
      → Found now start days (d + 1) t
      → Found now start days d t
  unfolding candidate
  Found-later now start days d t c f = record {
    on = f.on;
    from_on = omega (arith, f.from_on);
    at_on = f.at_on;
    future = f.future;
    active = f.active;
    earlier = λ e le lt fut. elim (ℕ_discrete e d) [
      | yes p ↦ skipped e p fut
      | no p ↦ f.earlier e (omega arith) lt fut
    ];
  }
    where
      skipped : (e : ℕ) → e ≡ d → now < at e start → includes days (weekday e) ≡ false
      skipped e p fut = ground arith

  -- The walk over `rounds` days from day `d` finds a candidate if one of those days has one.
  walk_finds :
      (now : Time) (start : ℕ) (days : List ℕ) (rounds d e : ℕ)
      → start < 24
      → d ≤ e
      → e < d + rounds
      → candidate now start days e ≡ true
      → Found now start days d (walk_forward z now start days rounds d)
  unfolding walk_forward candidate
  walk_finds now start days zero d e s le lt c = absurd (omega arith)
  walk_finds now start days (suc rounds) d e s le lt c =
      rw (z.day-at d start s) (elim (Bool-cases (candidate now start days d)) [
        | inl here ↦ rw here (Found-here now start days d here)
        | inr not_here ↦ rw not_here (
            Found-later now start days d _ not_here
              (walk_finds now start days rounds (d + 1) e s (passed not_here) (omega arith) c))
      ])
    where
      passed : candidate now start days d ≡ false → d + 1 ≤ e
      passed f = let ne : e ≢ d = λ q. cc in omega arith

  at_future : (now : Time) (e h : ℕ) → h < 24 → day now < e → now < at e h
  at_future now e h s lt = elim (dec_lt now (at e h)) [
    | yes p ↦ p
    | no p ↦ absurd (omega (arith, z.at-le e h now s (omega arith)))
  ]

  -- The day of the next week that falls on weekday `w`.
  coming : ℕ → ℕ → ℕ
  coming d w = d + 1 + (w + 13 - weekday d) % 7

  coming_bounds :
      (d w : ℕ) → w < 7 → (d < coming d w) × (coming d w < d + 8) × (weekday (coming d w) ≡ w)
  unfolding coming
  coming_bounds d w h = (omega arith, omega arith, omega arith)

  start_hour-lt : (s : AccountSchedule) → s.hours_start < 24 → start_hour z s < 24
  unfolding start_hour
  start_hour-lt s h = ground arith

  module _ (now : Time) (s : AccountSchedule) (w : ℕ) (early : s.hours_start < 24) (week : w < 7)
      (active : includes s.days w ≡ true) where
    defer_Found :
        Found now
          (start_hour z s)
          s.days
          (day now)
          (walk_forward z now (start_hour z s) s.days 8 (day now))
    unfolding candidate
    defer_Found =
        walk_finds now (start_hour z s) s.days 8 (day now) (coming (day now) w)
          (start_hour-lt s early) (omega (arith, coming_bounds (day now) w week))
          (omega (arith, coming_bounds (day now) w week)) is_candidate
      where
        is_candidate : candidate now (start_hour z s) s.days (coming (day now) w) ≡ true
        is_candidate = ground (
          arith,
          coming_bounds (day now) w week,
          at_future now (coming (day now) w) (start_hour z s) (start_hour-lt s early),
        )

  in_window-at :
      (s : AccountSchedule) (d : ℕ)
      → s.hours_start < 24
      → includes s.days (weekday d) ≡ true
      → in_window z (at d (start_hour z s)) s ≡ true
  unfolding in_window start_hour
  in_window-at s d e a = ground (
    arith,
    z.day-at d (start_hour z s) (start_hour-lt s e),
    z.hour-at d (start_hour z s) (start_hour-lt s e),
  )

  module _ (now u : Time) (s : AccountSchedule) where
    closed_earlier_day : includes s.days (weekday (day u)) ≡ false → in_window z u s ≡ false
    unfolding in_window
    closed_earlier_day h = rw h

    closed_before_start : hour u < start_hour z s → in_window z u s ≡ false
    unfolding in_window start_hour
    closed_before_start h = ground arith

    closed_same_day :
        in_window z now s ≡ false
        → day now ≡ day u
        → hour now ≤ hour u
        → start_hour z s ≤ hour now
        → in_window z u s ≡ false
    unfolding in_window start_hour
    closed_same_day c d h st = ground arith

  -- Between a moment outside of the window and the candidate found, the window stays closed.
  closed_until :
      (now u t : Time) (s : AccountSchedule)
      → s.hours_start < 24
      → in_window z now s ≡ false
      → Found now (start_hour z s) s.days (day now) t
      → now ≤ u
      → u < t
      → in_window z u s ≡ false
  closed_until now u t s early c f le lt = elim (dec_lt (day u) f.on) [
    | yes before ↦ elim (dec_lt now (at (day u) (start_hour z s))) [
      | yes p ↦
          closed_earlier_day now u s
            (f.earlier (day u) (omega (arith, day_hour_mono now u le)) before p)
      | no p ↦
          closed_same_day now u s c (omega (arith, mono, started p))
            (omega (arith, mono, started p)) (omega (arith, mono, started p))
    ]
    | no late ↦ closed_before_start now u s (
        omega (
          arith,
          z.le-at f.on (start_hour z s) u (start_hour-lt s early) (subst (λ x. u < x) f.at_on lt),
        ))
  ]
    where
      mono : (day now < day u) ⊎ ((day now ≡ day u) × (hour now ≤ hour u))
      mono = day_hour_mono now u le

      started :
          ¬ (now < at (day u) (start_hour z s))
          → (day u < day now) ⊎ ((day u ≡ day now) × (start_hour z s ≤ hour now))
      started p = z.at-le (day u) (start_hour z s) now (start_hour-lt s early) (omega arith)

  module _ (u : Time) (s : AccountSchedule) where
    defer_inside : in_window z u s ≡ true → schedule_defer z u s ≡ none
    unfolding schedule_defer
    defer_inside h = ground arith

    defer_outside :
        in_window z u s ≡ false
        → schedule_defer z u s ≡ some (walk_forward z u (start_hour z s) s.days 8 (day u))
    unfolding schedule_defer
    defer_outside h = ground arith

  next_of_Found :
      (now t : Time) (s : AccountSchedule)
      → s.hours_start < 24
      → in_window z now s ≡ false
      → Found now (start_hour z s) s.days (day now) t
      → (now < t)
        × (schedule_defer z t s ≡ none)
        × ((u : Time) → now ≤ u → u < t → schedule_defer z u s ≢ none)
  next_of_Found now t s early c f = (
    f.future,
    rw f.at_on (defer_inside _ s (in_window-at s f.on early f.active)),
    λ u le lt e. cc (e, defer_outside u s (closed_until now u t s early c f le lt)),
  )

  -- For a schedule with an active weekday `w` and a start hour of the day, a deferral names the
  -- next moment at which the schedule lets the account act: it lies in the future, the schedule
  -- does not defer at it, and it defers at every moment before it.
  pub schedule_defer-next :
      (now t : Time) (s : AccountSchedule) (w : ℕ)
      → s.hours_start < 24
      → w < 7
      → includes s.days w ≡ true
      → schedule_defer z now s ≡ some t
      → (now < t)
        × (schedule_defer z t s ≡ none)
        × ((u : Time) → now ≤ u → u < t → schedule_defer z u s ≢ none)
  schedule_defer-next now t s w early week active h = elim (Bool-cases (in_window z now s)) [
    | inl inside ↦ absurd (cc (h, defer_inside now s inside))
    | inr outside ↦ next_of_Found now t s early outside (
        subst (Found now (start_hour z s) s.days (day now))
          (some-injective _ _ (sym (defer_outside now s outside) ∙ h))
          (defer_Found now s w early week active))
  ]

  walk_future :
      (now : Time) (start : ℕ) (days : List ℕ) (rounds d : ℕ)
      → start < 24
      → now < walk_forward z now start days rounds d
  unfolding walk_forward
  walk_future now start days zero d s = at_future now (day now + 7) start s (omega arith)
  walk_future now start days (suc rounds) d s =
      ground (arith, walk_future now start days rounds (d + 1))

  -- A deferral lies in the future, also for a schedule with no active day, when the schedule starts at
  -- an hour of the day.
  pub schedule_defer-future :
      (now t : Time) (s : AccountSchedule)
      → s.hours_start < 24
      → schedule_defer z now s ≡ some t
      → now < t
  schedule_defer-future now t s early h = elim (Bool-cases (in_window z now s)) [
    | inl inside ↦ absurd (cc (h, defer_inside now s inside))
    | inr outside ↦
        subst (λ x. now < x) (some-injective _ _ (sym (defer_outside now s outside) ∙ h))
          (walk_future now (start_hour z s) s.days 8 (day now) (start_hour-lt s early))
  ]
