-- ===== src/Dispatch/AdvanceLaws.antt =====
-- When the next step of a sequence becomes due.
use native.Mathlib.Decide.{ℕ_discrete}
use linkedin_outreach_agent.Prelude.{
  ℕ, zero, suc, ◌+◌, ◌-◌, ◌*◌, ◌%◌, ◌≤◌, ◌<◌, ◌≡◌, ◌≢◌, refl, true, false, inl, inr, some, none,
  List, arith, includes, Bool-cases,
}
use linkedin_outreach_agent.Domain.{Time, AccountSchedule}
use linkedin_outreach_agent.Calendar.{Zone, weekday}
use linkedin_outreach_agent.Dispatch.Advance.{day_seconds, next_active_day, due_after_delay}

module _ (z : Zone) where
  open z use {day, at}

  -- The first active day from `d` on.
  pub record FirstActive (start : ℕ) (days : List ℕ) (d : ℕ) (t : Time) : Type 0 where
    pub on : ℕ
    pub from_on : d ≤ on
    pub at_on : t ≡ at on start
    pub active : includes days (weekday on) ≡ true
    pub earlier : (e : ℕ) → d ≤ e → e < on → includes days (weekday e) ≡ false

  active_here :
      (start : ℕ) (days : List ℕ) (d : ℕ)
      → includes days (weekday d) ≡ true
      → FirstActive start days d (at d start)
  active_here start days d c = record {
    on = d;
    from_on = omega arith;
    at_on = refl;
    active = c;
    earlier = λ e le lt. absurd (omega arith);
  }

  active_later :
      (start : ℕ) (days : List ℕ) (d : ℕ) (t : Time)
      → includes days (weekday d) ≡ false
      → FirstActive start days (d + 1) t
      → FirstActive start days d t
  active_later start days d t c f = record {
    on = f.on;
    from_on = omega (arith, f.from_on);
    at_on = f.at_on;
    active = f.active;
    earlier = λ e le lt. elim (ℕ_discrete e d) [
      | yes p ↦ ground arith
      | no p ↦ f.earlier e (omega arith) lt
    ];
  }

  next_active_day_finds :
      (start : ℕ) (days : List ℕ) (rounds d e : ℕ)
      → start < 24
      → d ≤ e
      → e < d + rounds
      → includes days (weekday e) ≡ true
      → FirstActive start days d (next_active_day z start days rounds d)
  unfolding next_active_day
  next_active_day_finds start days zero d e s le lt c = absurd (omega arith)
  next_active_day_finds start days (suc rounds) d e s le lt c =
      rw (z.day-at d start s) (elim (Bool-cases (includes days (weekday d))) [
        | inl here ↦ rw here (active_here start days d here)
        | inr not_here ↦ rw not_here (
            active_later start days d _ not_here (
              next_active_day_finds start days rounds (d + 1) e s (passed not_here) (omega arith)
                c))
      ])
    where
      passed : includes days (weekday d) ≡ false → d + 1 ≤ e
      passed f = let ne : e ≢ d = λ q. cc in omega arith

  same_weekday :
      (d w : ℕ)
      → w < 7
      → (d ≤ d + (w + 7 - weekday d) % 7)
        × (d + (w + 7 - weekday d) % 7 < d + 8)
        × (weekday (d + (w + 7 - weekday d) % 7) ≡ w)
  same_weekday d w h = (omega arith, omega arith, omega arith)

  -- A delay of a day or more ends at the start hour of the first active weekday from the day on
  -- which the exact delay ends, for a schedule with an active weekday; a delay below that ends
  -- exactly; no delay is due at once.
  pub due_after_delay_lem :
      (now : Time) (delay : ℕ) (s : AccountSchedule) (w : ℕ)
      → s.hours_start < 24
      → w < 7
      → includes s.days w ≡ true
      → (delay ≡ 0 → due_after_delay z now delay s ≡ none)
        × (0 < delay
            → delay < day_seconds
            → due_after_delay z now delay s ≡ some (now + delay * 1000))
        × (day_seconds ≤ delay
            → (t : Time) × (due_after_delay z now delay s ≡ some t)
              × FirstActive s.hours_start s.days (day (now + delay * 1000)) t)
  unfolding due_after_delay
  due_after_delay_lem now delay s w early week active =
      let d = day (now + delay * 1000) in
      let b = same_weekday d w week in
      (
        λ h. ground arith,
        λ h k. ground arith,
        λ h. (
          next_active_day z s.hours_start s.days 8 d,
          ground arith,
          next_active_day_finds s.hours_start s.days 8 d (d + (w + 7 - weekday d) % 7) early b.0 b.1
              (ground (arith, b.2)),
        ),
      )
