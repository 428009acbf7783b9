-- ===== src/Scheduler/WindowLaws.antt =====
-- The search for the working window of control-plane/scheduler/src/working-hours.ts finds it.
use native.Mathlib.Decide.{dec_lt}
use linkedin_outreach_agent.Prelude.{
  ℕ, zero, suc, ◌+◌, ◌-◌, ◌*◌, ◌%◌, ◌≤◌, ◌<◌, ◌≡◌, true, false, ◌&&◌, arith, ltb, if◌then◌else◌,
  includes, Bool-cases, inl, inr,
}
use linkedin_outreach_agent.Domain.{Time, hour_ms}
use linkedin_outreach_agent.Calendar.{Zone, weekday}
use linkedin_outreach_agent.Calendar.Fixed.{utc}
use linkedin_outreach_agent.Scheduler.Window.{
  WorkingHours, is_working_day, is_within_working_hours, advance_cursor, search_window,
  next_working_instant,
}

-- The day of a weekday in the week after a day.
pub coming : ℕ → ℕ → ℕ
coming d w = d + 1 + (w + 7 - (d + 5) % 7) % 7

coming_lem :
    (d w : ℕ) → w < 7 → (weekday (coming d w) ≡ w) × (d < coming d w) × (coming d w ≤ d + 7)
unfolding coming
coming_lem d w h = omega arith

-- The hours of the local clock since the epoch.
abbrev pub clock_hours : Zone → Time → ℕ
clock_hours z t = z.day t * 24 + z.hour t

-- A clock that is not changed: an hour later it shows an hour more.
pub record IsRegular (z : Zone) : Type 0 where
  pub next_hour : (t : Time) → clock_hours z (t + hour_ms) ≡ clock_hours z t + 1

pub utc-IsRegular : IsRegular utc
utc-IsRegular = record { next_hour = λ t. omega arith }

module _ (z : Zone) (regular : IsRegular z) (w : WorkingHours) where
  clock_hours_add : (n : ℕ) (t : Time) → clock_hours z (t + n * hour_ms) ≡ clock_hours z t + n
  clock_hours_add zero t = rw (ring t) (omega arith)
    where
      ring : (t : ℕ) → t + 0 * hour_ms ≡ t
      ring t = omega arith
  clock_hours_add (suc n) t =
      rw (split n t) (omega (arith, regular.next_hour (t + n * hour_ms), clock_hours_add n t))
    where
      split : (n t : ℕ) → t + suc n * hour_ms ≡ t + n * hour_ms + hour_ms
      split n t = omega arith

  -- The hours that a round goes on.
  hours_on : Time → ℕ
  hours_on c =
      if is_working_day z c w && ltb (z.hour c) w.start_hour then w.start_hour - z.hour c else 1

  advance_cursor-hours_on : (c : Time) → advance_cursor z c w ≡ c + hours_on c * hour_ms
  unfolding advance_cursor hours_on
  advance_cursor-hours_on c = ground arith

  module _ (goal : ℕ) (works : includes w.working_days (weekday goal) ≡ true)
      (opens : w.start_hour < w.end_hour) (in_day : w.start_hour < 24) where
    -- The hour at which the window of the day opens.
    opening : ℕ
    opening = goal * 24 + w.start_hour

    -- At the opening hour the window is open.
    at_opening : (c : Time) → clock_hours z c ≡ opening → is_within_working_hours z c w ≡ true
    unfolding is_within_working_hours is_working_day opening
    at_opening c h =
        let same : z.day c ≡ goal = omega (arith, z.hour-lt c) in
        let hour : z.hour c ≡ w.start_hour = omega (arith, z.hour-lt c) in
        rw (same, hour, works) (ground arith)

    still_ahead :
        (c : Time)
        → clock_hours z c ≤ opening
        → is_within_working_hours z c w ≡ false
        → clock_hours z c + 1 ≤ opening
    still_ahead c h shut = elim (dec_lt (clock_hours z c) opening) [
      | yes p ↦ omega arith
      | no p ↦ absurd (cc (at_opening c (omega arith), shut))
    ]

    hours_on-le :
        (c : Time)
        → clock_hours z c ≤ opening
        → is_within_working_hours z c w ≡ false
        → (clock_hours z c + hours_on c ≤ opening) × (0 < hours_on c)
    unfolding hours_on opening
    hours_on-le c h shut = elim (Bool-cases (is_working_day z c w && ltb (z.hour c) w.start_hour)) [
      | inl early ↦
          let before : z.hour c < w.start_hour = ground (arith, early) in
          rw early (omega (arith, z.hour-lt c))
      | inr late ↦ rw late (still_ahead c h shut, omega arith)
    ]

    search_window-finds :
        (n : ℕ) (c : Time)
        → clock_hours z c ≤ opening
        → opening < clock_hours z c + n
        → (k : ℕ) × (search_window z n c w ≡ c + k * hour_ms)
          × (clock_hours z c + k ≤ opening)
          × (is_within_working_hours z (search_window z n c w) w ≡ true)
    unfolding search_window
    search_window-finds zero c h m = absurd (omega arith)
    search_window-finds (suc n) c h m = elim (Bool-cases (is_within_working_hours z c w)) [
      | inl here ↦ (0, rw here (omega arith), omega arith, rw here here)
      | inr shut ↦
          let step = hours_on-le c h shut in
          let goes = advance_cursor-hours_on c in
          let moved : clock_hours z (advance_cursor z c w) ≡ clock_hours z c + hours_on c =
            rw goes (clock_hours_add (hours_on c) c) in
          let (k, found, bound, within) =
            search_window-finds n (advance_cursor z c w) (omega arith) (omega arith) in
          (hours_on c + k, rw shut (omega arith), omega arith, rw shut within)
    ]

-- In a zone whose clock is not changed, and for a working day of the week and a window that is
-- not empty, the search ends in the window, whole hours after its start and at most 192 of them,
-- so that the 336 rounds of the loop are enough.
pub next_working_instant-within :
    (z : Zone) (w : WorkingHours) (d : ℕ) (from : Time)
    → IsRegular z
    → d < 7
    → includes w.working_days d ≡ true
    → w.start_hour < w.end_hour
    → w.start_hour < 24
    → (k : ℕ) × (next_working_instant z from w ≡ from + k * hour_ms)
      × (k ≤ 192)
      × (is_within_working_hours z (next_working_instant z from w) w ≡ true)
unfolding next_working_instant opening
next_working_instant-within z w d from regular week works opens in_day =
    let (same, after, before) = coming_lem (z.day from) d week in
    let (k, found, bound, within) =
      search_window-finds z regular w (coming (z.day from) d) (rw same works) opens in_day 336 from
        (omega (arith, z.hour-lt from)) (omega (arith, z.hour-lt from)) in
    (k, found, omega (arith, z.hour-lt from), within)
