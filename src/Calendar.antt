-- ===== src/Calendar.antt =====
-- The host's local calendar, as the code uses it through `Date`: the running number of the local
-- day, the local hour, and the instant of an hour of a day (`new Date(y, m, d, h, 0, 0, 0)`, whose
-- day-of-month arithmetic is addition on the day number).
pub mod Fixed
use linkedin_outreach_agent.Prelude.{ℕ, ◌+◌, ◌%◌, ◌≤◌, ◌<◌, ◌≡◌, ◌⊎◌}
use linkedin_outreach_agent.Domain.{Time}

-- The laws are those of a zone whose clock does not change at the times in question.
pub record Zone : Type 0 where
  pub day : Time → ℕ
  pub hour : Time → ℕ
  pub at : ℕ → ℕ → Time
  pub hour-lt : (t : Time) → hour t < 24
  pub day-at : (d h : ℕ) → h < 24 → day (at d h) ≡ d
  pub hour-at : (d h : ℕ) → h < 24 → hour (at d h) ≡ h
  -- An hour's start is not after `t` exactly if its day and hour are not after those of `t`.
  pub at-le :
      (d h : ℕ) (t : Time) → h < 24 → at d h ≤ t → (d < day t) ⊎ ((d ≡ day t) × (h ≤ hour t))
  pub le-at :
      (d h : ℕ) (t : Time) → h < 24 → t < at d h → (day t < d) ⊎ ((day t ≡ d) × (hour t < h))

-- `getDay()`: 1970-01-01 was a Thursday.
abbrev pub weekday : ℕ → ℕ
weekday d = (d + 4) % 7
