-- ===== src/Calendar/Fixed.antt =====
-- A zone that meets the laws: the clock of the epoch itself.
use native.Mathlib.Decide.{dec_lt}
use linkedin_outreach_agent.Prelude.{ℕ, ◌+◌, ◌*◌, ◌/◌, ◌%◌, ◌≤◌, ◌<◌, ◌≡◌, ◌⊎◌, inl, inr, arith}
use linkedin_outreach_agent.Domain.{Time, hour_ms, day_ms}
use linkedin_outreach_agent.Calendar.{Zone}

pub at_le :
    (d h : ℕ) (t : Time)
    → h < 24
    → d * day_ms + h * hour_ms ≤ t
    → (d < t / day_ms) ⊎ ((d ≡ t / day_ms) × (h ≤ t / hour_ms % 24))
at_le d h t lt le = elim (dec_lt d (t / day_ms)) [
  | yes p ↦ inl p
  | no p ↦ inr (omega arith, omega arith)
]

pub le_at :
    (d h : ℕ) (t : Time)
    → h < 24
    → t < d * day_ms + h * hour_ms
    → (t / day_ms < d) ⊎ ((t / day_ms ≡ d) × (t / hour_ms % 24 < h))
le_at d h t lt le = elim (dec_lt (t / day_ms) d) [
  | yes p ↦ inl p
  | no p ↦ inr (omega arith, omega arith)
]

pub day_at : (d h : ℕ) → h < 24 → (d * day_ms + h * hour_ms) / day_ms ≡ d
day_at d h lt = omega arith

pub hour_at : (d h : ℕ) → h < 24 → (d * day_ms + h * hour_ms) / hour_ms % 24 ≡ h
hour_at d h lt = omega arith

abbrev pub utc : Zone
utc = record {
  day = λ t. t / day_ms;
  hour = λ t. t / hour_ms % 24;
  at = λ d h. d * day_ms + h * hour_ms;
  hour-lt = λ t. omega arith;
  day-at = day_at;
  hour-at = hour_at;
  at-le = at_le;
  le-at = le_at;
}
