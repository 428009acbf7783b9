-- ===== src/Scheduler/Window.antt =====
-- The working window of control-plane/scheduler/src/working-hours.ts. The zone is the clock of the
-- account's time zone: what `localParts` reads off `Intl`.
use linkedin_outreach_agent.Prelude.{
  ℕ, zero, suc, ◌+◌, ◌-◌, ◌*◌, Bool, false, ◌&&◌, List, ltb, leb, if◌then◌else◌, includes,
}
use linkedin_outreach_agent.Domain.{Time, hour_ms}
use linkedin_outreach_agent.Calendar.{Zone, weekday}

pub record WorkingHours : Type 0 where
  pub start_hour : ℕ
  pub end_hour : ℕ
  pub working_days : List ℕ

module _ (z : Zone) where
  open z use {day, hour}

  unfoldable pub is_working_day : Time → WorkingHours → Bool
  is_working_day at w = includes w.working_days (weekday (day at))

  -- `isWithinWorkingHours`
  unfoldable pub is_within_working_hours : Time → WorkingHours → Bool
  unfolding is_working_day
  is_within_working_hours at w =
      if is_working_day at w then leb w.start_hour (hour at) && ltb (hour at) w.end_hour else false

  -- The cursor of the next round.
  unfoldable pub advance_cursor : Time → WorkingHours → Time
  unfolding is_working_day
  advance_cursor cursor w =
      if is_working_day cursor w && ltb (hour cursor) w.start_hour
      then cursor + (w.start_hour - hour cursor) * hour_ms
      else cursor + hour_ms

  -- The loop, with the rounds that are left.
  unfoldable pub search_window : ℕ → Time → WorkingHours → Time
  unfolding is_within_working_hours advance_cursor
  search_window zero cursor w = cursor
  search_window (suc rounds) cursor w =
      let next = search_window rounds (advance_cursor cursor w) w in
      if is_within_working_hours cursor w then cursor else next

  -- `nextWorkingInstant`
  unfoldable pub next_working_instant : Time → WorkingHours → Time
  unfolding search_window
  next_working_instant from w = search_window 336 from w
