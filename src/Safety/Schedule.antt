-- ===== src/Safety/Schedule.antt =====
-- The working schedule of safety-gate.ts: which schedule applies, and until when an action outside
-- of it is deferred. The zone is the host's clock.
pub mod Laws
use linkedin_outreach_agent.Prelude.{
  ℕ, zero, suc, ◌+◌, ◌*◌, ◌/◌, Bool, not, ◌&&◌, ◌||◌, Option, none, some, ltb, leb, if◌then◌else◌,
  includes, get_or, List,
}
use linkedin_outreach_agent.Domain.{
  Time, day_ms, ActionType, AccountSchedule, AccountLimits, default_schedule,
}
use linkedin_outreach_agent.Calendar.{Zone, weekday}
use linkedin_outreach_agent.Safety.Config.{SafetyConfig}

-- `nextDay`: the start of the next UTC day.
unfoldable pub next_day : Time → Time
next_day d = (d / day_ms + 1) * day_ms

-- `isoDate`, as the number of the UTC day.
unfoldable pub iso_date : Time → ℕ
iso_date d = d / day_ms

schedule_of : Option AccountLimits → Option AccountSchedule
schedule_of none = none
schedule_of (some l) = l.schedule

schedule_for : Option AccountLimits → Option ActionType → Option AccountSchedule
schedule_for none a = none
schedule_for (some l) none = none
schedule_for (some l) (some a) = l.schedules a

unfoldable pub effective_schedule :
    Option AccountLimits → SafetyConfig → Option ActionType → AccountSchedule
unfolding schedule_of schedule_for
effective_schedule limits cfg action = get_or (schedule_for limits action) (
    get_or (schedule_of limits) (record {
      hours_start = cfg.active_hours_start;
      hours_end = cfg.active_hours_end;
      days = default_schedule.days;
    }))

module _ (z : Zone) where
  open z use {day, hour, at}

  -- `activeHoursDefer`
  unfoldable pub active_hours_defer : Time → SafetyConfig → Option Time
  active_hours_defer now cfg =
      if leb cfg.active_hours_end cfg.active_hours_start
      then none
      else if leb cfg.active_hours_start (hour now) && ltb (hour now) cfg.active_hours_end
      then none
      else if leb cfg.active_hours_end (hour now)
      then some (at (day now + 1) cfg.active_hours_start)
      else some (at (day now) cfg.active_hours_start)

  unfoldable pub hour_gate_on : AccountSchedule → Bool
  hour_gate_on s = ltb s.hours_start s.hours_end

  unfoldable pub start_hour : AccountSchedule → ℕ
  unfolding hour_gate_on
  start_hour s = if hour_gate_on s then s.hours_start else 0

  -- Inside the window on an active day.
  unfoldable pub in_window : Time → AccountSchedule → Bool
  unfolding hour_gate_on
  in_window now s =
      includes s.days (weekday (day now))
      && (not (hour_gate_on s) || (leb s.hours_start (hour now) && ltb (hour now) s.hours_end))

  -- The loop over `i`, with `rounds` = 8 - i: the first candidate in the future on an active day.
  unfoldable pub walk_forward : Time → ℕ → List ℕ → ℕ → ℕ → Time
  walk_forward now start days zero d = at (day now + 7) start
  walk_forward now start days (suc rounds) d =
      let rest = walk_forward now start days rounds (d + 1) in
      let cand = at d start in
      if ltb now cand && includes days (weekday (day cand)) then cand else rest

  -- `scheduleDefer`
  unfoldable pub schedule_defer : Time → AccountSchedule → Option Time
  unfolding in_window start_hour walk_forward
  schedule_defer now s =
      if in_window now s then none else some (walk_forward now (start_hour s) s.days 8 (day now))
