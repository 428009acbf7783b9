-- ===== src/Dispatch/Advance.antt =====
-- The cursor rule of runtime/src/dispatch/advance.ts.
use linkedin_outreach_agent.Prelude.{
  ℕ, zero, suc, ◌+◌, ◌*◌, Option, none, some, List, ltb, leb, if◌then◌else◌, includes, get_elem?,
}
use linkedin_outreach_agent.Domain.{Time, AccountSchedule, CampaignStepRow, ProgressState}
use linkedin_outreach_agent.Calendar.{Zone, weekday}
use linkedin_outreach_agent.Store.Sequence.{Patch}

abbrev pub day_seconds : ℕ
day_seconds = 86_400

module _ (z : Zone) where
  open z use {day, at}

  -- The loop, with `rounds` = 8 - i, from the candidate on day `d`.
  unfoldable pub next_active_day : ℕ → List ℕ → ℕ → ℕ → Time
  next_active_day start days zero d = at d start
  next_active_day start days (suc rounds) d =
      let rest = next_active_day start days rounds (d + 1) in
      if includes days (weekday (day (at d start))) then at d start else rest

  -- `dueAfterDelay`
  unfoldable pub due_after_delay : Time → ℕ → AccountSchedule → Option Time
  unfolding next_active_day
  due_after_delay handled_at delay_seconds s =
      if leb delay_seconds 0
      then none
      else if ltb delay_seconds day_seconds
      then some (handled_at + delay_seconds * 1000)
      else some (next_active_day s.hours_start s.days 8 (day (handled_at + delay_seconds * 1000)))

  -- The cursor after the step `handled`, when `next` is the step behind it.
  unfoldable pub advance_onto : Option CampaignStepRow → ℕ → Time → AccountSchedule → Patch
  unfolding due_after_delay
  advance_onto none handled now s = record {
    current_step = some (handled + 1);
    state = some ProgressState.completed;
    next_step_at = some none;
    last_step_at = some (some now);
    error_message = some none;
  }
  advance_onto (some next) handled now s = record {
    current_step = some (handled + 1);
    state = some ProgressState.in_progress;
    next_step_at = some (due_after_delay now next.delay_seconds s);
    last_step_at = some (some now);
    error_message = some none;
  }

  -- `advanceAfterStep`
  unfoldable pub advance_after_step : List CampaignStepRow → ℕ → Time → AccountSchedule → Patch
  unfolding advance_onto
  advance_after_step steps handled now s =
      advance_onto (get_elem? steps (handled + 1)) handled now s
