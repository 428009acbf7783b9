-- ===== src/Examples/Safety.antt =====
-- The safety gate's theorems at concrete inputs.
use linkedin_outreach_agent.Prelude.{
  ◌+◌, ◌*◌, ◌≤◌, ◌<◌, ◌≡◌, ◌≢◌, ◌↔◌, ◌⊎◌, refl, none, some, [], ◌∷◌, arith, includes,
}
use linkedin_outreach_agent.Domain.{
  UserId, Time, day_ms, hour_ms, ActionType, AccountState, active, throttled, cooldown, Account,
  AccountSchedule, allow, Signal, challenge, ban_banner, default_caps, Transition,
}
use linkedin_outreach_agent.Calendar.Fixed.{utc}
use linkedin_outreach_agent.Safety.Config.{default_config}
use linkedin_outreach_agent.Safety.StateMachine.{StateEvent, StepReason, transition}
use linkedin_outreach_agent.Safety.StateMachine.Laws.{Edge, LegacyEdge, transition-Edge}
use linkedin_outreach_agent.Safety.Schedule.{schedule_defer}
use linkedin_outreach_agent.Safety.Schedule.Laws.{schedule_defer-next}
use linkedin_outreach_agent.Safety.Gate.{Ports, Gate, can_act}
use linkedin_outreach_agent.Safety.Gate.Laws.{MayAct, can_act-MayAct}
use linkedin_outreach_agent.Safety.Gate.Caps.{in_state}
use linkedin_outreach_agent.Safety.Signals.{Streaks, on_signal, recover}
use linkedin_outreach_agent.Safety.Signals.Laws.{
  signal_target, on_signal_target, next_account, ban_in_cooldown,
}

-- 1970-01-05 was a Monday.
abbrev pub monday_noon : Time
monday_noon = 4 * day_ms + 12 * hour_ms

abbrev monday_night : Time
monday_night = 4 * day_ms + 22 * hour_ms

abbrev pub no_ports : Ports
no_ports = record {
  weekly_invites = none;
  daily_usage = none;
  outstanding_invites = none;
  recent_actions = none;
  pause = none;
}

abbrev pub gate : Gate
gate = record { cfg = default_config; ports = no_ports }

abbrev pub anna : Account
anna = record {
  id = 7;
  state = active;
  acceptance_rate = 5000;
  budget = record { date = 4; caps = default_caps; used = λ k. none };
  limits = none;
}

abbrev uncapped : Account
uncapped = record anna {
  limits =
      some
        (record { caps = λ k. none; enabled = λ k. none; schedule = none; schedules = λ k. none });
}

abbrev mornings : AccountSchedule
mornings = record { hours_start = 9; hours_end = 12; days = 1 ∷ 3 ∷ [] }

abbrev no_streaks : Streaks
no_streaks id = none

abbrev soft : Signal
soft = record { kind = challenge; observed_at = 0; magnitude = none }

abbrev ban : Signal
ban = record { kind = ban_banner; observed_at = 0; magnitude = none }

can_act-MayAct_example :
    (can_act utc gate monday_noon 0 anna ActionType.connect ≡ allow)
    ↔ MayAct utc gate monday_noon 0 anna ActionType.connect
can_act-MayAct_example = can_act-MayAct utc gate monday_noon 0 anna ActionType.connect

schedule_defer-next_example :
    (monday_night < 6 * day_ms + 9 * hour_ms)
    × (schedule_defer utc (6 * day_ms + 9 * hour_ms) mornings ≡ none)
    × ((u : Time)
        → monday_night ≤ u
        → u < 6 * day_ms + 9 * hour_ms
        → schedule_defer utc u mornings ≢ none)
unfolding schedule_defer includes
schedule_defer-next_example =
    schedule_defer-next utc monday_night (6 * day_ms + 9 * hour_ms) mornings 3 (omega arith)
      (omega arith) refl refl

transition-Edge_example :
    ((t : Transition StepReason)
      → transition throttled StateEvent.hard_signal ≡ some t
      → (t.from_state ≡ throttled)
        × (Edge throttled StateEvent.hard_signal t.to_state
            ⊎ LegacyEdge throttled StateEvent.hard_signal t.to_state))
    × ((u : AccountState)
        → Edge throttled StateEvent.hard_signal u ⊎ LegacyEdge throttled StateEvent.hard_signal u
        → (t : Transition StepReason) × (transition throttled StateEvent.hard_signal ≡ some t)
          × (t.to_state ≡ u))
transition-Edge_example = transition-Edge throttled StateEvent.hard_signal

on_signal_target_example :
    ((on_signal default_config no_streaks anna ban).0.from_state ≡ active)
    × ((on_signal default_config no_streaks anna ban).0.to_state
        ≡ signal_target default_config active 1 ban_banner)
on_signal_target_example = on_signal_target default_config no_streaks anna ban

ban_in_cooldown_example :
    ((next_account default_config no_streaks (in_state cooldown anna) ban).state ≡ cooldown)
    × ((on_signal default_config no_streaks (in_state cooldown anna) ban).1 anna.id ≡ none)
    × ((other : UserId)
        → other ≢ anna.id
        → (on_signal default_config no_streaks (in_state cooldown anna) ban).1 other
          ≡ no_streaks other)
    × ((t : Transition StepReason) × ((recover
            (on_signal default_config no_streaks (in_state cooldown anna) ban).1
            (next_account default_config no_streaks (in_state cooldown anna) ban)).0
          ≡ some t)
        × (t.to_state ≡ active))
ban_in_cooldown_example =
    ban_in_cooldown default_config no_streaks (in_state cooldown anna) ban refl refl
