-- ===== src/Safety/StateMachine.antt =====
-- control-plane/safety/src/state-machine.ts
pub mod Laws
use linkedin_outreach_agent.Prelude.{Bool, true, false, Option, none, some}
use linkedin_outreach_agent.Domain.{
  AccountState, cold, warming, active, throttled, cooldown, restricted, Transition,
}

pub data StateEvent : Type 0 where
  soft_signal repeated_soft_signal recovered hard_signal : StateEvent

-- The texts of the table.
pub data StepReason : Type 0 where
  legacy_cold legacy_warming hard_signal_restricting soft_signal_throttling health_recovered
        repeated_cooling_down recovered_after_cooldown :
      StepReason

pub record StateStep : Type 0 where
  pub to_state : AccountState
  pub reason : StepReason

-- `TABLE[fromState][event]`
unfoldable pub table : AccountState → StateEvent → Option StateStep
table cold recovered = some (record { to_state = active; reason = legacy_cold })
table warming recovered = some (record { to_state = active; reason = legacy_warming })
table warming hard_signal =
    some (record { to_state = restricted; reason = hard_signal_restricting })
table active soft_signal = some (record { to_state = throttled; reason = soft_signal_throttling })
table active hard_signal = some (record { to_state = restricted; reason = hard_signal_restricting })
table throttled recovered = some (record { to_state = active; reason = health_recovered })
table throttled repeated_soft_signal =
    some (record { to_state = cooldown; reason = repeated_cooling_down })
table throttled hard_signal =
    some (record { to_state = restricted; reason = hard_signal_restricting })
table cooldown recovered = some (record { to_state = active; reason = recovered_after_cooldown })
table _ _ = none

-- `Object.keys(TABLE[state]).length === 0`: a state's row of the table has no entry.
no_entry : Option StateStep → Bool → Bool
no_entry none rest = rest
no_entry (some s) rest = false

unfoldable pub is_terminal : AccountState → Bool
unfolding table no_entry
is_terminal s = no_entry (table s soft_signal) (
    no_entry (table s repeated_soft_signal)
      (no_entry (table s recovered) (no_entry (table s hard_signal) true)))

unfoldable pub transition : AccountState → StateEvent → Option (Transition StepReason)
unfolding table
transition from event = elim (table from event) [
  | none ↦ none
  | some step ↦ some (record { from_state = from; to_state = step.to_state; reason = step.reason })
]
