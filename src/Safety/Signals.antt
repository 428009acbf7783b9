-- ===== src/Safety/Signals.antt =====
-- `onSignal`, `throttleOrCooldown` and `recover` of safety-gate.ts. The streaks of soft signals
-- are the gate's private map; a call returns the transition and the new streaks.
pub mod Laws
use linkedin_outreach_agent.Prelude.{
  ℕ, ◌+◌, Bool, true, false, ◌&&◌, Option, none, some, ltb, leb, ◌==◌, if◌then◌else◌, get_or,
}
use linkedin_outreach_agent.Domain.{
  UserId, AccountState, cold, warming, active, throttled, cooldown, restricted, Account, Signal,
  SignalKind, velocity, low_acceptance, challenge, ban_banner, geo_drift, Transition,
}
use linkedin_outreach_agent.Safety.Config.{SafetyConfig}
use linkedin_outreach_agent.Safety.StateMachine.{
  StateEvent, soft_signal, repeated_soft_signal, recovered, hard_signal, StepReason, is_terminal,
  transition,
}

pub data SoftReason : Type 0 where
  challenge_issued : SoftReason
  below_floor : ℕ → ℕ → SoftReason
  soft_kind : SignalKind → SoftReason

pub data SignalReason : Type 0 where
  by_table : StepReason → SignalReason
  by_soft : StepReason → SoftReason → SignalReason
  ban_on_ineligible geo_drift_detected : SignalReason
  awaiting_escalation : ℕ → ℕ → SoftReason → SignalReason
  no_transition : AccountState → SoftReason → SignalReason

abbrev pub Streaks : Type 0
Streaks = UserId → Option ℕ

unfoldable pub set_streak : Streaks → UserId → ℕ → Streaks
set_streak st id n k = if k == id then some n else st k

unfoldable pub delete_streak : Streaks → UserId → Streaks
delete_streak st id k = if k == id then none else st k

unfoldable pub stay : AccountState → SignalReason → Transition SignalReason
stay s r = record { from_state = s; to_state = s; reason = r }

unfoldable pub with_reason :
    Transition StepReason → (StepReason → SignalReason) → Transition SignalReason
with_reason t f = record { from_state = t.from_state; to_state = t.to_state; reason = f t.reason }

-- `applyEvent`
unfoldable pub apply_event : AccountState → StateEvent → Option (Transition StepReason)
apply_event s e = if is_terminal s then none else transition s e

-- The escalation of a throttled account, and what is left when the table has no such edge.
unfoldable pub escalate :
    SafetyConfig
    → Streaks
    → UserId
    → AccountState
    → ℕ
    → SoftReason
    → Transition SignalReason × Streaks
unfolding stay with_reason delete_streak
escalate cfg st id s streak reason =
    let waiting : Transition SignalReason × Streaks =
      (stay s (awaiting_escalation streak cfg.soft_signal_cooldown_threshold reason), st) in
    if leb cfg.soft_signal_cooldown_threshold streak
    then (elim (transition s repeated_soft_signal) [
      | none ↦ waiting
      | some t ↦ (with_reason t (λ r. by_soft r reason), delete_streak st id)
    ])
    else waiting

-- The branches of `throttleOrCooldown` on the state, the streak already counted.
unfoldable pub on_soft :
    SafetyConfig
    → Streaks
    → UserId
    → AccountState
    → ℕ
    → SoftReason
    → Transition SignalReason × Streaks
unfolding stay with_reason
on_soft cfg st id active streak reason = elim (transition active soft_signal) [
  | none ↦ (stay active (no_transition active reason), st)
  | some t ↦ (with_reason t (λ r. by_soft r reason), st)
]
on_soft cfg st id throttled streak reason = escalate cfg st id throttled streak reason
on_soft cfg st id s streak reason = (stay s (no_transition s reason), st)

unfoldable pub throttle_or_cooldown :
    SafetyConfig → Streaks → Account → SoftReason → Transition SignalReason × Streaks
unfolding set_streak
throttle_or_cooldown cfg st acct reason =
    let streak = get_or (st acct.id) 0 + 1 in
    on_soft cfg (set_streak st acct.id streak) acct.id acct.state streak reason

abbrev is_low_acceptance : SignalKind → Bool
is_low_acceptance low_acceptance = true
is_low_acceptance _ = false

-- The reason that velocity and low_acceptance give.
unfoldable pub soft_reason : SafetyConfig → Account → SignalKind → SoftReason
soft_reason cfg acct kind =
    if is_low_acceptance kind && ltb acct.acceptance_rate cfg.acceptance_rate_floor
    then below_floor acct.acceptance_rate cfg.acceptance_rate_floor
    else soft_kind kind

unfoldable pub on_ban : Streaks → Account → Transition SignalReason × Streaks
unfolding stay with_reason delete_streak
on_ban st acct = elim (apply_event acct.state hard_signal) [
  | none ↦ (stay acct.state ban_on_ineligible, delete_streak st acct.id)
  | some t ↦ (with_reason t by_table, delete_streak st acct.id)
]

unfoldable pub on_kind :
    SafetyConfig → Streaks → Account → SignalKind → Transition SignalReason × Streaks
unfolding stay
on_kind cfg st acct ban_banner = on_ban st acct
on_kind cfg st acct challenge = throttle_or_cooldown cfg st acct challenge_issued
on_kind cfg st acct geo_drift = (stay acct.state geo_drift_detected, st)
on_kind cfg st acct velocity = throttle_or_cooldown cfg st acct (soft_reason cfg acct velocity)
on_kind cfg st acct low_acceptance =
    throttle_or_cooldown cfg st acct (soft_reason cfg acct low_acceptance)

-- `onSignal`
unfoldable pub on_signal :
    SafetyConfig → Streaks → Account → Signal → Transition SignalReason × Streaks
unfolding on_kind
on_signal cfg st acct sig = on_kind cfg st acct sig.kind

abbrev can_recover : AccountState → Bool
can_recover throttled = true
can_recover cooldown = true
can_recover _ = false

-- `recover`
unfoldable pub recover : Streaks → Account → Option (Transition StepReason) × Streaks
unfolding delete_streak
recover st acct =
    if can_recover acct.state
    then (transition acct.state recovered, delete_streak st acct.id)
    else (none, st)
