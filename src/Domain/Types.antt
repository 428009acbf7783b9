-- ===== src/Domain/Types.antt =====
-- The domain types of shared/src/types.ts. Ids are opaque keys that the code compares for
-- equality: numbers. Times are milliseconds since the epoch. Rates are basis points.
use linkedin_outreach_agent.Domain.Enums.{ActionType, AccountState, SignalKind}
use linkedin_outreach_agent.Prelude.{String, ℕ, Option, some, List, [], ◌∷◌, Bool}

abbrev pub UserId : Type 0
UserId = ℕ

abbrev pub Time : Type 0
Time = ℕ

abbrev pub hour_ms : ℕ
hour_ms = 3_600_000

abbrev pub day_ms : ℕ
day_ms = 86_400_000

-- A `Record<ActionType, number>` of caps or of usage. One that was read from a JSON column may
-- lack an entry.
abbrev pub CapTable : Type 0
CapTable = ActionType → Option ℕ

pub record AccountSchedule : Type 0 where
  pub hours_start : ℕ
  pub hours_end : ℕ
  pub days : List ℕ

abbrev pub default_schedule : AccountSchedule
default_schedule = record { hours_start = 8; hours_end = 20; days = 0 ∷ 1 ∷ 2 ∷ 3 ∷ 4 ∷ 5 ∷ 6 ∷ [] }

pub record AccountLimits : Type 0 where
  pub caps : CapTable
  pub enabled : ActionType → Option Bool
  pub schedule : Option AccountSchedule
  pub schedules : ActionType → Option AccountSchedule

unfoldable pub default_caps : CapTable
default_caps ActionType.connect = some 20
default_caps ActionType.message = some 20
default_caps ActionType.view_profile = some 60
default_caps ActionType.follow = some 15
default_caps ActionType.withdraw_invite = some 10
default_caps ActionType.react = some 30

pub record DailyBudget : Type 0 where
  pub date : ℕ
  pub caps : CapTable
  pub used : CapTable

pub record Account : Type 0 where
  pub id : UserId
  pub state : AccountState
  pub acceptance_rate : ℕ
  pub budget : DailyBudget
  pub limits : Option AccountLimits

-- The reasons of a deny, one constructor for each text of the code.
pub data DenyReason : Type 0 where
  paused_by_operator account_restricted in_cooldown : DenyReason
  disabled_by_operator : ActionType → DenyReason
  not_permitted : ActionType → AccountState → DenyReason
  too_many_outstanding : ℕ → ℕ → DenyReason

pub data Decision : Type 0 where
  allow : Decision
  defer : Time → Decision
  deny : DenyReason → Decision

pub record Signal : Type 0 where
  pub kind : SignalKind
  pub observed_at : Time
  pub magnitude : Option ℕ

pub record Transition {ℓ} (R : Type ℓ) : Type ℓ where
  pub from_state : AccountState
  pub to_state : AccountState
  pub reason : R

-- A decision that is not `allow`: what `SafetyDeferredError` carries.
pub data Refusal : Type 0 where
  later : Time → Refusal
  never : DenyReason → Refusal

pub data Failure : Type 0 where
  safety_deferred : Refusal → Failure
  not_found : UserId → Failure
  already_decided : UserId → Failure
  other_error : String → Failure
