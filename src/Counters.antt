-- ===== src/Counters.antt =====
-- `StoreBackedWeeklyInviteCounter` of runtime/src/adapters/safety-state.ts: the stamps of the
-- invitations per account, rebuilt from the store's action rows and kept up to date. The map's
-- entries are a function from accounts; the start of the window is compared by adding its length
-- to the stamp.
pub mod Live
pub mod Pauses
pub mod Reads
pub mod Restart
use linkedin_outreach_agent.Prelude.{
  ℕ, Bool, ◌+◌, ◌&&◌, Option, none, some, List, [], ◌∷◌, ◌++◌, map, if◌then◌else◌, ◌==◌, ltb,
  length, get_or, keep_if,
}
use linkedin_outreach_agent.Domain.{
  UserId, Time, day_ms, ActionRow, ActionType, same_type, is_success,
}
use linkedin_outreach_agent.Store.{Store}
use linkedin_outreach_agent.Store.Tables.{list_actions_by_account}

abbrev pub seven_days_ms : ℕ
seven_days_ms = 604_800_000

-- The field `connects`.
abbrev pub Connects : Type 0
Connects = UserId → Option (List Time)

-- The constructor: an empty map.
abbrev pub no_connects : Connects
no_connects id = none

-- `Map.set`
abbrev pub put : UserId → List Time → Connects → Connects
put account stamps w id = if id == account then some stamps else w id

unfoldable pub went_out : ActionRow → Bool
went_out r = same_type r.type ActionType.connect && is_success r.result

unfoldable pub stamp : ActionRow → Time
stamp r = get_or r.executed_at r.scheduled_at

unfoldable pub stamps_of : Store → UserId → List Time
stamps_of s account = map stamp (keep_if went_out (list_actions_by_account s account))

-- `rehydrate`
unfoldable pub rehydrate : Store → List UserId → Connects → Connects
rehydrate s [] w = w
rehydrate s (account ∷ rest) w = rehydrate s rest (put account (stamps_of s account) w)

-- `record`
unfoldable pub record_connect : UserId → Time → Connects → Connects
record_connect account at w = put account (get_or (w account) [] ++ at ∷ []) w

abbrev pub in_recent_week : Time → Time → Bool
in_recent_week now t = ltb now (t + seven_days_ms)

-- `invitesLast7d`, with the map that it leaves. The code writes the map only when stamps were
-- pruned; the write of an unchanged list is none.
unfoldable pub count_invites : Time → UserId → Connects → ℕ × Connects
count_invites now account w = elim (w account) [
  | none ↦ (0, w)
  | some list ↦
      let fresh = keep_if (in_recent_week now) list in
      (length fresh, if length fresh == length list then w else put account fresh w)
]
