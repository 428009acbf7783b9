-- ===== src/Counters/Live.antt =====
-- The other counters of runtime/src/adapters/safety-state.ts: the daily usage, the outstanding
-- invitations, the action clock and the pauses of the operator. The start of the local day is an
-- argument, `day_start`.
use linkedin_outreach_agent.Prelude.{
  ℕ, ◌+◌, ◌-◌, Bool, true, false, ◌&&◌, Option, none, some, List, [], ◌∷◌, ◌++◌, if◌then◌else◌,
  ◌==◌, ltb, leb, length, get_or, keep_if,
}
use linkedin_outreach_agent.Domain.{
  UserId, Time, CapTable, ActionRow, ActionType, same_type, is_success, EventRow, EventKind,
  account_paused, account_resumed,
}
use linkedin_outreach_agent.Store.{Store}
use linkedin_outreach_agent.Store.Tables.{list_actions_by_account}
use linkedin_outreach_agent.Store.Sequence.{awaiting_connection_enrollments, list_events_by_account}
use linkedin_outreach_agent.Counters.{stamp}

-- `Map.set` on a map whose entries are a function from accounts.
abbrev pub put_entry {ℓ} : {A : Type ℓ} → UserId → A → (UserId → Option A) → UserId → Option A
put_entry account a w id = if id == account then some a else w id

-- `StoreBackedDailyUsage.stamps`
abbrev pub ByType : Type 0
ByType = ActionType → Option (List Time)

abbrev pub DailyUsage : Type 0
DailyUsage = UserId → Option ByType

abbrev pub no_types : ByType
no_types type = none

abbrev pub put_type : ActionType → List Time → ByType → ByType
put_type type stamps b k = if same_type k type then some stamps else b k

-- The loop over the rows that `rehydrate` makes for an account.
unfoldable pub by_type_of : Time → List ActionRow → ByType → ByType
by_type_of day_start [] b = b
by_type_of day_start (r ∷ rows) b = by_type_of day_start rows (
    if is_success r.result && leb day_start (stamp r)
    then put_type r.type (get_or (b r.type) [] ++ stamp r ∷ []) b
    else b)

-- `StoreBackedDailyUsage.rehydrate`
unfoldable pub rehydrate_daily : Time → Store → List UserId → DailyUsage → DailyUsage
unfolding by_type_of
rehydrate_daily day_start s [] w = w
rehydrate_daily day_start s (account ∷ rest) w =
    rehydrate_daily day_start s rest
      (put_entry account (by_type_of day_start (list_actions_by_account s account) no_types) w)

-- `StoreBackedDailyUsage.record`
unfoldable pub record_daily : UserId → ActionType → Time → DailyUsage → DailyUsage
record_daily account type at w =
    let b = get_or (w account) no_types in
    put_entry account (put_type type (get_or (b type) [] ++ at ∷ []) b) w

unfoldable pub of_today : Time → ByType → ByType
of_today day_start b k = elim (b k) [
  | none ↦ none
  | some stamps ↦ some (keep_if (leb day_start) stamps)
]

-- `StoreBackedDailyUsage.usedToday`, with the map that it leaves.
unfoldable pub used_since : Time → UserId → DailyUsage → CapTable × DailyUsage
unfolding of_today
used_since day_start account w = elim (w account) [
  | none ↦ ((λ k. some 0), w)
  | some b ↦ (
    (λ k. some (length (get_or (of_today day_start b k) []))),
    put_entry account (of_today day_start b) w,
  )
]

-- `StoreBackedOutstandingInvites.pending`
abbrev pub Outstanding : Type 0
Outstanding = UserId → Option ℕ

-- `outstandingInvites`
unfoldable pub outstanding_invites : UserId → Outstanding → ℕ
outstanding_invites account w = get_or (w account) 0

unfoldable pub count_parked : Store → UserId → ℕ
count_parked s account =
    length (keep_if (λ p. p.account_id == account) (awaiting_connection_enrollments s))

-- `StoreBackedOutstandingInvites.rehydrate`
unfoldable pub rehydrate_outstanding : Store → List UserId → Outstanding → Outstanding
unfolding count_parked
rehydrate_outstanding s [] w = w
rehydrate_outstanding s (account ∷ rest) w =
    rehydrate_outstanding s rest (put_entry account (count_parked s account) w)

-- `StoreBackedOutstandingInvites.record`
unfoldable pub record_invite : UserId → Outstanding → Outstanding
record_invite account w = put_entry account (get_or (w account) 0 + 1) w

-- `StoreBackedOutstandingInvites.release`
unfoldable pub release_invite : UserId → Outstanding → Outstanding
release_invite account w = put_entry account (get_or (w account) 0 - 1) w

-- `StoreBackedActionPacer.last`
abbrev pub LastAction : Type 0
LastAction = UserId → Option Time

-- `StoreBackedActionPacer.record`
unfoldable pub record_pace : UserId → Time → LastAction → LastAction
record_pace account at w = elim (w account) [
  | none ↦ put_entry account at w
  | some prev ↦ if ltb prev at then put_entry account at w else w
]

unfoldable pub latest : Option Time → Time → Option Time
latest none t = some t
latest (some max) t = if ltb max t then some t else some max

-- The latest stamp of rows.
unfoldable pub latest_stamp : List ActionRow → Option Time → Option Time
unfolding latest
latest_stamp [] max = max
latest_stamp (r ∷ rows) max = latest_stamp rows (latest max (stamp r))

unfoldable pub put_latest : UserId → Option Time → LastAction → LastAction
put_latest account none w = w
put_latest account (some t) w = put_entry account t w

-- `StoreBackedActionPacer.rehydrate`
unfoldable pub rehydrate_pace : Store → List UserId → LastAction → LastAction
unfolding latest_stamp put_latest
rehydrate_pace s [] w = w
rehydrate_pace s (account ∷ rest) w =
    rehydrate_pace s rest
      (put_latest account (latest_stamp (list_actions_by_account s account) none) w)

-- `PauseRegistry.paused`: a set of accounts.
abbrev pub Paused : Type 0
Paused = UserId → Bool

-- `pause`, `resume`
unfoldable pub set_paused : UserId → Bool → Paused → Paused
set_paused account b w id = if id == account then b else w id

unfoldable pub is_pause : EventKind → Bool
is_pause account_paused = true
is_pause _ = false

unfoldable pub is_resume : EventKind → Bool
is_resume account_resumed = true
is_resume _ = false

-- `maxTs`
unfoldable pub max_ts : (EventKind → Bool) → List EventRow → Option Time → Option Time
unfolding latest
max_ts p [] max = max
max_ts p (e ∷ events) max = max_ts p events (if p e.kind then latest max e.ts else max)

unfoldable pub is_newer : Option Time → Option Time → Bool
is_newer none resumed = false
is_newer (some p) none = true
is_newer (some p) (some r) = ltb r p

-- `PauseRegistry.rehydrate`
unfoldable pub rehydrate_paused : Store → List UserId → Paused → Paused
unfolding max_ts is_newer is_pause is_resume set_paused
rehydrate_paused s [] w = w
rehydrate_paused s (account ∷ rest) w =
    let events = list_events_by_account s account in
    rehydrate_paused s rest
      (set_paused account (is_newer (max_ts is_pause events none) (max_ts is_resume events none)) w)
