-- ===== src/Counters/Restart.antt =====
-- A restart of the weekly counter of runtime/src/adapters/safety-state.ts: the counter that is
-- rebuilt from the store counts what was counted before.
use linkedin_outreach_agent.Prelude.{
  ℕ, true, false, ◌+◌, ◌≡◌, refl, sym, ◌∙◌, ap, ◌&&◌, none, some, List, [], ◌∷◌, ◌++◌, map,
  if◌then◌else◌, ◌==◌, ==_iff, length, keep_if, includes, Option-cases, arith, find_row,
  find_row-key, set_row, subst, Bool-cases, inl, inr,
}
use linkedin_outreach_agent.Domain.{UserId, Time, ActionRow, ActionType, ActionResult, is_success}
use linkedin_outreach_agent.Store.{Store}
use linkedin_outreach_agent.Store.Tables.{list_actions_by_account, find_action, set_result}
use linkedin_outreach_agent.Counters.{
  Connects, put, went_out, stamp, stamps_of, rehydrate, record_connect, in_recent_week,
  count_invites,
}
use linkedin_outreach_agent.Counters.Reads.{fresh_count, count_invites-fresh_count}

-- What a row adds to an account's count.
unfoldable pub weight : Time → UserId → ActionRow → ℕ
weight now account r =
    if r.account_id == account && went_out r && in_recent_week now (stamp r) then 1 else 0

unfoldable pub total : Time → UserId → List ActionRow → ℕ
total now account [] = 0
total now account (r ∷ rs) = weight now account r + total now account rs

count-total :
    (now : Time) (account : UserId) (rs : List ActionRow)
    → length (
        keep_if
          (in_recent_week now)
          (map stamp (keep_if went_out (keep_if (λ r. r.account_id == account) rs))))
      ≡ total now account rs
unfolding keep_if total weight
count-total now account [] = refl
count-total now account (r ∷ rs) = ground (arith, count-total now account rs)

pub total-set_row_new :
    (now : Time) (account : UserId) (new : ActionRow) (rs : List ActionRow)
    → find_row (λ r. r.id) new.id rs ≡ none
    → total now account (set_row (λ r. r.id) new rs) ≡ total now account rs + weight now account new
unfolding find_row set_row total
total-set_row_new now account new [] h = omega arith
total-set_row_new now account new (r ∷ rs) h = ground (arith, total-set_row_new now account new rs)

pub total-set_row :
    (now : Time) (account : UserId) (old new : ActionRow) (rs : List ActionRow)
    → find_row (λ r. r.id) new.id rs ≡ some old
    → total now account (set_row (λ r. r.id) new rs) + weight now account old
      ≡ total now account rs + weight now account new
unfolding find_row set_row total
total-set_row now account old new [] h = absurd cc
total-set_row now account old new (r ∷ rs) h = ground (arith, total-set_row now account old new rs)

module _ (s : Store) (w : Connects) where
  same_entry :
      (i account : UserId)
      → account ≡ i
      → put i (stamps_of s i) w account ≡ some (stamps_of s account)
  same_entry i account e = rw ((==_iff account i).1 e) (ap (λ x. some (stamps_of s x)) (sym e))

rehydrate-kept :
    (s : Store) (ids : List UserId) (w : Connects) (account : UserId)
    → w account ≡ some (stamps_of s account)
    → rehydrate s ids w account ≡ some (stamps_of s account)
unfolding rehydrate
rehydrate-kept s [] w account h = h
rehydrate-kept s (i ∷ ids) w account h =
    rehydrate-kept s ids (put i (stamps_of s i) w) account (elim (Bool-cases (account == i)) [
      | inl same ↦ same_entry s w i account ((==_iff account i).0 same)
      | inr differ ↦ rw differ h
    ])

rehydrate_lem :
    (s : Store) (ids : List UserId) (w : Connects) (account : UserId)
    → includes ids account ≡ true
    → rehydrate s ids w account ≡ some (stamps_of s account)
unfolding rehydrate includes
rehydrate_lem s [] w account h = absurd cc
rehydrate_lem s (i ∷ ids) w account h = elim (Bool-cases (i == account)) [
  | inl e ↦
      rehydrate-kept s ids (put i (stamps_of s i) w) account
        (same_entry s w i account (sym ((==_iff i account).0 e)))
  | inr e ↦ rehydrate_lem s ids (put i (stamps_of s i) w) account (ground (arith, h, e))
]

pub rehydrated_count :
    (now : Time) (s : Store) (ids : List UserId) (w : Connects) (account : UserId)
    → includes ids account ≡ true
    → fresh_count now (rehydrate s ids w account) ≡ total now account s.actions
unfolding fresh_count stamps_of list_actions_by_account
rehydrated_count now s ids w account h =
    ap (fresh_count now) (rehydrate_lem s ids w account h) ∙ count-total now account s.actions

pub extended_count :
    (now at : Time) (xs : List Time)
    → length (keep_if (in_recent_week now) (xs ++ at ∷ []))
      ≡ length (keep_if (in_recent_week now) xs) + (if in_recent_week now at then 1 else 0)
unfolding keep_if
extended_count now at [] = ground arith
extended_count now at (x ∷ xs) = ground (arith, extended_count now at xs)

pub recorded_count :
    (now at : Time) (w : Connects) (account other : UserId) (xs : List Time)
    → w account ≡ some xs
    → fresh_count now (record_connect account at w other)
      ≡ fresh_count now (w other) + (if other == account && in_recent_week now at then 1 else 0)
unfolding fresh_count record_connect
recorded_count now at w account other xs h = elim (Bool-cases (other == account)) [
  | inl same ↦
      let p = (==_iff other account).0 same in
      rw (same, h)
        (extended_count now at xs
          ∙ ap (λ o. fresh_count now o + (if in_recent_week now at then 1 else 0))
              (sym (ap w p ∙ h)))
  | inr differ ↦ rw differ (omega arith)
]

pub recorded_count_any :
    (now at : Time) (w : Connects) (account other : UserId)
    → fresh_count now (record_connect account at w other)
      ≡ fresh_count now (w other) + (if other == account && in_recent_week now at then 1 else 0)
unfolding fresh_count record_connect keep_if
recorded_count_any now at w account other = elim (Option-cases (w account)) [
  | inr (xs, h) ↦ recorded_count now at w account other xs h
  | inl h ↦ elim (Bool-cases (other == account)) [
    | inl same ↦
        let p = (==_iff other account).0 same in rw (same, h) (rw (ap w p ∙ h) (ground arith))
    | inr differ ↦ rw differ (omega arith)
  ]
]

-- The row after a send that landed.
abbrev pub landed : ActionRow → Time → ActionRow
landed r at = record r { result = ActionResult.success; executed_at = some at }

pub weight-waiting :
    (now : Time) (account : UserId) (r : ActionRow)
    → is_success r.result ≡ false
    → weight now account r ≡ 0
unfolding weight went_out
weight-waiting now account r f = ground (arith, f)

pub weight-landed :
    (now at : Time) (account : UserId) (r : ActionRow)
    → r.type ≡ ActionType.connect
    → weight now account (landed r at)
      ≡ (if account == r.account_id && in_recent_week now at then 1 else 0)
unfolding weight went_out stamp
weight-landed now at account r c = rw c (ground arith)

landed_count :
    (now at : Time) (s : Store) (r : ActionRow) (other : UserId)
    → find_row (λ a. a.id) r.id s.actions ≡ some r
    → r.type ≡ ActionType.connect
    → is_success r.result ≡ false
    → total now other (set_row (λ a. a.id) (landed r at) s.actions)
      ≡ total now other s.actions
        + (if other == r.account_id && in_recent_week now at then 1 else 0)
landed_count now at s r other found c f =
    let step = total-set_row now other r (landed r at) s.actions found in
    omega (arith, step, weight-waiting now other r f, weight-landed now at other r c)

-- A restart counts what was counted before it: when the row of a connect that had not succeeded
-- is set to success at a time, the counter that is rebuilt from the store counts, for every
-- account that it is rebuilt for and at any time, what the counter that was rebuilt before and
-- then recorded the connect at that time counts.
pub rehydrate-record_connect :
    (now at : Time) (s : Store) (id : UserId) (r : ActionRow) (ids : List UserId) (w : Connects)
    (other : UserId)
    → find_action s id ≡ some r
    → r.type ≡ ActionType.connect
    → is_success r.result ≡ false
    → includes ids r.account_id ≡ true
    → includes ids other ≡ true
    → (t : Store) × (set_result s id ActionResult.success (some at) ≡ some (landed r at, t))
      × ((count_invites now other (rehydrate t ids w)).0
          ≡ (count_invites now other (record_connect r.account_id at (rehydrate s ids w))).0)
unfolding set_result find_action
rehydrate-record_connect now at s id r ids w other found c f known listed =
    let t : Store = record s { actions = set_row (λ a. a.id) (landed r at) s.actions } in
    let live = rehydrate s ids w in
    let here =
      subst (λ k. find_row (λ a. a.id) k s.actions ≡ some r)
        (sym (find_row-key (λ a. a.id) id s.actions r found)) found in
    (
      t,
      rw (set_result, found),
      count_invites-fresh_count now other (rehydrate t ids w)
          ∙ rehydrated_count now t ids w other listed
          ∙ landed_count now at s r other here c f
          ∙ sym (
              count_invites-fresh_count now other (record_connect r.account_id at live)
              ∙ recorded_count now at live r.account_id other (stamps_of s r.account_id)
                  (rehydrate_lem s ids w r.account_id known)
              ∙ ap (λ n. n + (if other == r.account_id && in_recent_week now at then 1 else 0))
                  (rehydrated_count now s ids w other listed)),
    )
