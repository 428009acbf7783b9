-- ===== src/Counters/Pauses.antt =====
-- The operator's pauses over a restart (`PauseRegistry` of runtime/src/adapters/safety-state.ts).
use linkedin_outreach_agent.Prelude.{
  ◌<◌, ◌≡◌, refl, sym, ap, ◌∙◌, Bool, true, false, Option, none, some, List, [], ◌∷◌, ◌++◌, arith,
  ltb, leb, ◌==◌, ==_iff, ==_refl, if◌then◌else◌, All, keep_if, keep_if-append, includes,
  Bool-cases, inl, inr,
}
use linkedin_outreach_agent.Domain.{
  UserId, Time, EventRow, EventKind, account_paused, account_resumed,
}
use linkedin_outreach_agent.Store.{Store}
use linkedin_outreach_agent.Store.Tables.{record_event}
use linkedin_outreach_agent.Store.Sequence.{insert_by, sort_by, of_account, list_events_by_account}
use linkedin_outreach_agent.Counters.Live.{
  Paused, set_paused, latest, max_ts, is_newer, is_pause, is_resume, rehydrate_paused,
}

-- What a round of `maxTs` does.
abbrev seen : (EventKind → Bool) → Option Time → EventRow → Option Time
seen p max e = if p e.kind then latest max e.ts else max

latest_comm : (max : Option Time) (a b : Time) → latest (latest max a) b ≡ latest (latest max b) a
unfolding latest
latest_comm none a b = ground arith
latest_comm (some m) a b = ground arith

module _ (p : EventKind → Bool) where
  seen_comm :
      (max : Option Time) (a b : EventRow) → seen p (seen p max a) b ≡ seen p (seen p max b) a
  seen_comm max a b = ground (arith, latest_comm max a.ts b.ts)

  -- The order of the list does not matter to `maxTs`.
  max_ts-insert_by :
      (le : EventRow → EventRow → Bool) (a : EventRow) (xs : List EventRow) (max : Option Time)
      → max_ts p (insert_by le a xs) max ≡ max_ts p xs (seen p max a)
  unfolding max_ts insert_by
  max_ts-insert_by le a [] max = refl
  max_ts-insert_by le a (x ∷ xs) max = elim (Bool-cases (le a x)) [
    | inl first ↦ rw first
    | inr later ↦
        rw later (max_ts-insert_by le a xs (seen p max x) ∙ ap (max_ts p xs) (seen_comm max x a))
  ]

  max_ts-sort_by :
      (le : EventRow → EventRow → Bool) (xs : List EventRow) (max : Option Time)
      → max_ts p (sort_by le xs) max ≡ max_ts p xs max
  unfolding max_ts sort_by
  max_ts-sort_by le [] max = refl
  max_ts-sort_by le (x ∷ xs) max =
      max_ts-insert_by le x (sort_by le xs) max ∙ max_ts-sort_by le xs (seen p max x)

  max_ts-append :
      (xs : List EventRow) (e : EventRow) (max : Option Time)
      → max_ts p (xs ++ e ∷ []) max ≡ seen p (max_ts p xs max) e
  unfolding max_ts
  max_ts-append [] e max = refl
  max_ts-append (x ∷ xs) e max = max_ts-append xs e (seen p max x)

-- No event of the account of the kind is at the time or later.
unfoldable pub EventsBefore : (EventKind → Bool) → UserId → Time → List EventRow → Type 0
EventsBefore p account now = All (λ e. p e.kind ≡ true → of_account account e ≡ true → e.ts < now)

IsBefore : Time → Option Time → Type 0
IsBefore now none = Unit
IsBefore now (some t) = t < now

seen-IsBefore :
    (p : EventKind → Bool) (now : Time) (max : Option Time) (e : EventRow)
    → (p e.kind ≡ true → e.ts < now)
    → IsBefore now max
    → IsBefore now (seen p max e)
unfolding IsBefore latest
seen-IsBefore p now none e h b = elim (Bool-cases (p e.kind)) [
  | inl yes_kind ↦ rw yes_kind (h yes_kind)
  | inr no_kind ↦ rw no_kind tt
]
seen-IsBefore p now (some t) e h b = elim (Bool-cases (p e.kind)) [
  | inl yes_kind ↦
      let early = h yes_kind in
      elim (Bool-cases (ltb t e.ts)) [
        | inl newer ↦ rw (yes_kind, newer) early
        | inr older ↦ rw (yes_kind, older) b
      ]
  | inr no_kind ↦ rw no_kind b
]

max_ts-IsBefore :
    (p : EventKind → Bool) (account : UserId) (now : Time) (xs : List EventRow) (max : Option Time)
    → EventsBefore p account now xs
    → IsBefore now max
    → IsBefore now (max_ts p (keep_if (of_account account) xs) max)
unfolding EventsBefore max_ts keep_if
max_ts-IsBefore p account now [] max h b = b
max_ts-IsBefore p account now (x ∷ xs) max h b = elim (Bool-cases (of_account account x)) [
  | inl mine ↦ rw mine (
      max_ts-IsBefore p account now xs (seen p max x) h.1
        (seen-IsBefore p now max x (λ k. h.0 k mine) b))
  | inr other ↦ rw other (max_ts-IsBefore p account now xs max h.1 b)
]

-- The latest time of a kind after one more event of the account.
max_ts_after :
    (p : EventKind → Bool) (s : Store) (now : Time) (kind : EventKind) (account : UserId)
    → max_ts p (list_events_by_account (record_event s now kind (some account)) account) none ≡ (
        if p kind
        then latest (max_ts p (keep_if (of_account account) s.events) none) now
        else max_ts p (keep_if (of_account account) s.events) none)
unfolding list_events_by_account record_event keep_if
max_ts_after p s now kind account =
    let e : EventRow = record { ts = now; account_id = some account; kind = kind } in
    max_ts-sort_by p (λ a b. leb b.ts a.ts) (keep_if (of_account account) (s.events ++ e ∷ [])) none
    ∙ ap (λ xs. max_ts p xs none) (keep_if-append (of_account account) s.events (e ∷ []))
    ∙ ap (λ xs. max_ts p (keep_if (of_account account) s.events ++ xs) none)
        (rw (keep_if, ==_refl account))
    ∙ max_ts-append p (keep_if (of_account account) s.events) e none

-- The verdict of `rehydrate` on an account.
abbrev verdict : Store → UserId → Bool
verdict s account =
    let events = list_events_by_account s account in
    is_newer (max_ts is_pause events none) (max_ts is_resume events none)

rehydrate_paused-kept :
    (s : Store) (ids : List UserId) (w : Paused) (account : UserId)
    → w account ≡ verdict s account
    → rehydrate_paused s ids w account ≡ verdict s account
unfolding rehydrate_paused set_paused
rehydrate_paused-kept s [] w account h = h
rehydrate_paused-kept s (i ∷ ids) w account h =
    rehydrate_paused-kept s ids (set_paused i (verdict s i) w) account
      (elim (Bool-cases (account == i)) [
        | inl same ↦ rw same (ap (verdict s) (sym ((==_iff account i).0 same)))
        | inr differ ↦ rw differ h
      ])

rehydrate_paused_lem :
    (s : Store) (ids : List UserId) (w : Paused) (account : UserId)
    → includes ids account ≡ true
    → rehydrate_paused s ids w account ≡ verdict s account
unfolding rehydrate_paused set_paused includes
rehydrate_paused_lem s [] w account h = absurd cc
rehydrate_paused_lem s (i ∷ ids) w account h = elim (Bool-cases (i == account)) [
  | inl e ↦
      let p = (==_iff i account).0 e in
      rehydrate_paused-kept s ids (set_paused i (verdict s i) w) account
        (rw ((==_iff account i).1 (sym p)) (ap (verdict s) p))
  | inr e ↦ rehydrate_paused_lem s ids (set_paused i (verdict s i) w) account (ground (arith, h, e))
]

paused_newer : (p r : Option Time) (now : Time) → IsBefore now r → is_newer (latest p now) r ≡ true
unfolding is_newer latest IsBefore
paused_newer none none now h = refl
paused_newer none (some r) now h = ground arith
paused_newer (some p) none now h = ground arith
paused_newer (some p) (some r) now h = ground arith

resumed_newer :
    (p r : Option Time) (now : Time) → IsBefore now p → is_newer p (latest r now) ≡ false
unfolding is_newer latest IsBefore
resumed_newer none r now h = refl
resumed_newer (some p) none now h = ground arith
resumed_newer (some p) (some r) now h = ground arith

-- A pause and a resume survive a restart: when an account's earlier pauses and resumes are all
-- before a time, the registry that is rebuilt from the store after a pause at that time says that
-- the account is paused, and after a resume at that time that it is not, whatever the registry
-- said before.
pub rehydrate_paused-record_event :
    (s : Store) (now : Time) (account : UserId) (ids : List UserId) (w : Paused)
    → includes ids account ≡ true
    → EventsBefore is_pause account now s.events
    → EventsBefore is_resume account now s.events
    → (rehydrate_paused (record_event s now account_paused (some account)) ids w account ≡ true)
      × (rehydrate_paused (record_event s now account_resumed (some account)) ids w account ≡ false)
unfolding is_pause is_resume IsBefore
rehydrate_paused-record_event s now account ids w listed pauses resumes =
    let p = max_ts-IsBefore is_pause account now s.events none pauses tt in
    let r = max_ts-IsBefore is_resume account now s.events none resumes tt in
    let after = λ (q : EventKind → Bool) (k : EventKind). max_ts_after q s now k account in
    (
      rehydrate_paused_lem (record_event s now account_paused (some account)) ids w account listed
          ∙ ap
              (λ x. is_newer x (
                max_ts is_resume
                  (list_events_by_account (record_event s now account_paused (some account))
                    account)
                  none))
              (after is_pause account_paused)
          ∙ ap (is_newer _) (after is_resume account_paused)
          ∙ paused_newer _ _ now r,
      rehydrate_paused_lem (record_event s now account_resumed (some account)) ids w account listed
          ∙ ap
              (λ x. is_newer x (
                max_ts is_resume
                  (list_events_by_account (record_event s now account_resumed (some account))
                    account)
                  none))
              (after is_pause account_resumed)
          ∙ ap (is_newer _) (after is_resume account_resumed)
          ∙ resumed_newer _ _ now p,
    )
