-- ===== src/Removal/Ids.antt =====
-- The set of ids that a selector fills: how each addition to it reads.
use linkedin_outreach_agent.Prelude.{
  ◌≡◌, refl, Bool, true, false, ◌||◌, none, some, List, [], ◌∷◌, ◌++◌, ◌==◌, if◌then◌else◌,
  includes, find_row, Bool-cases, ==_iff, subst, inl, inr, arith,
}
use linkedin_outreach_agent.Domain.{UserId, Text, TargetRow}
use linkedin_outreach_agent.Removal.{Chosen, add_once, add_all, add_urn}

-- No id twice.
abbrev pub Distinct : List UserId → Type 0
Distinct [] = Unit
Distinct (x ∷ xs) = (includes xs x ≡ false) × Distinct xs

includes-append :
    (ids : List UserId) (id k : UserId) → includes (ids ++ id ∷ []) k ≡ (includes ids k || id == k)
unfolding includes
includes-append [] id k = ground arith
includes-append (x ∷ xs) id k = ground (arith, includes-append xs id k)

pub add_once-kept :
    (ids : List UserId) (id k : UserId)
    → includes ids k ≡ true
    → includes (add_once ids id) k ≡ true
unfolding add_once
add_once-kept ids id k h = ground (arith, h, includes-append ids id k)

pub add_once-taken : (ids : List UserId) (id : UserId) → includes (add_once ids id) id ≡ true
unfolding add_once
add_once-taken ids id = ground (arith, includes-append ids id id)

pub append-Distinct :
    (ids : List UserId) (id : UserId)
    → includes ids id ≡ false
    → Distinct ids
    → Distinct (ids ++ id ∷ [])
unfolding includes
append-Distinct [] id h d = (refl, tt)
append-Distinct (x ∷ xs) id h d =
    (ground (arith, h, d.0, includes-append xs id x), append-Distinct xs id (ground (arith, h)) d.1)

pub add_once-Distinct :
    (ids : List UserId) (id : UserId) → Distinct ids → Distinct (add_once ids id)
unfolding add_once
add_once-Distinct ids id d = added (includes ids id) refl
  where
    added : (b : Bool) → includes ids id ≡ b → Distinct (if b then ids else ids ++ id ∷ [])
    added true h = d
    added false h = append-Distinct ids id h d

pub add_all-kept :
    (ts : List TargetRow) (ids : List UserId) (k : UserId)
    → includes ids k ≡ true
    → includes (add_all ids ts) k ≡ true
unfolding add_all
add_all-kept [] ids k h = h
add_all-kept (t ∷ ts) ids k h = add_all-kept ts (add_once ids t.id) k (add_once-kept ids t.id k h)

pub add_all-Distinct :
    (ts : List TargetRow) (ids : List UserId) → Distinct ids → Distinct (add_all ids ts)
unfolding add_all
add_all-Distinct [] ids d = d
add_all-Distinct (t ∷ ts) ids d =
    add_all-Distinct ts (add_once ids t.id) (add_once-Distinct ids t.id d)

pub add_urn-kept :
    (c : Chosen) (urn : Text) (ts : List TargetRow) (k : UserId)
    → includes c.to_remove k ≡ true
    → includes (add_urn c urn ts).to_remove k ≡ true
unfolding add_urn
add_urn-kept c urn [] k h = h
add_urn-kept c urn (t ∷ ts) k h = add_all-kept (t ∷ ts) c.to_remove k h

pub add_urn-Distinct :
    (c : Chosen) (urn : Text) (ts : List TargetRow)
    → Distinct c.to_remove
    → Distinct (add_urn c urn ts).to_remove
unfolding add_urn
add_urn-Distinct c urn [] d = d
add_urn-Distinct c urn (t ∷ ts) d = add_all-Distinct (t ∷ ts) c.to_remove d

pub add_all-taken :
    (ts : List TargetRow) (ids : List UserId) (k : UserId) (t : TargetRow)
    → find_row (λ t. t.id) k ts ≡ some t
    → includes (add_all ids ts) k ≡ true
unfolding add_all find_row
add_all-taken [] ids k t h = absurd cc
add_all-taken (u ∷ us) ids k t h = elim (Bool-cases (u.id == k)) [
  | inl e ↦ add_all-kept us (add_once ids u.id) k (
      subst (λ j. includes (add_once ids u.id) j ≡ true) ((==_iff u.id k).0 e)
        (add_once-taken ids u.id))
  | inr e ↦ add_all-taken us (add_once ids u.id) k t (ground (arith, h, e))
]

pub add_urn-taken :
    (c : Chosen) (urn : Text) (ts : List TargetRow) (k : UserId) (t : TargetRow)
    → find_row (λ t. t.id) k ts ≡ some t
    → includes (add_urn c urn ts).to_remove k ≡ true
unfolding add_urn find_row
add_urn-taken c urn [] k t h = absurd cc
add_urn-taken c urn (u ∷ us) k t h = add_all-taken (u ∷ us) c.to_remove k t h

pub add_once-absent :
    (ids : List UserId) (id k : UserId)
    → includes ids k ≡ false
    → (id == k) ≡ false
    → includes (add_once ids id) k ≡ false
unfolding add_once
add_once-absent ids id k h e = ground (arith, h, e, includes-append ids id k)

pub add_all-absent :
    (ts : List TargetRow) (ids : List UserId) (k : UserId)
    → includes ids k ≡ false
    → find_row (λ t. t.id) k ts ≡ none
    → includes (add_all ids ts) k ≡ false
unfolding add_all find_row
add_all-absent [] ids k h n = h
add_all-absent (t ∷ ts) ids k h n =
    add_all-absent ts (add_once ids t.id) k (add_once-absent ids t.id k h (ground (arith, n)))
      (ground (arith, n))

pub add_urn-absent :
    (c : Chosen) (urn : Text) (ts : List TargetRow) (k : UserId)
    → includes c.to_remove k ≡ false
    → find_row (λ t. t.id) k ts ≡ none
    → includes (add_urn c urn ts).to_remove k ≡ false
unfolding add_urn
add_urn-absent c urn [] k h n = h
add_urn-absent c urn (t ∷ ts) k h n = add_all-absent (t ∷ ts) c.to_remove k h n
