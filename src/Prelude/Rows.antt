-- ===== src/Prelude/Rows.antt =====
-- A table of rows with a numeric key, in insertion order: what `Map<string, Row>` is to the
-- stores. A `set` on a present key replaces the row in place, on an absent key appends it.
use Prim.Native.Nat.{ℕ}
use mathlib.Core.Path.{◌≡◌, refl}
use mathlib.Core.List.{List, [], ◌∷◌, ◌++◌}
use mathlib.Core.Option.{Option, none, some}
use native.Mathlib.Omega.{arith}
use mathlib.Core.Bool.{Bool, true, false}
use Prim.Native.Nat.{◌+◌}
use linkedin_outreach_agent.Prelude.Lists.{All, keep_if, length}
use mathlib.Core.Logic.{inl, inr}
use mathlib.Core.Path.{subst}
use linkedin_outreach_agent.Prelude.Tests.{Bool-cases, ==_iff, if◌then◌else◌, ◌==◌}

-- One list is another in a different order.
pub data Shuffled {ℓ} {A : Type ℓ} : List A → List A → Type ℓ where
  same : (xs : List A) → Shuffled xs xs
  keep : (x : A) {xs ys : List A} → Shuffled xs ys → Shuffled (x ∷ xs) (x ∷ ys)
  swap : (x y : A) (xs : List A) → Shuffled (x ∷ y ∷ xs) (y ∷ x ∷ xs)
  then : {xs ys zs : List A} → Shuffled xs ys → Shuffled ys zs → Shuffled xs zs

module _ {ℓ} {A : Type ℓ} where
  pub Shuffled-middle : (x : A) (xs ys : List A) → Shuffled (x ∷ xs ++ ys) (xs ++ x ∷ ys)
  Shuffled-middle x [] ys = Shuffled.same (x ∷ ys)
  Shuffled-middle x (z ∷ xs) ys =
      Shuffled.then (Shuffled.swap x z (xs ++ ys)) (Shuffled.keep z (Shuffled-middle x xs ys))

  pub Shuffled-under :
      (xs : List A) {ys zs : List A} → Shuffled ys zs → Shuffled (xs ++ ys) (xs ++ zs)
  Shuffled-under [] s = s
  Shuffled-under (x ∷ xs) s = Shuffled.keep x (Shuffled-under xs s)

  pub All-Shuffled {κ} : (P : A → Type κ) {xs ys : List A} → Shuffled xs ys → All P xs → All P ys
  All-Shuffled P (Shuffled.same xs) h = h
  All-Shuffled P (Shuffled.keep x s) h = (h.0, All-Shuffled P s h.1)
  All-Shuffled P (Shuffled.swap x y xs) h = (h.1.0, (h.0, h.1.1))
  All-Shuffled P (Shuffled.then s r) h = All-Shuffled P r (All-Shuffled P s h)

module _ {ℓ} {A : Type ℓ} (key : A → ℕ) where
  unfoldable pub find_row : ℕ → List A → Option A
  find_row k [] = none
  find_row k (r ∷ rs) = if key r == k then some r else find_row k rs

  unfoldable pub set_row : A → List A → List A
  set_row a [] = a ∷ []
  set_row a (r ∷ rs) = if key r == key a then a ∷ rs else r ∷ set_row a rs

  unfoldable pub delete_row : ℕ → List A → List A
  delete_row k [] = []
  delete_row k (r ∷ rs) = if key r == k then rs else r ∷ delete_row k rs

  pub find_row-set_row :
      (j : ℕ) (a : A) (rs : List A)
      → find_row j (set_row a rs) ≡ (if key a == j then some a else find_row j rs)
  unfolding find_row set_row
  find_row-set_row j a [] = refl
  find_row-set_row j a (r ∷ rs) = ground (arith, find_row-set_row j a rs)

  pub find_row-set_row_self : (a : A) (rs : List A) → find_row (key a) (set_row a rs) ≡ some a
  find_row-set_row_self a rs = ground (arith, find_row-set_row (key a) a rs)

  pub find_row-key : (k : ℕ) (rs : List A) (a : A) → find_row k rs ≡ some a → key a ≡ k
  unfolding find_row
  find_row-key k [] a h = cc
  find_row-key k (r ∷ rs) a h = ground (arith, find_row-key k rs a)

  -- A row that was absent is gone again when it is deleted.
  pub delete_row-set_row :
      (a : A) (rs : List A) → find_row (key a) rs ≡ none → delete_row (key a) (set_row a rs) ≡ rs
  unfolding find_row set_row delete_row
  delete_row-set_row a [] h = ground arith
  delete_row-set_row a (r ∷ rs) h = ground (arith, delete_row-set_row a rs)

  -- No two rows have the same key.
  abbrev pub IsMap : List A → Type ℓ
  IsMap [] = Unit
  IsMap (r ∷ rs) = (find_row (key r) rs ≡ none) × IsMap rs

  find_row-Shuffled :
      (k : ℕ) {xs ys : List A} → Shuffled xs ys → find_row k xs ≡ none → find_row k ys ≡ none
  unfolding find_row
  find_row-Shuffled k (Shuffled.same xs) h = h
  find_row-Shuffled k (Shuffled.keep x p) h = ground (arith, h, find_row-Shuffled k p)
  find_row-Shuffled k (Shuffled.swap x y xs) h = ground (arith, h)
  find_row-Shuffled k (Shuffled.then p q) h = find_row-Shuffled k q (find_row-Shuffled k p h)

  pub IsMap-Shuffled : {xs ys : List A} → Shuffled xs ys → IsMap xs → IsMap ys
  unfolding find_row
  IsMap-Shuffled (Shuffled.same xs) h = h
  IsMap-Shuffled (Shuffled.keep x p) h = (find_row-Shuffled (key x) p h.0, IsMap-Shuffled p h.1)
  IsMap-Shuffled (Shuffled.swap x y xs) h =
      (ground (arith, h.0, h.1.0), (ground (arith, h.0, h.1.0), h.1.1))
  IsMap-Shuffled (Shuffled.then p q) h = IsMap-Shuffled q (IsMap-Shuffled p h)

  pub find_row-keep_if :
      (p : A → Bool) (k : ℕ) (xs : List A) → find_row k xs ≡ none → find_row k (keep_if p xs) ≡ none
  unfolding find_row keep_if
  find_row-keep_if p k [] h = refl
  find_row-keep_if p k (x ∷ xs) h = ground (arith, h, find_row-keep_if p k xs)

  pub IsMap-keep_if : (p : A → Bool) (xs : List A) → IsMap xs → IsMap (keep_if p xs)
  unfolding keep_if
  IsMap-keep_if p [] h = tt
  IsMap-keep_if p (x ∷ xs) h =
      kept (p x) (find_row-keep_if p (key x) xs h.0) (IsMap-keep_if p xs h.1)
    where
      kept :
          (b : Bool)
          → find_row (key x) (keep_if p xs) ≡ none
          → IsMap (keep_if p xs)
          → IsMap (if b then x ∷ keep_if p xs else keep_if p xs)
      kept true e rest = (e, rest)
      kept false e rest = rest

  find_row_under :
      (r : A) (rs xs : List A)
      → find_row (key r) rs ≡ none
      → All (λ x. find_row (key x) rs ≡ some x) xs
      → All (λ x. find_row (key x) (r ∷ rs) ≡ some x) xs
  unfolding find_row
  find_row_under r rs [] h k = tt
  find_row_under r rs (x ∷ xs) h k = (ground (arith, h, k.0), find_row_under r rs xs h k.1)

  -- In a map, every row is the one that its key finds.
  pub find_row-IsMap : (rs : List A) → IsMap rs → All (λ r. find_row (key r) rs ≡ some r) rs
  unfolding find_row
  find_row-IsMap [] h = tt
  find_row-IsMap (r ∷ rs) h = (ground arith, find_row_under r rs rs h.0 (find_row-IsMap rs h.1))

  -- The rows that pass a test, before and after one is replaced.
  pub length-keep_if-set_row :
      (p : A → Bool) (a b : A) (rs : List A)
      → find_row (key b) rs ≡ some a
      → length (keep_if p (set_row b rs)) + (if p a then 1 else 0)
        ≡ length (keep_if p rs) + (if p b then 1 else 0)
  unfolding find_row set_row keep_if
  length-keep_if-set_row p a b [] h = absurd cc
  length-keep_if-set_row p a b (r ∷ rs) h = ground (arith, h, length-keep_if-set_row p a b rs)

-- A filter finds what it keeps, and in a map no more.
pub find_row-kept {ℓ} :
    {A : Type ℓ} (key : A → ℕ) (p : A → Bool) (k : ℕ) (xs : List A) (a : A)
    → find_row key k xs ≡ some a
    → p a ≡ true
    → find_row key k (keep_if p xs) ≡ some a
unfolding find_row keep_if
find_row-kept key p k [] a h e = absurd cc
find_row-kept key p k (x ∷ xs) a h e = ground (arith, h, e, find_row-kept key p k xs a)

pub find_row-dropped {ℓ} :
    {A : Type ℓ} (key : A → ℕ) (p : A → Bool) (k : ℕ) (xs : List A) (a : A)
    → IsMap key xs
    → find_row key k xs ≡ some a
    → p a ≡ false
    → find_row key k (keep_if p xs) ≡ none
unfolding find_row keep_if
find_row-dropped key p k [] a m h e = absurd cc
find_row-dropped key p k (x ∷ xs) a m h e = elim (Bool-cases (key x == k)) [
  | inl i ↦
      let j = (==_iff (key x) k).0 i in
      let gone =
        subst (λ k. find_row key k (keep_if p xs) ≡ none) j
          (find_row-keep_if key p (key x) xs m.0) in
      ground (arith, h, e, i, gone)
  | inr i ↦ ground (arith, h, e, i, find_row-dropped key p k xs a m.1)
]

-- A new row goes to the end.
pub set_row-absent {ℓ} :
    {A : Type ℓ} (key : A → ℕ) (a : A) (rows : List A)
    → find_row key (key a) rows ≡ none
    → set_row key a rows ≡ rows ++ a ∷ []
unfolding find_row set_row
set_row-absent key a [] h = refl
set_row-absent key a (r ∷ rs) h = ground (arith, h, set_row-absent key a rs)
