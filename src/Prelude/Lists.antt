-- ===== src/Prelude/Lists.antt =====
-- Lists measured and indexed by native numbers, and the array methods of the language
-- (`find`, `filter`, `some`, `includes`) on a Boolean test.
use Prim.Native.Nat.{ℕ, zero, suc, ◌+◌, ◌≤◌}
use mathlib.Core.Path.{◌≡◌, refl}
use mathlib.Core.Bool.{Bool, true, false, ◌||◌, ◌&&◌}
use mathlib.Core.List.{List, [], ◌∷◌, ◌++◌, map}
use mathlib.Core.Option.{Option, none, some}
use native.Mathlib.Omega.{arith}
use linkedin_outreach_agent.Prelude.Tests.{if◌then◌else◌, ◌==◌}

module _ {ℓ} {A : Type ℓ} where
  abbrev pub length : List A → ℕ
  length [] = 0
  length (x ∷ xs) = suc (length xs)

  abbrev pub get_elem? : List A → ℕ → Option A
  get_elem? [] i = none
  get_elem? (x ∷ xs) zero = some x
  get_elem? (x ∷ xs) (suc i) = get_elem? xs i

  abbrev pub get_or : Option A → A → A
  get_or none d = d
  get_or (some a) d = a

  pub length-append : (xs ys : List A) → length (xs ++ ys) ≡ length xs + length ys
  length-append [] ys = omega arith
  length-append (x ∷ xs) ys = omega (arith, length-append xs ys)

  -- `filter` of the language.
  unfoldable pub keep_if : (A → Bool) → List A → List A
  keep_if p [] = []
  keep_if p (x ∷ xs) = let rest = keep_if p xs in if p x then x ∷ rest else rest

  -- `find` of the language.
  unfoldable pub find_first : (A → Bool) → List A → Option A
  find_first p [] = none
  find_first p (x ∷ xs) = if p x then some x else find_first p xs

  -- `some` of the language.
  unfoldable pub any_of : (A → Bool) → List A → Bool
  any_of p [] = false
  any_of p (x ∷ xs) = p x || any_of p xs

  -- A predicate on every element.
  abbrev pub All {κ} : (A → Type κ) → List A → Type κ
  All P [] = Unit
  All P (x ∷ xs) = P x × All P xs

  pub length-keep_if-le : (p : A → Bool) (xs : List A) → length (keep_if p xs) ≤ length xs
  unfolding keep_if
  length-keep_if-le p [] = omega arith
  length-keep_if-le p (x ∷ xs) = ground (arith, length-keep_if-le p xs)

  pub keep_if-append :
      (p : A → Bool) (xs ys : List A) → keep_if p (xs ++ ys) ≡ keep_if p xs ++ keep_if p ys
  unfolding keep_if
  keep_if-append p [] ys = refl
  keep_if-append p (x ∷ xs) ys = ground (arith, keep_if-append p xs ys)

  -- What `find` returns passes the test.
  pub find_first_sound :
      (p : A → Bool) (xs : List A) (a : A) → find_first p xs ≡ some a → p a ≡ true
  unfolding find_first
  find_first_sound p [] a h = cc
  find_first_sound p (x ∷ xs) a h = ground (arith, find_first_sound p xs a)

-- `includes` of the language, on numbers.
unfoldable pub includes : List ℕ → ℕ → Bool
includes [] a = false
includes (x ∷ xs) a = x == a || includes xs a

-- Texts as lists of code units, compared element by element.
unfoldable pub eq_text : List ℕ → List ℕ → Bool
eq_text [] [] = true
eq_text [] (y ∷ ys) = false
eq_text (x ∷ xs) [] = false
eq_text (x ∷ xs) (y ∷ ys) = x == y && eq_text xs ys

pub eq_text_refl : (xs : List ℕ) → eq_text xs xs ≡ true
unfolding eq_text
eq_text_refl [] = refl
eq_text_refl (x ∷ xs) = ground (arith, eq_text_refl xs)

pub eq_text_sound : (xs ys : List ℕ) → eq_text xs ys ≡ true → xs ≡ ys
unfolding eq_text
eq_text_sound [] [] h = refl
eq_text_sound [] (y ∷ ys) h = cc
eq_text_sound (x ∷ xs) [] h = cc
eq_text_sound (x ∷ xs) (y ∷ ys) h = ground (arith, eq_text_sound xs ys)

module _ {ℓ κ} {A : Type ℓ} (P : A → Type κ) where
  -- What a filter keeps passes the test, and had every property that all had.
  pub All-keep_if :
      (p : A → Bool) (xs : List A) → ((a : A) → p a ≡ true → P a) → All P (keep_if p xs)
  unfolding keep_if
  All-keep_if p [] h = tt
  All-keep_if p (x ∷ xs) h = kept (p x) refl (All-keep_if p xs h)
    where
      kept :
          (b : Bool)
          → p x ≡ b
          → All P (keep_if p xs)
          → All P (if b then x ∷ keep_if p xs else keep_if p xs)
      kept true e rest = (h x e, rest)
      kept false e rest = rest

  pub All-keep_if_of_All : (p : A → Bool) (xs : List A) → All P xs → All P (keep_if p xs)
  unfolding keep_if
  All-keep_if_of_All p [] h = tt
  All-keep_if_of_All p (x ∷ xs) h = kept (p x) (All-keep_if_of_All p xs h.1)
    where
      kept :
          (b : Bool) → All P (keep_if p xs) → All P (if b then x ∷ keep_if p xs else keep_if p xs)
      kept true rest = (h.0, rest)
      kept false rest = rest

  pub All-map {ι} : {B : Type ι} (f : B → A) (xs : List B) → ((b : B) → P (f b)) → All P (map f xs)
  All-map f [] h = tt
  All-map f (x ∷ xs) h = (h x, All-map f xs h)

pub map_pointwise {ℓ κ} :
    {A : Type ℓ} {B : Type κ} (f g : A → B) (xs : List A)
    → ((a : A) → f a ≡ g a)
    → map f xs ≡ map g xs
map_pointwise f g [] h = refl
map_pointwise f g (x ∷ xs) h = cc (h x, map_pointwise f g xs h)

pub map_twice {ℓ} :
    {A : Type ℓ} (f g : A → A) (xs : List A)
    → ((a : A) → f (g a) ≡ g a)
    → map f (map g xs) ≡ map g xs
map_twice f g [] h = refl
map_twice f g (x ∷ xs) h = cc (h x, map_twice f g xs h)

pub keep_if-map {ℓ} :
    {A : Type ℓ} (p : A → Bool) (f : A → A) (xs : List A)
    → ((a : A) → p (f a) ≡ p a)
    → ((a : A) → p a ≡ true → f a ≡ a)
    → keep_if p (map f xs) ≡ keep_if p xs
unfolding keep_if
keep_if-map p f [] h k = refl
keep_if-map p f (x ∷ xs) h k = ground (arith, h x, k x, keep_if-map p f xs h k)

-- Two lists of one length whose members are related in their order.
pub data Pairs {ℓ κ} {A : Type ℓ} (R : A → A → Type κ) : List A → List A → Type (ℓ ⊔ κ) where
  pairs_none : Pairs R [] []
  pairs_more : {x y : A} {xs ys : List A} → R x y → Pairs R xs ys → Pairs R (x ∷ xs) (y ∷ ys)

module _ {ℓ κ} {A : Type ℓ} (R : A → A → Type κ) where
  pub Pairs-map : (f : A → A) (xs : List A) → ((a : A) → R a (f a)) → Pairs R xs (map f xs)
  Pairs-map f [] h = pairs_none
  Pairs-map f (x ∷ xs) h = pairs_more (h x) (Pairs-map f xs h)

  pub Pairs-same : (xs : List A) → ((a : A) → R a a) → Pairs R xs xs
  Pairs-same [] h = pairs_none
  Pairs-same (x ∷ xs) h = pairs_more (h x) (Pairs-same xs h)

-- One step after another, in which the second step may be of a narrower relation.
pub Pairs-then {ℓ κ} :
    {A : Type ℓ} {R S T : A → A → Type κ} {xs ys zs : List A}
    → ((a b c : A) → R a b → S b c → T a c)
    → Pairs R xs ys
    → Pairs S ys zs
    → Pairs T xs zs
Pairs-then f pairs_none pairs_none = pairs_none
Pairs-then f (pairs_more r rs) (pairs_more s ss) = pairs_more (f _ _ _ r s) (Pairs-then f rs ss)

pub Pairs-widen {ℓ κ} :
    {A : Type ℓ} {R S : A → A → Type κ} {xs ys : List A}
    → ((a b : A) → R a b → S a b)
    → Pairs R xs ys
    → Pairs S xs ys
Pairs-widen f pairs_none = pairs_none
Pairs-widen f (pairs_more r rs) = pairs_more (f _ _ r) (Pairs-widen f rs)
