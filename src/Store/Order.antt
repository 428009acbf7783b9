-- ===== src/Store/Order.antt =====
-- The order in which due cursors are worked off (`dueTargetProgress` of in-memory-store.ts).
use mathlib.Core.List.{Perm}
use mathlib.Core.List.Perm
use linkedin_outreach_agent.Prelude.{
  ◌≡◌, ◌≢◌, refl, Bool, true, false, List, [], ◌∷◌, arith, All, All-keep_if, keep_if, if◌then◌else◌,
}
use linkedin_outreach_agent.Domain.{UserId, Time, TargetProgressRow, StopReason}
use linkedin_outreach_agent.Store.Defs.{Store}
use linkedin_outreach_agent.Store.Sequence.{
  insert_by, sort_by, is_due, due_order, due_target_progress,
}
use linkedin_outreach_agent.Store.Funnel.{pull_target_from_funnel}
use linkedin_outreach_agent.Store.FunnelLaws.{IsStopped, due_active, pull_target_from_funnel_lem}

module _ {ℓ} {A : Type ℓ} (le : A → A → Bool) where
  -- Every element is in order with all that come after it.
  abbrev pub Sorted : List A → Type ℓ
  Sorted [] = Unit
  Sorted (x ∷ xs) = All (λ y. le x y ≡ true) xs × Sorted xs

  insert_by-perm : (a : A) (xs : List A) → Perm (insert_by le a xs) (a ∷ xs)
  unfolding insert_by
  insert_by-perm a [] = Perm.refl (a ∷ [])
  insert_by-perm a (x ∷ xs) = placed (le a x) (insert_by-perm a xs)
    where
      placed :
          (b : Bool)
          → Perm (insert_by le a xs) (a ∷ xs)
          → Perm (if b then a ∷ x ∷ xs else x ∷ insert_by le a xs) (a ∷ x ∷ xs)
      placed true h = Perm.refl (a ∷ x ∷ xs)
      placed false h = Perm.trans (Perm.cons x h) (Perm.swap a x xs)

  pub sort_by-perm : (xs : List A) → Perm (sort_by le xs) xs
  unfolding sort_by
  sort_by-perm [] = Perm.refl []
  sort_by-perm (x ∷ xs) =
      Perm.trans (insert_by-perm x (sort_by le xs)) (Perm.cons x (sort_by-perm xs))

  module _ {κ} (P : A → Type κ) where
    All-insert_by : (a : A) (xs : List A) → P a → All P xs → All P (insert_by le a xs)
    unfolding insert_by
    All-insert_by a [] h k = (h, tt)
    All-insert_by a (x ∷ xs) h k = placed (le a x) (All-insert_by a xs h k.1)
      where
        placed :
            (b : Bool)
            → All P (insert_by le a xs)
            → All P (if b then a ∷ x ∷ xs else x ∷ insert_by le a xs)
        placed true rest = (h, k)
        placed false rest = (k.0, rest)

    All-sort_by : (xs : List A) → All P xs → All P (sort_by le xs)
    unfolding sort_by
    All-sort_by [] h = tt
    All-sort_by (x ∷ xs) h = All-insert_by x (sort_by le xs) h.0 (All-sort_by xs h.1)

  module _ (total : (a b : A) → le a b ≡ false → le b a ≡ true)
      (trans : (a b c : A) → le a b ≡ true → le b c ≡ true → le a c ≡ true) where
    All-le :
        (a x : A) (xs : List A)
        → le a x ≡ true
        → All (λ y. le x y ≡ true) xs
        → All (λ y. le a y ≡ true) xs
    All-le a x [] h k = tt
    All-le a x (y ∷ ys) h k = (trans a x y h k.0, All-le a x ys h k.1)

    insert_by-Sorted : (a : A) (xs : List A) → Sorted xs → Sorted (insert_by le a xs)
    unfolding insert_by
    insert_by-Sorted a [] h = (tt, tt)
    insert_by-Sorted a (x ∷ xs) h = placed (le a x) refl (insert_by-Sorted a xs h.1)
      where
        placed :
            (b : Bool)
            → le a x ≡ b
            → Sorted (insert_by le a xs)
            → Sorted (if b then a ∷ x ∷ xs else x ∷ insert_by le a xs)
        placed true e rest = ((e, All-le a x xs e h.0), h)
        placed false e rest = (All-insert_by (λ y. le x y ≡ true) a xs (total a x e) h.0, rest)

    sort_by-Sorted : (xs : List A) → Sorted (sort_by le xs)
    unfolding sort_by
    sort_by-Sorted [] = tt
    sort_by-Sorted (x ∷ xs) = insert_by-Sorted x (sort_by le xs) (sort_by-Sorted xs)

due_order_total : (a b : TargetProgressRow) → due_order a b ≡ false → due_order b a ≡ true
due_order_total a b h = ground arith

due_order_trans :
    (a b c : TargetProgressRow) → due_order a b ≡ true → due_order b c ≡ true → due_order a c ≡ true
due_order_trans a b c h k = ground arith

-- The due cursors are exactly the rows in progress whose time has come, each as often as the table
-- has it, those without a time first and then by time and creation.
pub due_target_progress-Sorted :
    (s : Store) (now : Time)
    → Perm (due_target_progress s now) (keep_if (is_due now) s.progress)
      × Sorted due_order (due_target_progress s now)
      × All (λ p. is_due now p ≡ true) (due_target_progress s now)
unfolding due_target_progress
due_target_progress-Sorted s now = (
  sort_by-perm due_order (keep_if (is_due now) s.progress),
  sort_by-Sorted due_order due_order_total due_order_trans (keep_if (is_due now) s.progress),
  All-sort_by due_order (λ p. is_due now p ≡ true) (keep_if (is_due now) s.progress)
      (All-keep_if (λ p. is_due now p ≡ true) (is_due now) s.progress (λ p h. h)),
)

module _ {κ ι} (Q : TargetProgressRow → Type κ) (P : TargetProgressRow → Type ι)
    (p : TargetProgressRow → Bool) where
  All-keep_if_both :
      (xs : List TargetProgressRow)
      → ((a : TargetProgressRow) → p a ≡ true → Q a → P a)
      → All Q xs
      → All P (keep_if p xs)
  unfolding keep_if
  All-keep_if_both [] h k = tt
  All-keep_if_both (x ∷ xs) h k = kept (p x) refl (All-keep_if_both xs h k.1)
    where
      kept :
          (b : Bool)
          → p x ≡ b
          → All P (keep_if p xs)
          → All P (if b then x ∷ keep_if p xs else keep_if p xs)
      kept true e rest = (h x e k.0, rest)
      kept false e rest = rest

-- A target that was pulled out of the funnel is not due: no list of due cursors, at any time, holds
-- a cursor of it.
pub pulled_never_due :
    (s : Store) (target : UserId) (reason : StopReason) (now : Time)
    → All
        (λ p. p.target_id ≢ target)
        (due_target_progress (pull_target_from_funnel s target reason) now)
unfolding due_target_progress
pulled_never_due s target reason now =
    let q = pull_target_from_funnel s target reason in
    All-sort_by due_order (λ p. p.target_id ≢ target) (keep_if (is_due now) q.progress)
      (All-keep_if_both (IsStopped target) (λ p. p.target_id ≢ target) (is_due now) q.progress
        (λ p due stopped same. cc (stopped same, due_active now p due))
        (pull_target_from_funnel_lem s target reason).2)
