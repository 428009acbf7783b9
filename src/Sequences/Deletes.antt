-- ===== src/Sequences/Deletes.antt =====
-- What is left of the steps when those of a campaign are deleted.
use linkedin_outreach_agent.Prelude.{
  ℕ, ◌≡◌, refl, sym, ap, ◌∙◌, subst, Bool, true, false, ◌||◌, not, none, List, [], ◌∷◌, leb, ◌==◌,
  ==_refl, All, keep_if, find_row, delete_row, IsMap, IsMap-keep_if, any_of, Bool-cases, ==_iff,
  inl, inr, ◌&&◌, arith,
}
use linkedin_outreach_agent.Domain.{UserId, CampaignStepRow}
use linkedin_outreach_agent.Store.{Store}
use linkedin_outreach_agent.Store.Sequence.{list_campaign_steps, sort_by, insert_by}
use linkedin_outreach_agent.Sequences.{delete_steps, delete_campaign_step}

keep_if-all {ℓ} :
    {A : Type ℓ} (key : A → ℕ) (k : ℕ) (rows : List A)
    → find_row key k rows ≡ none
    → keep_if (λ r. not (key r == k)) rows ≡ rows
unfolding find_row keep_if
keep_if-all key k [] h = refl
keep_if-all key k (r ∷ rs) h = ground (arith, h, keep_if-all key k rs)

delete_row-keep_if {ℓ} :
    {A : Type ℓ} (key : A → ℕ) (k : ℕ) (rows : List A)
    → IsMap key rows
    → delete_row key k rows ≡ keep_if (λ r. not (key r == k)) rows
unfolding delete_row keep_if
delete_row-keep_if key k [] m = refl
delete_row-keep_if key k (r ∷ rs) m = elim (Bool-cases (key r == k)) [
  | inl e ↦ ground (
    arith,
    e,
    keep_if-all key k rs (subst (λ j. find_row key j rs ≡ none) ((==_iff (key r) k).0 e) m.0),
  )
  | inr e ↦ ground (arith, e, delete_row-keep_if key k rs m.1)
]

keep_if-keep_if {ℓ} :
    {A : Type ℓ} (p q : A → Bool) (xs : List A)
    → keep_if p (keep_if q xs) ≡ keep_if (λ x. q x && p x) xs
unfolding keep_if
keep_if-keep_if p q [] = refl
keep_if-keep_if p q (x ∷ xs) = ground (arith, keep_if-keep_if p q xs)

keep_if_same {ℓ} :
    {A : Type ℓ} (p q : A → Bool) (xs : List A)
    → All (λ x. p x ≡ q x) xs
    → keep_if p xs ≡ keep_if q xs
unfolding keep_if
keep_if_same p q [] h = refl
keep_if_same p q (x ∷ xs) h = ground (arith, h.0, keep_if_same p q xs h.1)

keep_if-true {ℓ} : {A : Type ℓ} (xs : List A) → keep_if (λ x. true) xs ≡ xs
unfolding keep_if
keep_if-true [] = refl
keep_if-true (x ∷ xs) = ap (λ r. x ∷ r) (keep_if-true xs)

All-every {ℓ κ} : {A : Type ℓ} {P : A → Type κ} (xs : List A) → ((a : A) → P a) → All P xs
All-every [] h = tt
All-every (x ∷ xs) h = (h x, All-every xs h)

-- A row with the id of one of those that are deleted.
pub is_among : List CampaignStepRow → CampaignStepRow → Bool
is_among ds r = any_of (λ d. d.id == r.id) ds

pub delete_steps_eq :
    (ds : List CampaignStepRow) (s : Store)
    → IsMap (λ r. r.id) s.steps
    → ((delete_steps ds s).steps ≡ keep_if (λ r. not (is_among ds r)) s.steps)
      × ((delete_steps ds s).counter ≡ s.counter)
unfolding delete_steps delete_campaign_step is_among any_of keep_if
delete_steps_eq [] s m = (sym (keep_if-true s.steps), refl)
delete_steps_eq (d ∷ ds) s m =
    let e = delete_row-keep_if (λ r. r.id) d.id s.steps m in
    let next = delete_steps_eq ds (delete_campaign_step d.id s) (
      subst (IsMap (λ r. r.id)) (sym e)
        (IsMap-keep_if (λ r. r.id) (λ r. not (r.id == d.id)) s.steps m)) in
    (
      next.0
          ∙ ap (keep_if (λ r. not (is_among ds r))) e
          ∙ keep_if-keep_if (λ r. not (is_among ds r)) (λ r. not (r.id == d.id)) s.steps
          ∙ keep_if_same (λ r. not (r.id == d.id) && not (is_among ds r))
              (λ r. not (is_among (d ∷ ds) r)) s.steps (All-every s.steps (λ r. ground arith)),
      next.1,
    )

any_of-insert_by {ℓ} :
    {A : Type ℓ} (le : A → A → Bool) (q : A → Bool) (a : A) (xs : List A)
    → any_of q (insert_by le a xs) ≡ (q a || any_of q xs)
unfolding insert_by any_of
any_of-insert_by le q a [] = refl
any_of-insert_by le q a (x ∷ xs) = ground (arith, any_of-insert_by le q a xs)

any_of-sort_by {ℓ} :
    {A : Type ℓ} (le : A → A → Bool) (q : A → Bool) (xs : List A)
    → any_of q (sort_by le xs) ≡ any_of q xs
unfolding sort_by any_of
any_of-sort_by le q [] = refl
any_of-sort_by le q (x ∷ xs) =
    any_of-insert_by le q x (sort_by le xs) ∙ ap (λ b. q x || b) (any_of-sort_by le q xs)

-- The rows of a filter are exactly those of the table that pass it.
among_absent :
    (p : CampaignStepRow → Bool) (k : ℕ) (rows : List CampaignStepRow)
    → find_row (λ r. r.id) k rows ≡ none
    → any_of (λ d. d.id == k) (keep_if p rows) ≡ false
unfolding find_row any_of keep_if
among_absent p k [] h = refl
among_absent p k (r ∷ rs) h = ground (arith, h, among_absent p k rs)

among_under :
    (p : CampaignStepRow → Bool) (r : CampaignStepRow) (rs xs : List CampaignStepRow)
    → find_row (λ r. r.id) r.id xs ≡ none
    → All (λ x. is_among (keep_if p rs) x ≡ p x) xs
    → All (λ x. is_among (keep_if p (r ∷ rs)) x ≡ p x) xs
unfolding find_row is_among any_of keep_if
among_under p r rs [] h k = tt
among_under p r rs (x ∷ xs) h k =
    (ground (arith, h, k.0), among_under p r rs xs (ground (arith, h)) k.1)

among_exact :
    (p : CampaignStepRow → Bool) (rows : List CampaignStepRow)
    → IsMap (λ r. r.id) rows
    → All (λ r. is_among (keep_if p rows) r ≡ p r) rows
unfolding is_among any_of keep_if
among_exact p [] m = tt
among_exact p (r ∷ rs) m = (
  ground (arith, ==_refl r.id, among_absent p r.id rs m.0),
  among_under p r rs rs m.0 (among_exact p rs m.1),
)

All-not :
    (p q : CampaignStepRow → Bool) (xs : List CampaignStepRow)
    → All (λ x. p x ≡ q x) xs
    → All (λ x. not (p x) ≡ not (q x)) xs
All-not p q [] h = tt
All-not p q (x ∷ xs) h = (ap not h.0, All-not p q xs h.1)

-- What is left when the rows of a campaign are deleted, in whatever order.
pub deleted_eq :
    (campaign : UserId) (s : Store)
    → IsMap (λ r. r.id) s.steps
    → (delete_steps (list_campaign_steps s campaign) s).steps
      ≡ keep_if (λ r. not (r.campaign_id == campaign)) s.steps
unfolding list_campaign_steps is_among
deleted_eq campaign s m =
    let p : CampaignStepRow → Bool = λ r. r.campaign_id == campaign in
    let le : CampaignStepRow → CampaignStepRow → Bool = λ a b. leb a.step_order b.step_order in
    (delete_steps_eq (list_campaign_steps s campaign) s m).0
    ∙ keep_if_same (λ r. not (is_among (sort_by le (keep_if p s.steps)) r))
        (λ r. not (is_among (keep_if p s.steps) r)) s.steps
        (All-every s.steps
          (λ r. ap not (any_of-sort_by le (λ d. d.id == r.id) (keep_if p s.steps))))
    ∙ keep_if_same (λ r. not (is_among (keep_if p s.steps) r)) (λ r. not (p r)) s.steps
        (All-not (is_among (keep_if p s.steps)) p s.steps (among_exact p s.steps m))
