-- ===== src/Removal/Pass.antt =====
-- A whole removal.
use linkedin_outreach_agent.Prelude.{
  ℕ, String, ◌≡◌, ap, Option-cases, find_row-key, Pairs, Pairs-same, Pairs-then, Pairs-widen, refl,
  sym, ◌∙◌, subst, Bool, true, false, ◌&&◌, none, some, List, [], ◌∷◌, map, ◌==◌, ==_refl, length,
  All, includes, keep_if, find_row, IsMap, IsMap-keep_if, find_row-kept, find_row-dropped, arith,
  inl, inr, Bool-cases,
}
use linkedin_outreach_agent.Domain.{UserId, Time, TargetRow, EventKind, is_contacted_stage}
use linkedin_outreach_agent.Effects.{Answer, returned, then_eq, ret}
use linkedin_outreach_agent.Store.{Store}
use linkedin_outreach_agent.Store.Tables.{find_target, list_targets_by_campaign}
use linkedin_outreach_agent.Removal.{
  RemoveSelector, TargetRemovalDecision, Missing, remove_one, remove_on, remove_targets,
  decision_of, decision_ids, removal_event, plan_campaign_target_removal, choose_ids, choose_urns,
}
use linkedin_outreach_agent.Removal.Laws.{
  IsRemoved, CancelsOnly, removed_store-CancelsOnly, removed_store, remove_one_eq, found_other,
  IsRemoved-self, IsRemoved-kept,
}
use linkedin_outreach_agent.Removal.Cancels.{
  CancelsOnly-then, CancelsOnly-widen, IsAmong, IsAmong-head, IsAmong-tail,
}
use linkedin_outreach_agent.Removal.Choice.{
  chosen_rows, chosen-IsMap, chosen_named, chosen_unnamed, chosen_outside, is_named, owned_in,
}

abbrev lost_of : List TargetRow → List UserId
lost_of rs = decision_ids (keep_if (λ d. d.was_contacted) (map decision_of rs))

-- The set of lost ids tells the contacted rows, since no id occurs twice.
lost_absent :
    (rs : List TargetRow) (k : UserId)
    → find_row (λ t. t.id) k rs ≡ none
    → includes (lost_of rs) k ≡ false
unfolding find_row keep_if decision_of includes
lost_absent [] k h = refl
lost_absent (r ∷ rs) k h = ground (arith, h, lost_absent rs k)

lost_under :
    (r : TargetRow) (rs xs : List TargetRow)
    → find_row (λ t. t.id) r.id xs ≡ none
    → All (λ x. includes (lost_of rs) x.id ≡ is_contacted_stage x.stage) xs
    → All (λ x. includes (lost_of (r ∷ rs)) x.id ≡ is_contacted_stage x.stage) xs
unfolding find_row keep_if decision_of includes
lost_under r rs [] h k = tt
lost_under r rs (x ∷ xs) h k = (ground (arith, h, k.0), lost_under r rs xs (ground (arith, h)) k.1)

lost_exact :
    (rs : List TargetRow)
    → IsMap (λ t. t.id) rs
    → All (λ r. includes (lost_of rs) r.id ≡ is_contacted_stage r.stage) rs
unfolding keep_if decision_of includes
lost_exact [] h = tt
lost_exact (r ∷ rs) h = (
  ground (arith, ==_refl r.id, lost_absent rs r.id h.0),
  lost_under r rs rs h.0 (lost_exact rs h.1),
)

module _ (now : Time) (campaign : UserId) (reason : String) where
  -- The rows that are still to be removed stand in the store as they were read.
  found_kept :
      (r : TargetRow) (b : Bool) (e : EventKind) (s : Store) (rs : List TargetRow)
      → find_row (λ t. t.id) r.id rs ≡ none
      → All (λ x. find_target s x.id ≡ some x) rs
      → All (λ x. find_target (removed_store now reason e r b s) x.id ≡ some x) rs
  unfolding find_row
  found_kept r b e s [] h k = tt
  found_kept r b e s (x ∷ xs) h k = (
    found_other now reason e r b s x.id (ground (arith, h)) ∙ k.0,
    found_kept r b e s xs (ground (arith, h)) k.1,
  )

  module _ (table : List TargetRow) (lost : List UserId) where
    remove_on_next :
        (d : TargetRemovalDecision) (target : TargetRow) (e : EventKind)
        (ds : List TargetRemovalDecision) (es : List EventKind) (s s0 : Store)
        (r : Answer (Unit {0}) × Store)
        → find_row (λ t. t.id) d.target_id table ≡ some target
        → remove_one now reason (includes lost d.target_id) target e s ≡ (returned tt, s0)
        → remove_on now table reason lost ds es s0 ≡ r
        → remove_on now table reason lost (d ∷ ds) (e ∷ es) s ≡ r
    unfolding remove_on
    remove_on_next d target e ds es s s0 r h k n =
        rw (remove_on, h)
          (then_eq (remove_one now reason (includes lost d.target_id) target e)
            (remove_on now table reason lost ds es) s s0 tt r k n)

    remove_on_lem :
        (rs : List TargetRow) (s : Store)
        → IsMap (λ t. t.id) rs
        → All (λ r. find_row (λ t. t.id) r.id table ≡ some r) rs
        → All (λ r. find_target s r.id ≡ some r) rs
        → All (λ r. includes lost r.id ≡ is_contacted_stage r.stage) rs
        → (s1 : Store) × (remove_on now table reason lost
              (map decision_of rs)
              (map (removal_event campaign reason) (map decision_of rs))
              s
            ≡ (returned tt, s1))
          × All (λ r. IsRemoved r s1) rs
          × ((o : TargetRow) → find_row (λ t. t.id) o.id rs ≡ none → IsRemoved o s → IsRemoved o s1)
          × ((id : UserId)
              → find_row (λ t. t.id) id rs ≡ none
              → find_target s1 id ≡ find_target s id)
          × Pairs (CancelsOnly (IsAmong rs)) s.messages s1.messages
    unfolding remove_on find_row decision_of
    remove_on_lem [] s m i f l = (
      s,
      refl,
      tt,
      λ o n h. h,
      λ id n. refl,
      Pairs-same (CancelsOnly (IsAmong [])) s.messages (λ x. inl refl),
    )
    remove_on_lem (r ∷ rs) s m i f l =
        let e = removal_event campaign reason (decision_of r) in
        let b = is_contacted_stage r.stage in
        let s0 = removed_store now reason e r b s in
        let (s1, eq, gone, kept, others, cancels) =
          remove_on_lem rs s0 m.1 i.1 (found_kept r b e s rs m.0 f.1) l.1 in
        (
          s1,
          remove_on_next (decision_of r) r e (map decision_of rs)
              (map (removal_event campaign reason) (map decision_of rs)) s s0 (returned tt, s1) i.0
              (subst (λ c. remove_one now reason c r e s ≡ (returned tt, s0)) (sym l.0)
                (remove_one_eq now reason b r e s f.0))
              eq,
          (kept r m.0 (IsRemoved-self now reason e r s), gone),
          λ o n h.
              kept o (ground (arith, n))
                (IsRemoved-kept now reason e r o b s (ground (arith, n)) h),
          λ id n.
              others id (ground (arith, n)) ∙ found_other now reason e r b s id (ground (arith, n)),
          Pairs-then
              (CancelsOnly-then (λ k. k ≡ r.id) (IsAmong rs) (IsAmong (r ∷ rs)) (IsAmong-head r rs)
                (IsAmong-tail r rs))
              (removed_store-CancelsOnly now reason e r b s) cancels,
        )

find_of_campaign :
    (p : TargetRow → Bool) (k : UserId) (xs : List TargetRow) (t : TargetRow)
    → IsMap (λ t. t.id) xs
    → find_row (λ t. t.id) k (keep_if p xs) ≡ some t
    → find_row (λ t. t.id) k xs ≡ some t
unfolding find_row keep_if
find_of_campaign p k [] t m h = absurd cc
find_of_campaign p k (x ∷ xs) t m h = ground (arith, h, m.0, find_of_campaign p k xs t m.1)

All-found :
    (P : TargetRow → Type 0) (k : UserId) (t : TargetRow) (rs : List TargetRow)
    → find_row (λ t. t.id) k rs ≡ some t
    → All P rs
    → P t
unfolding find_row
All-found P k t [] h a = absurd cc
All-found P k t (r ∷ rs) h a = elim (Bool-cases (r.id == k)) [
  | inl e ↦ subst P (ground (arith, h, e)) a.0
  | inr e ↦ All-found P k t rs (ground (arith, h, e)) a.1
]

in_store :
    (s : Store) (campaign : UserId) (rs : List TargetRow)
    → IsMap (λ t. t.id) s.targets
    → All (λ t. find_row (λ t. t.id) t.id (list_targets_by_campaign s campaign) ≡ some t) rs
    → All (λ t. find_target s t.id ≡ some t) rs
unfolding list_targets_by_campaign find_target
in_store s campaign [] m h = tt
in_store s campaign (r ∷ rs) m h = (
  find_of_campaign (λ t. t.campaign_id == campaign) r.id s.targets r m h.0,
  in_store s campaign rs m h.1,
)

not_chosen :
    (s : Store) (campaign : UserId) (selector : RemoveSelector) (t : TargetRow)
    → IsMap (λ t. t.id) s.targets
    → find_target s t.id ≡ some t
    → let rows = list_targets_by_campaign s campaign in
      (t.campaign_id == campaign && is_named selector t) ≡ false
      → find_row (λ t. t.id) t.id (chosen_rows rows selector) ≡ none
unfolding list_targets_by_campaign find_target
not_chosen s campaign selector t m h i =
    let mine : TargetRow → Bool = λ t. t.campaign_id == campaign in
    let rows = list_targets_by_campaign s campaign in
    elim (Bool-cases (t.campaign_id == campaign)) [
      | inl e ↦
          chosen_unnamed rows selector t (IsMap-keep_if (λ t. t.id) mine s.targets m)
            (find_row-kept (λ t. t.id) mine t.id s.targets t h e) (ground (arith, i, e))
      | inr e ↦
          chosen_outside rows selector t.id
            (find_row-dropped (λ t. t.id) mine t.id s.targets t m h e)
    ]

-- A target of the campaign that the selector names.
abbrev pub IsSelected : List TargetRow → RemoveSelector → UserId → Type 0
IsSelected rows selector k =
    (t : TargetRow) × (find_row (λ t. t.id) k rows ≡ some t) × (is_named selector t ≡ true)

chosen-IsSelected :
    (rows : List TargetRow) (selector : RemoveSelector) (k : UserId)
    → IsMap (λ t. t.id) rows
    → IsAmong (chosen_rows rows selector) k
    → IsSelected rows selector k
chosen-IsSelected rows selector k m (c, h) = elim (Option-cases (find_row (λ t. t.id) k rows)) [
  | inl n ↦ absurd (cc (h, chosen_outside rows selector k n))
  | inr (t, f) ↦ elim (Bool-cases (is_named selector t)) [
    | inl i ↦ (t, f, i)
    | inr i ↦
        let e : t.id ≡ k = find_row-key (λ t. t.id) k rows t f in
        absurd (
          cc (
            h,
            ap (λ j. find_row (λ t. t.id) j (chosen_rows rows selector)) (sym e)
                ∙ chosen_unnamed rows selector t m (ap (λ j. find_row (λ t. t.id) j rows) e ∙ f) i,
          ))
  ]
]

-- A removal always comes to its end. Then every target of the campaign that the selector names, by
-- its id or by its urn, has no active cursor and no outbound message in draft or approved, carries
-- the mark of a removed target, and is lost if it had been contacted, and at its old stage if not;
-- every other target has its row as before. Every message is as it was, but for outbound draft or
-- approved messages of targets that the selector names, which are cancelled. The targets of the store
-- have different ids.
pub remove_targets-IsRemoved :
    (now : Time) (campaign : UserId) (selector : RemoveSelector) (reason : String) (s : Store)
    → IsMap (λ t. t.id) s.targets
    → let rows = list_targets_by_campaign s campaign in
      (n : ℕ × List Missing) × (s1 : Store) × (remove_targets now campaign selector reason s
        ≡ (returned n, s1))
      × ((t : TargetRow)
          → find_row (λ t. t.id) t.id rows ≡ some t
          → is_named selector t ≡ true
          → IsRemoved t s1)
      × ((t : TargetRow)
          → find_target s t.id ≡ some t
          → (t.campaign_id == campaign && is_named selector t) ≡ false
          → find_target s1 t.id ≡ some t)
      × Pairs (CancelsOnly (IsSelected rows selector)) s.messages s1.messages
unfolding remove_targets chosen_rows plan_campaign_target_removal list_targets_by_campaign
remove_targets-IsRemoved now campaign selector reason s m =
    let rows = list_targets_by_campaign s campaign in
    let chosen =
      choose_urns rows selector.linkedin_urns
        (choose_ids rows selector.target_ids (record { to_remove = []; not_found = [] })) in
    let owned = chosen_rows rows selector in
    let inside = owned_in rows chosen.to_remove in
    let unique = chosen-IsMap rows selector in
    let (s1, eq, gone, kept, others, cancels) =
      remove_on_lem now campaign reason rows (lost_of owned) owned s unique inside
        (in_store s campaign owned m inside) (lost_exact owned unique) in
    let n : ℕ × List Missing = (length (map decision_of owned), chosen.not_found) in
    (
      n,
      s1,
      then_eq
          (remove_on now rows reason (lost_of owned) (map decision_of owned)
            (map (removal_event campaign reason) (map decision_of owned)))
          (ret n) s s1 tt (returned n, s1) eq refl,
      λ t h i. All-found (λ r. IsRemoved r s1) t.id t owned (chosen_named rows selector t h i) gone,
      λ t h i. others t.id (not_chosen s campaign selector t m h i) ∙ h,
      Pairs-widen
          (λ a b.
            CancelsOnly-widen (IsAmong owned) (IsSelected rows selector)
              (λ k.
                chosen-IsSelected rows selector k
                  (IsMap-keep_if (λ t. t.id) (λ t. t.campaign_id == campaign) s.targets m))
              a b)
          cancels,
    )
