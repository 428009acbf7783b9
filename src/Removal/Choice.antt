-- ===== src/Removal/Choice.antt =====
-- Which targets a selector chooses: each once, and all that it names.
use linkedin_outreach_agent.Prelude.{
  ◌≡◌, refl, sym, ap, ◌∙◌, Bool, true, false, ◌||◌, none, some, List, [], ◌∷◌, ◌==◌, All, any_of,
  includes, eq_text, find_row, find_row-key, find_row-kept, find_row-dropped, IsMap, Option-cases,
  Bool-cases, ==_iff, subst, inl, inr, arith,
}
use linkedin_outreach_agent.Domain.{UserId, Text, TargetRow}
use linkedin_outreach_agent.Removal.Ids.{
  add_once-kept, add_once-taken, add_once-Distinct, add_urn-kept, add_urn-Distinct, add_urn-taken,
  add_once-absent, add_urn-absent, Distinct,
}
use linkedin_outreach_agent.Removal.{
  RemoveSelector, onto_found, Chosen, choose_id, choose_ids, choose_urn, choose_urns, rows_of_urn,
  owned_rows,
}

-- The selector names a target by its id or by its urn.
unfoldable pub is_named : RemoveSelector → TargetRow → Bool
is_named selector t =
    includes selector.target_ids t.id || any_of (eq_text t.linkedin_urn) selector.linkedin_urns

module _ (rows : List TargetRow) where
  choose_id-kept :
      (c : Chosen) (id k : UserId)
      → includes c.to_remove k ≡ true
      → includes (choose_id rows c id).to_remove k ≡ true
  unfolding choose_id
  choose_id-kept c id k h = ground (arith, h, add_once-kept c.to_remove id k h)

  choose_id-taken :
      (c : Chosen) (k : UserId) (t : TargetRow)
      → find_row (λ t. t.id) k rows ≡ some t
      → includes (choose_id rows c k).to_remove k ≡ true
  unfolding choose_id
  choose_id-taken c k t h = ground (arith, h, add_once-taken c.to_remove k)

  choose_id-Distinct :
      (c : Chosen) (id : UserId) → Distinct c.to_remove → Distinct (choose_id rows c id).to_remove
  unfolding choose_id
  choose_id-Distinct c id d = elim (Option-cases (find_row (λ t. t.id) id rows)) [
    | inl h ↦ rw (choose_id, h) d
    | inr (t, h) ↦ rw (choose_id, h) (add_once-Distinct c.to_remove id d)
  ]

  choose_ids-kept :
      (ids : List UserId) (c : Chosen) (k : UserId)
      → includes c.to_remove k ≡ true
      → includes (choose_ids rows ids c).to_remove k ≡ true
  unfolding choose_ids
  choose_ids-kept [] c k h = h
  choose_ids-kept (id ∷ ids) c k h =
      choose_ids-kept ids (choose_id rows c id) k (choose_id-kept c id k h)

  choose_ids-taken :
      (ids : List UserId) (c : Chosen) (k : UserId) (t : TargetRow)
      → find_row (λ t. t.id) k rows ≡ some t
      → includes ids k ≡ true
      → includes (choose_ids rows ids c).to_remove k ≡ true
  unfolding choose_ids includes
  choose_ids-taken [] c k t h i = absurd cc
  choose_ids-taken (id ∷ ids) c k t h i = elim (Bool-cases (id == k)) [
    | inl e ↦ choose_ids-kept ids (choose_id rows c id) k (
        subst (λ j. includes (choose_id rows c j).to_remove k ≡ true) (sym ((==_iff id k).0 e))
          (choose_id-taken c k t h))
    | inr e ↦ choose_ids-taken ids (choose_id rows c id) k t h (ground (arith, i, e))
  ]

  choose_ids-Distinct :
      (ids : List UserId) (c : Chosen)
      → Distinct c.to_remove
      → Distinct (choose_ids rows ids c).to_remove
  unfolding choose_ids
  choose_ids-Distinct [] c d = d
  choose_ids-Distinct (id ∷ ids) c d =
      choose_ids-Distinct ids (choose_id rows c id) (choose_id-Distinct c id d)

  choose_urns-kept :
      (urns : List Text) (c : Chosen) (k : UserId)
      → includes c.to_remove k ≡ true
      → includes (choose_urns rows urns c).to_remove k ≡ true
  unfolding choose_urns choose_urn
  choose_urns-kept [] c k h = h
  choose_urns-kept (urn ∷ urns) c k h =
      choose_urns-kept urns (choose_urn rows c urn) k
        (add_urn-kept c urn (rows_of_urn rows urn) k h)

  choose_urns-taken :
      (urns : List Text) (c : Chosen) (k : UserId) (t : TargetRow)
      → find_row (λ t. t.id) k rows ≡ some t
      → any_of (eq_text t.linkedin_urn) urns ≡ true
      → includes (choose_urns rows urns c).to_remove k ≡ true
  unfolding choose_urns choose_urn rows_of_urn any_of
  choose_urns-taken [] c k t h i = absurd cc
  choose_urns-taken (urn ∷ urns) c k t h i = elim (Bool-cases (eq_text t.linkedin_urn urn)) [
    | inl e ↦ choose_urns-kept urns (choose_urn rows c urn) k (
        add_urn-taken c urn (rows_of_urn rows urn) k t
          (find_row-kept (λ t. t.id) (λ t. eq_text t.linkedin_urn urn) k rows t h e))
    | inr e ↦ choose_urns-taken urns (choose_urn rows c urn) k t h (ground (arith, i, e))
  ]

  choose_urns-Distinct :
      (urns : List Text) (c : Chosen)
      → Distinct c.to_remove
      → Distinct (choose_urns rows urns c).to_remove
  unfolding choose_urns choose_urn
  choose_urns-Distinct [] c d = d
  choose_urns-Distinct (urn ∷ urns) c d =
      choose_urns-Distinct urns (choose_urn rows c urn)
        (add_urn-Distinct c urn (rows_of_urn rows urn) d)

  -- One more id: its row in front, or nothing.
  owned_none :
      (id : UserId) (ids : List UserId)
      → find_row (λ t. t.id) id rows ≡ none
      → owned_rows rows (id ∷ ids) ≡ owned_rows rows ids
  unfolding owned_rows
  owned_none id ids h = ap (λ o. onto_found o (owned_rows rows ids)) h

  owned_some :
      (id : UserId) (ids : List UserId) (t : TargetRow)
      → find_row (λ t. t.id) id rows ≡ some t
      → owned_rows rows (id ∷ ids) ≡ t ∷ owned_rows rows ids
  unfolding owned_rows
  owned_some id ids t h = ap (λ o. onto_found o (owned_rows rows ids)) h

  choose_ids-absent :
      (ids : List UserId) (c : Chosen) (k : UserId)
      → includes c.to_remove k ≡ false
      → includes ids k ≡ false
      → includes (choose_ids rows ids c).to_remove k ≡ false
  unfolding choose_ids choose_id includes
  choose_ids-absent [] c k h i = h
  choose_ids-absent (id ∷ ids) c k h i =
      choose_ids-absent ids (choose_id rows c id) k
        (ground (arith, h, i, add_once-absent c.to_remove id k)) (ground (arith, i))

  choose_urns-absent :
      (urns : List Text) (c : Chosen) (t : TargetRow)
      → IsMap (λ t. t.id) rows
      → find_row (λ t. t.id) t.id rows ≡ some t
      → includes c.to_remove t.id ≡ false
      → any_of (eq_text t.linkedin_urn) urns ≡ false
      → includes (choose_urns rows urns c).to_remove t.id ≡ false
  unfolding choose_urns choose_urn rows_of_urn any_of
  choose_urns-absent [] c t m f h i = h
  choose_urns-absent (urn ∷ urns) c t m f h i =
      choose_urns-absent urns (choose_urn rows c urn) t m f
        (add_urn-absent c urn (rows_of_urn rows urn) t.id h (
          find_row-dropped (λ t. t.id) (λ t. eq_text t.linkedin_urn urn) t.id rows t m f
            (ground (arith, i))))
        (ground (arith, i))

  owned_found :
      (ids : List UserId) (k : UserId) (t : TargetRow)
      → find_row (λ t. t.id) k rows ≡ some t
      → includes ids k ≡ true
      → find_row (λ t. t.id) k (owned_rows rows ids) ≡ some t
  unfolding includes find_row
  owned_found [] k t h i = absurd cc
  owned_found (id ∷ ids) k t h i = elim (Bool-cases (id == k)) [
    | inl e ↦
        let f = subst (λ j. find_row (λ t. t.id) j rows ≡ some t) (sym ((==_iff id k).0 e)) h in
        ap (find_row (λ t. t.id) k) (owned_some id ids t f)
        ∙ ground (arith, find_row-key (λ t. t.id) k rows t h)
    | inr e ↦
        let next = owned_found ids k t h (ground (arith, i, e)) in
        elim (Option-cases (find_row (λ t. t.id) id rows)) [
          | inl g ↦ ap (find_row (λ t. t.id) k) (owned_none id ids g) ∙ next
          | inr (u, g) ↦
              ap (find_row (λ t. t.id) k) (owned_some id ids u g)
              ∙ ground (arith, next, e, find_row-key (λ t. t.id) id rows u g)
        ]
  ]

  owned_absent :
      (ids : List UserId) (k : UserId)
      → includes ids k ≡ false
      → find_row (λ t. t.id) k (owned_rows rows ids) ≡ none
  unfolding includes find_row owned_rows
  owned_absent [] k h = refl
  owned_absent (id ∷ ids) k h =
      let next = owned_absent ids k (ground (arith, h)) in
      elim (Option-cases (find_row (λ t. t.id) id rows)) [
        | inl g ↦ ap (find_row (λ t. t.id) k) (owned_none id ids g) ∙ next
        | inr (u, g) ↦
            ap (find_row (λ t. t.id) k) (owned_some id ids u g)
            ∙ ground (arith, next, h, find_row-key (λ t. t.id) id rows u g)
      ]

  owned_outside :
      (ids : List UserId) (k : UserId)
      → find_row (λ t. t.id) k rows ≡ none
      → find_row (λ t. t.id) k (owned_rows rows ids) ≡ none
  unfolding find_row owned_rows
  owned_outside [] k h = refl
  owned_outside (id ∷ ids) k h =
      let next = owned_outside ids k h in
      elim (Option-cases (find_row (λ t. t.id) id rows)) [
        | inl g ↦ ap (find_row (λ t. t.id) k) (owned_none id ids g) ∙ next
        | inr (u, g) ↦
            let here =
              subst (λ j. find_row (λ t. t.id) j rows ≡ some u)
                (sym (find_row-key (λ t. t.id) id rows u g)) g in
            elim (Bool-cases (u.id == k)) [
              | inl e ↦ absurd (
                  cc (
                    sym h
                    ∙ subst (λ j. find_row (λ t. t.id) j rows ≡ some u) ((==_iff u.id k).0 e) here))
              | inr e ↦
                  ap (find_row (λ t. t.id) k) (owned_some id ids u g) ∙ ground (arith, next, e)
            ]
      ]

  owned-IsMap : (ids : List UserId) → Distinct ids → IsMap (λ t. t.id) (owned_rows rows ids)
  unfolding owned_rows
  owned-IsMap [] d = tt
  owned-IsMap (id ∷ ids) d = elim (Option-cases (find_row (λ t. t.id) id rows)) [
    | inl g ↦ subst (IsMap (λ t. t.id)) (sym (owned_none id ids g)) (owned-IsMap ids d.1)
    | inr (u, g) ↦ subst (IsMap (λ t. t.id)) (sym (owned_some id ids u g)) (
      subst (λ k. find_row (λ t. t.id) k (owned_rows rows ids) ≡ none)
          (sym (find_row-key (λ t. t.id) id rows u g)) (owned_absent ids id d.0),
      owned-IsMap ids d.1,
    )
  ]

  -- The rows of the choice are rows of the campaign.
  pub owned_in :
      (ids : List UserId) → All (λ t. find_row (λ t. t.id) t.id rows ≡ some t) (owned_rows rows ids)
  unfolding owned_rows
  owned_in [] = tt
  owned_in (id ∷ ids) = elim (Option-cases (find_row (λ t. t.id) id rows)) [
    | inl g ↦
        subst (All (λ t. find_row (λ t. t.id) t.id rows ≡ some t)) (sym (owned_none id ids g))
          (owned_in ids)
    | inr (u, g) ↦
        subst (All (λ t. find_row (λ t. t.id) t.id rows ≡ some t)) (sym (owned_some id ids u g)) (
          subst (λ k. find_row (λ t. t.id) k rows ≡ some u)
              (sym (find_row-key (λ t. t.id) id rows u g)) g,
          owned_in ids,
        )
  ]

  -- What `removeTargets` removes.
  unfoldable pub chosen_rows : RemoveSelector → List TargetRow
  chosen_rows selector =
      owned_rows rows
        (choose_urns rows selector.linkedin_urns (
          choose_ids rows selector.target_ids
            (record { to_remove = []; not_found = [] }))).to_remove

  -- The chosen rows have different ids, are rows of the campaign, and are all that are named.
  pub chosen-IsMap : (selector : RemoveSelector) → IsMap (λ t. t.id) (chosen_rows selector)
  unfolding chosen_rows
  chosen-IsMap selector =
      owned-IsMap
        (choose_urns rows selector.linkedin_urns (
          choose_ids rows selector.target_ids
            (record { to_remove = []; not_found = [] }))).to_remove
        (choose_urns-Distinct selector.linkedin_urns
          (choose_ids rows selector.target_ids (record { to_remove = []; not_found = [] }))
          (choose_ids-Distinct selector.target_ids (record { to_remove = []; not_found = [] }) tt))

  pub chosen_named :
      (selector : RemoveSelector) (t : TargetRow)
      → find_row (λ t. t.id) t.id rows ≡ some t
      → is_named selector t ≡ true
      → find_row (λ t. t.id) t.id (chosen_rows selector) ≡ some t
  unfolding chosen_rows is_named
  chosen_named selector t h n =
      let none_yet : Chosen = record { to_remove = []; not_found = [] } in
      let by_id = choose_ids rows selector.target_ids none_yet in
      owned_found (choose_urns rows selector.linkedin_urns by_id).to_remove t.id t h
        (elim (Bool-cases (includes selector.target_ids t.id)) [
          | inl e ↦
              choose_urns-kept selector.linkedin_urns by_id t.id
                (choose_ids-taken selector.target_ids none_yet t.id t h e)
          | inr e ↦ choose_urns-taken selector.linkedin_urns by_id t.id t h (ground (arith, n, e))
        ])

  pub chosen_unnamed :
      (selector : RemoveSelector) (t : TargetRow)
      → IsMap (λ t. t.id) rows
      → find_row (λ t. t.id) t.id rows ≡ some t
      → is_named selector t ≡ false
      → find_row (λ t. t.id) t.id (chosen_rows selector) ≡ none
  unfolding chosen_rows is_named includes
  chosen_unnamed selector t m f n =
      let none_yet : Chosen = record { to_remove = []; not_found = [] } in
      let by_id = choose_ids rows selector.target_ids none_yet in
      owned_absent (choose_urns rows selector.linkedin_urns by_id).to_remove t.id (
        choose_urns-absent selector.linkedin_urns by_id t m f
          (choose_ids-absent selector.target_ids none_yet t.id refl (ground (arith, n)))
          (ground (arith, n)))

  -- A row of no campaign row's id is not chosen.
  pub chosen_outside :
      (selector : RemoveSelector) (k : UserId)
      → find_row (λ t. t.id) k rows ≡ none
      → find_row (λ t. t.id) k (chosen_rows selector) ≡ none
  unfolding chosen_rows
  chosen_outside selector k h =
      owned_outside
        (choose_urns rows selector.linkedin_urns (
          choose_ids rows selector.target_ids
            (record { to_remove = []; not_found = [] }))).to_remove
        k h
