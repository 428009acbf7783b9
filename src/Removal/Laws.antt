-- ===== src/Removal/Laws.antt =====
-- What a removal leaves of a target.
use linkedin_outreach_agent.Prelude.{
  String, ◌≡◌, ◌⊎◌, inl, inr, ap, ==_iff, Bool-cases, Pairs, Pairs-map, refl, sym, ◌∙◌, subst, Bool,
  true, false, Option, none, some, List, [], ◌∷◌, map, ◌==◌, if◌then◌else◌, All, set_row,
  find_row-set_row, find_row-set_row_self, arith,
}
use linkedin_outreach_agent.Domain.{
  UserId, Time, Json, json_flag, TargetRow, TargetStage, TargetProgressRow, MessageRow,
  ProgressState, MessageStatus, MessageDirection, removed_by_operator, EventKind,
  is_contacted_stage, is_active_progress, is_cancelable_status,
}
use linkedin_outreach_agent.Effects.{returned, then_eq, ◌>>◌}
use linkedin_outreach_agent.Store.{Store}
use linkedin_outreach_agent.Store.Tables.{find_target, set_stage, record_event}
use linkedin_outreach_agent.Store.Lookups.{stage_found, find_after_stage}
use linkedin_outreach_agent.Store.Funnel.{
  is_outbound, stop_cursor, cancel_message, stop_funnel, exclude_target_from_funnel,
}
use linkedin_outreach_agent.Store.FunnelLaws.{
  IsStopped, IsSilent, IsUnsent, cancelable_unsent, stop_funnel_lem,
}
use linkedin_outreach_agent.Removal.{attempt, set_external_context, removed_flag, remove_one}

-- The target is out of the funnel and marked, and lost if it had been contacted.
unfoldable pub IsRemoved : TargetRow → Store → Type 0
IsRemoved row s =
    All (IsStopped row.id) s.progress
    × All (IsSilent row.id) s.messages
    × (t : TargetRow) × (find_target s row.id ≡ some t)
    × (removed_flag t.external_context ≡ true)
    × (t.stage ≡ (if is_contacted_stage row.stage then TargetStage.lost else row.stage))

-- A message stays as it was, or it is an outbound draft or approved message of a target in `gone` that
-- becomes cancelled.
abbrev pub CancelsOnly : (UserId → Type 0) → MessageRow → MessageRow → Type 0
CancelsOnly gone m n =
    (n ≡ m)
    ⊎ (gone m.target_id
        × (m.direction ≡ MessageDirection.outbound)
        × IsUnsent m.status
        × (n ≡ record m { status = MessageStatus.cancelled }))

cancel_message-CancelsOnly :
    (id : UserId) (m : MessageRow) → CancelsOnly (λ k. k ≡ id) m (cancel_message id m)
unfolding cancel_message
cancel_message-CancelsOnly id m = elim (Bool-cases (m.target_id == id)) [
  | inr n ↦ inl (ground (arith, n))
  | inl e ↦ elim (outbound_cases m.direction) [
    | inr d ↦ inl (ground (arith, ap is_outbound d))
    | inl d ↦ elim (Bool-cases (is_cancelable_status m.status)) [
      | inr u ↦ inl (ground (arith, u))
      | inl u ↦ inr (
        (==_iff m.target_id id).0 e,
        d,
        cancelable_unsent m.status u,
        ground (arith, e, u, ap is_outbound d),
      )
    ]
  ]
]
  where
    outbound_cases :
        (d : MessageDirection) → (d ≡ MessageDirection.outbound) ⊎ (d ≡ MessageDirection.inbound)
    outbound_cases MessageDirection.outbound = inl refl
    outbound_cases MessageDirection.inbound = inr refl

All-map_of {ℓ κ} :
    {A : Type ℓ} (P : A → Type κ) (f : A → A) (xs : List A)
    → ((a : A) → P a → P (f a))
    → All P xs
    → All P (map f xs)
All-map_of P f [] h k = tt
All-map_of P f (x ∷ xs) h k = (h x k.0, All-map_of P f xs h k.1)

attempt_next :
    (id : UserId) (f : Store → Option Store) (s t : Store)
    → f s ≡ some t
    → attempt id f s ≡ (returned tt, t)
attempt_next id f s t h = rw (attempt, h)

-- The row as a removal leaves it.
removed_row : TargetRow → Bool → TargetRow
removed_row row is_lost = record row {
  stage = if is_lost then TargetStage.lost else row.stage;
  external_context = ("removed", json_flag true) ∷ row.external_context;
}

with_target : Store → TargetRow → Store
with_target s row = record s { targets = set_row (λ r. r.id) row s.targets }

context_found :
    (s : Store) (id : UserId) (t : TargetRow) (context : List (String × Json))
    → find_target s id ≡ some t
    → set_external_context s id context
      ≡ some (with_target s (record t { external_context = context }))
unfolding set_external_context with_target
context_found s id t context h = rw (set_external_context, h)

-- The last two writes.
marked_eq :
    (now : Time) (event : EventKind) (row cur : TargetRow) (s : Store)
    → find_target s row.id ≡ some cur
    → (attempt row.id (λ u.
            set_external_context u row.id (("removed", json_flag true) ∷ row.external_context))
          >> (λ u. (returned tt, record_event u now event none)))
        s
      ≡ (
        returned tt,
        record_event
            (with_target s (record cur {
              external_context = ("removed", json_flag true) ∷ row.external_context;
            }))
            now
            event
            none,
      )
marked_eq now event row cur s h =
    let context = ("removed", json_flag true) ∷ row.external_context in
    let s1 = with_target s (record cur { external_context = context }) in
    then_eq (attempt row.id (λ u. set_external_context u row.id context))
      (λ u. (returned tt, record_event u now event none)) s s1 tt
      (returned tt, record_event s1 now event none)
      (attempt_next row.id (λ u. set_external_context u row.id context) s s1
        (context_found s row.id cur context h))
      refl

-- What one round of the loop leaves: the funnel without the target, its row, and the event.
pub removed_store : Time → String → EventKind → TargetRow → Bool → Store → Store
removed_store now reason event row false s =
    record_event
      (with_target (exclude_target_from_funnel s row.id (removed_by_operator reason))
        (removed_row row false))
      now event none
removed_store now reason event row true s =
    record_event
      (with_target
        (with_target (exclude_target_from_funnel s row.id (removed_by_operator reason))
          (record row { stage = TargetStage.lost }))
        (removed_row row true))
      now event none

pub remove_one_eq :
    (now : Time) (reason : String) (is_lost : Bool) (row : TargetRow) (event : EventKind)
    (s : Store)
    → find_target s row.id ≡ some row
    → remove_one now reason is_lost row event s
      ≡ (returned tt, removed_store now reason event row is_lost s)
unfolding remove_one removed_store removed_row exclude_target_from_funnel stop_funnel find_target
    with_target
remove_one_eq now reason false row event s h =
    marked_eq now event row row (exclude_target_from_funnel s row.id (removed_by_operator reason)) h
remove_one_eq now reason true row event s h =
    let s0 = exclude_target_from_funnel s row.id (removed_by_operator reason) in
    let s1 = with_target s0 (record row { stage = TargetStage.lost }) in
    let s2 = with_target s1 (removed_row row true) in
    let context = ("removed", json_flag true) ∷ row.external_context in
    let move = attempt row.id (λ u. set_stage u row.id TargetStage.lost) in
    let put = attempt row.id (λ u. set_external_context u row.id context) in
    then_eq (move >> put) (λ u. (returned tt, record_event u now event none)) s0 s2 tt
      (returned tt, record_event s2 now event none)
      (then_eq move put s0 s1 tt (returned tt, s2)
        (attempt_next row.id (λ u. set_stage u row.id TargetStage.lost) s0 s1
          (stage_found s0 row.id row TargetStage.lost h))
        (attempt_next row.id (λ u. set_external_context u row.id context) s1 s2
          (context_found s1 row.id (record row { stage = TargetStage.lost }) context
            (find_after_stage s0 row.id row TargetStage.lost h))))
      refl

module _ (now : Time) (reason : String) (event : EventKind) (row : TargetRow) where
  found_self :
      (b : Bool) (s : Store)
      → find_target (removed_store now reason event row b s) row.id ≡ some (removed_row row b)
  unfolding removed_store with_target find_target record_event removed_row
      exclude_target_from_funnel stop_funnel
  found_self false s = find_row-set_row_self (λ r. r.id) (removed_row row false) s.targets
  found_self true s =
      find_row-set_row_self (λ r. r.id) (removed_row row true)
        (set_row (λ r. r.id) (record row { stage = TargetStage.lost }) s.targets)

  pub found_other :
      (b : Bool) (s : Store) (other : UserId)
      → (row.id == other) ≡ false
      → find_target (removed_store now reason event row b s) other ≡ find_target s other
  unfolding removed_store with_target find_target record_event removed_row
      exclude_target_from_funnel stop_funnel
  found_other false s other h =
      ground (arith, h, find_row-set_row (λ r. r.id) other (removed_row row false) s.targets)
  found_other true s other h = ground (
    arith,
    h,
    find_row-set_row (λ r. r.id) other (removed_row row true)
        (set_row (λ r. r.id) (record row { stage = TargetStage.lost }) s.targets),
    find_row-set_row (λ r. r.id) other (record row { stage = TargetStage.lost }) s.targets,
  )

  cursors_of :
      (b : Bool) (s : Store)
      → (removed_store now reason event row b s).progress
        ≡ map (stop_cursor row.id (removed_by_operator reason) ProgressState.skipped) s.progress
  unfolding removed_store with_target record_event exclude_target_from_funnel stop_funnel
  cursors_of false s = refl
  cursors_of true s = refl

  messages_of :
      (b : Bool) (s : Store)
      → (removed_store now reason event row b s).messages ≡ map (cancel_message row.id) s.messages
  unfolding removed_store with_target record_event exclude_target_from_funnel stop_funnel
  messages_of false s = refl
  messages_of true s = refl

  pub IsRemoved-self :
      (s : Store)
      → IsRemoved row (removed_store now reason event row (is_contacted_stage row.stage) s)
  unfolding IsRemoved removed_row removed_flag stop_funnel is_active_progress
  IsRemoved-self s =
      let b = is_contacted_stage row.stage in
      let l = stop_funnel_lem row.id (removed_by_operator reason) ProgressState.skipped refl s in
      (
        subst (All (IsStopped row.id)) (sym (cursors_of b s)) l.0,
        subst (All (IsSilent row.id)) (sym (messages_of b s)) l.1,
        removed_row row b,
        found_self b s,
        refl,
        refl,
      )

  -- A round cancels messages of its own target only.
  pub removed_store-CancelsOnly :
      (b : Bool) (s : Store)
      → Pairs
          (CancelsOnly (λ k. k ≡ row.id))
          s.messages
          (removed_store now reason event row b s).messages
  removed_store-CancelsOnly b s =
      subst (Pairs (CancelsOnly (λ k. k ≡ row.id)) s.messages) (sym (messages_of b s)) (
        Pairs-map (CancelsOnly (λ k. k ≡ row.id)) (cancel_message row.id) s.messages
          (cancel_message-CancelsOnly row.id))

  kept-IsStopped :
      (o : UserId) (p : TargetProgressRow)
      → IsStopped o p
      → IsStopped o (stop_cursor row.id (removed_by_operator reason) ProgressState.skipped p)
  unfolding stop_cursor is_active_progress
  kept-IsStopped o p h e = ground (arith, h, e)

  kept-IsSilent :
      (o : UserId) (m : MessageRow) → IsSilent o m → IsSilent o (cancel_message row.id m)
  unfolding cancel_message is_cancelable_status
  kept-IsSilent o m h e k = ground (arith, h, e, k)

  pub IsRemoved-kept :
      (o : TargetRow) (b : Bool) (s : Store)
      → (row.id == o.id) ≡ false
      → IsRemoved o s
      → IsRemoved o (removed_store now reason event row b s)
  unfolding IsRemoved
  IsRemoved-kept o b s n (c, m, t, f, g, h) = (
    subst (All (IsStopped o.id)) (sym (cursors_of b s)) (
        All-map_of (IsStopped o.id)
          (stop_cursor row.id (removed_by_operator reason) ProgressState.skipped) s.progress
          (kept-IsStopped o.id) c),
    subst (All (IsSilent o.id)) (sym (messages_of b s))
        (All-map_of (IsSilent o.id) (cancel_message row.id) s.messages (kept-IsSilent o.id) m),
    t,
    found_other b s o.id n ∙ f,
    g,
    h,
  )
