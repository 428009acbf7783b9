-- ===== src/Acceptance/Laws.antt =====
-- What a release does to the cursors and to the count of outstanding invites.
use linkedin_outreach_agent.Prelude.{
  ◌≡◌, refl, sym, ap, ◌∙◌, subst, ◌⊎◌, inl, inr, Option, none, some, List, find_row, set_row,
  Option-cases, arith,
}
use linkedin_outreach_agent.Domain.{
  UserId, Time, Text, TargetRow, TargetProgressRow, TargetStage, AccountSchedule, ActionType,
  CampaignStepRow,
}
use linkedin_outreach_agent.Counters.Live.{release_invite}
use linkedin_outreach_agent.Dispatch.Advance.{advance_after_step}
use linkedin_outreach_agent.Dispatch.World.{next_action_type}
use linkedin_outreach_agent.Effects.{
  Step, Answer, Answer-cases, Failure, returned, threw, not_found, bind_cases, then_eq, bind_eq,
  then_stop_eq, bind_stop_eq, ret, ◌>>=◌, ◌>>◌,
}
use linkedin_outreach_agent.Store.{Store}
use linkedin_outreach_agent.Store.Sequence.{
  Patch, find_progress, apply_patch, advance_target_progress, enabled_steps, list_campaign_steps,
}
use linkedin_outreach_agent.Store.Tables.{find_target, set_stage, merge_external_context}
use linkedin_outreach_agent.Store.Lookups.{find_after_stage, patch_found, stage_found}
use linkedin_outreach_agent.Acceptance.{
  AcceptedConnection, AcceptanceOutcome, Network, AcceptanceDeps, find_accepted, lead_name, change,
  look, invite_accepted, refresh_truncated_name, accepted_schedule, leave_parked, accept, release,
  name_or, outcome_of, step_or_zero, still_waiting,
}

stage_absent :
    (s : Store) (id : UserId)
    → find_target s id ≡ none
    → set_stage s id TargetStage.connected ≡ none
unfolding set_stage
stage_absent s id h = rw (set_stage, h)

module _ {O : Type 0} where
  -- The cursors, the step templates and the count are as before.
  abbrev pub SameCursors : Network O → Network O → Type 0
  SameCursors w w1 =
      (w1.store.progress ≡ w.store.progress)
      × (w1.store.steps ≡ w.store.steps)
      × (w1.outstanding ≡ w.outstanding)

  SameCursors-trans : (u v w : Network O) → SameCursors u v → SameCursors v w → SameCursors u w
  SameCursors-trans u v w h k = (k.0 ∙ h.0, k.1 ∙ h.1, k.2 ∙ h.2)

  change_next :
      (id : UserId) (f : Store → Option Store) (w : Network O) (s : Store)
      → f w.store ≡ some s
      → change id f w ≡ (returned tt, record w { store = s })
  change_next id f w s h = rw (change, h)

  change_stop :
      (id : UserId) (f : Store → Option Store) (w : Network O)
      → f w.store ≡ none
      → change id f w ≡ (threw (not_found id), w)
  change_stop id f w h = rw (change, h)

  -- The write of the stage, with the read of the steps behind it.
  staged : UserId → UserId → Step (Network O) (List CampaignStepRow)
  staged target campaign =
      change target (λ s. set_stage s target TargetStage.connected)
      >> look (λ s. enabled_steps s campaign)

  abbrev with_stage : Network O → TargetRow → Network O
  with_stage w t = record w {
    store = record w.store {
      targets = set_row (λ r. r.id) (record t { stage = TargetStage.connected }) w.store.targets;
    };
  }

  staged_cases :
      (target campaign : UserId) (w : Network O)
      → (staged target campaign w ≡ (threw (not_found target), w))
        ⊎ ((t : TargetRow) × (find_target w.store target ≡ some t)
            × (staged target campaign w
                ≡ (returned (enabled_steps w.store campaign), with_stage w t)))
  unfolding staged enabled_steps list_campaign_steps
  staged_cases target campaign w = elim (Option-cases (find_target w.store target)) [
    | inl h ↦ inl (
        then_stop_eq (change target (λ s. set_stage s target TargetStage.connected))
          (look (λ s. enabled_steps s campaign)) w w (not_found target)
          (change_stop target (λ s. set_stage s target TargetStage.connected) w
            (stage_absent w.store target h)))
    | inr (t, h) ↦ inr (
      t,
      h,
      then_eq (change target (λ s. set_stage s target TargetStage.connected))
          (look (λ s. enabled_steps s campaign)) w (with_stage w t) tt
          (returned (enabled_steps w.store campaign), with_stage w t)
          (change_next target (λ s. set_stage s target TargetStage.connected) w
            (with_stage w t).store (stage_found w.store target t TargetStage.connected h))
          refl,
    )
  ]

  module _ (deps : AcceptanceDeps O) (now : Time) where
    refresh-SameCursors :
        (t : TargetRow) (c : AcceptedConnection) (account : UserId) (w : Network O)
        → SameCursors w (refresh_truncated_name deps t c account w).1
    unfolding refresh_truncated_name merge_external_context
    refresh-SameCursors t c account w = (ground arith, ground arith, ground arith)

    -- A schedule is read outside.
    schedule_store :
        (account : UserId) (action : Option ActionType) (w : Network O)
        → let w1 = (accepted_schedule deps account action w).1 in
          (w1.store ≡ w.store) × (w1.outstanding ≡ w.outstanding)
    unfolding accepted_schedule
    schedule_store account action w = (ground arith, ground arith)

    -- The patch that lets the cursor `p` go.
    abbrev pub go_on : TargetProgressRow → AccountSchedule → Network O → Patch
    go_on p schedule w =
        advance_after_step deps.zone (enabled_steps w.store p.campaign_id) p.current_step now
          schedule

    -- The schedule is one that was read for the action behind the cursor's step.
    abbrev pub WasRead : TargetProgressRow → AccountSchedule → List CampaignStepRow → Type 0
    WasRead p schedule steps =
        (v : Network O) × ((accepted_schedule deps p.account_id
            (next_action_type steps p.current_step) v).0
          ≡ returned schedule)

    -- What a release of `p` in the state `w` has behind it, and what it leaves: the target was found
    -- and matches a connection that was read, it has the stage connected, the cursor is patched to
    -- the step behind the connect, and one invite less is outstanding.
    unfoldable pub Patched :
        TargetProgressRow
        → List AcceptedConnection
        → Network O
        → Answer AcceptanceOutcome × Network O
        → Type 0
    Patched p connections w r =
        (t : TargetRow) × (c : AcceptedConnection) × (schedule : AccountSchedule) × (t1 : TargetRow)
        × (name : Option Text) × (find_target w.store p.target_id ≡ some t)
        × (find_accepted deps.unicode connections t ≡ returned (some c))
        × (find_target r.1.store p.target_id ≡ some t1)
        × (t1.stage ≡ TargetStage.connected)
        × (r.0
            ≡ returned (
                outcome_of deps p t name (go_on p schedule w).state
                  (step_or_zero deps (go_on p schedule w).current_step)))
        × (r.1.store.progress
            ≡ set_row (λ r. r.id) (apply_patch (go_on p schedule w) p) w.store.progress)
        × (r.1.outstanding ≡ release_invite p.account_id w.outstanding)
        × WasRead p schedule (enabled_steps w.store p.campaign_id)

    -- Why a cursor stays: an exception, or its target is not there or matches no connection.
    unfoldable pub Stays :
        TargetProgressRow → List AcceptedConnection → Network O → Answer AcceptanceOutcome → Type 0
    Stays p connections w a =
        ((e : Failure) × (a ≡ threw e))
        ⊎ ((a ≡ returned (still_waiting p.id))
            × ((find_target w.store p.target_id ≡ none)
                ⊎ ((t : TargetRow) × (find_target w.store p.target_id ≡ some t)
                    × (find_accepted deps.unicode connections t ≡ returned none))))

    abbrev with_cursor : TargetProgressRow → Patch → Network O → Network O
    with_cursor p patch w = record w {
      store = record w.store {
        progress = set_row (λ r. r.id) (apply_patch patch p) w.store.progress;
      };
    }

    -- The end: the patch is written on the cursor that the pass read.
    leave_eq :
        (p : TargetProgressRow) (t : TargetRow) (name : Option Text) (patch : Patch) (w : Network O)
        → find_progress w.store p.id ≡ some p
        → leave_parked deps p t name patch w ≡ (
          returned (outcome_of deps p t name patch.state (step_or_zero deps patch.current_step)),
          (invite_accepted p.account_id (with_cursor p patch w)).1,
        )
    unfolding leave_parked invite_accepted
    leave_eq p t name patch w h =
        let write = change p.id (λ s. advance_target_progress s p.id patch) in
        let w1 = with_cursor p patch w in
        let w2 = (invite_accepted p.account_id w1).1 in
        let o =
          returned (outcome_of deps p t name patch.state (step_or_zero deps patch.current_step)) in
        then_eq (write >> invite_accepted p.account_id)
          (ret (outcome_of deps p t name patch.state (step_or_zero deps patch.current_step))) w w2
          tt (o, w2)
          (then_eq write (invite_accepted p.account_id) w w1 tt (returned tt, w2)
            (change_next p.id (λ s. advance_target_progress s p.id patch) w w1.store
              (patch_found w.store p.id p patch h))
            refl)
          refl

    -- What one release can do: it leaves the cursors and the count alone, or it is a release.
    unfoldable pub Handled :
        TargetProgressRow
        → List AcceptedConnection
        → Network O
        → Answer AcceptanceOutcome × Network O
        → Type 0
    unfolding Stays Patched
    Handled p connections w r =
        (SameCursors w r.1 × Stays p connections w r.0) ⊎ Patched p connections w r

    module _ (p : TargetProgressRow) (connections : List AcceptedConnection) (t : TargetRow)
        (c : AcceptedConnection) (w : Network O) (parked : find_progress w.store p.id ≡ some p)
        (target : find_target w.store p.target_id ≡ some t)
        (matched : find_accepted deps.unicode connections t ≡ returned (some c)) where
      -- Behind the schedule, nothing can throw any more.
      left :
          (name : Option Text) (schedule : AccountSchedule) (t1 : TargetRow) (w1 w3 : Network O)
          → SameCursors w w1
          → (w3.store ≡ (with_stage w1 t1).store)
          → (w3.outstanding ≡ w1.outstanding)
          → find_target w1.store p.target_id ≡ some t1
          → WasRead p schedule (enabled_steps w1.store p.campaign_id)
          → Handled p connections w (leave_parked deps p t name (go_on p schedule w1) w3)
      unfolding enabled_steps list_campaign_steps Handled Patched find_progress find_target
          invite_accepted
      left name schedule t1 w1 w3 h k l f was =
          let rows : (w3.store.progress ≡ w.store.progress) = ap (λ s. s.progress) k ∙ h.0 in
          let steps : (go_on p schedule w1 ≡ go_on p schedule w) =
            ap (λ q. go_on p schedule (record w { store = record w.store { steps = q } })) h.1 in
          subst (Handled p connections w)
            (sym (
              leave_eq p t name (go_on p schedule w1) w3
                (subst (λ ps. find_row (λ r. r.id) p.id ps ≡ some p) (sym rows) parked)))
            (inr (
              t,
              c,
              schedule,
              record t1 { stage = TargetStage.connected },
              name,
              target,
              matched,
              ap (λ s. find_row (λ r. r.id) p.target_id s.targets) k
                  ∙ find_after_stage w1.store p.target_id t1 TargetStage.connected f,
              refl,
              ap
                  (λ q.
                    returned (outcome_of deps p t name q.state (step_or_zero deps q.current_step)))
                  steps,
              ap (λ q. set_row (λ r. r.id) (apply_patch q p) w3.store.progress) steps
                  ∙ ap (set_row (λ r. r.id) (apply_patch (go_on p schedule w) p)) rows,
              ap (release_invite p.account_id) (l ∙ h.2),
              subst
                  (λ q.
                    WasRead p schedule (enabled_steps (record w.store { steps = q }) p.campaign_id))
                  h.1 was,
            ))

      abbrev on_steps : Option Text → List CampaignStepRow → Step (Network O) AcceptanceOutcome
      on_steps name steps =
          accepted_schedule deps p.account_id (next_action_type steps p.current_step)
          >>= λ schedule.
              leave_parked deps p t (name_or deps name (lead_name t))
                (advance_after_step deps.zone steps p.current_step now schedule)

      on_steps-Handled :
          (name : Option Text) (t1 : TargetRow) (w1 : Network O)
          → SameCursors w w1
          → find_target w1.store p.target_id ≡ some t1
          → Handled p connections w
              (on_steps name (enabled_steps w1.store p.campaign_id) (with_stage w1 t1))
      unfolding Handled Stays
      on_steps-Handled name t1 w1 h f =
          let steps = enabled_steps w1.store p.campaign_id in
          let action = next_action_type steps p.current_step in
          let s = schedule_store p.account_id action (with_stage w1 t1) in
          bind_cases (accepted_schedule deps p.account_id action)
            (λ schedule.
              leave_parked deps p t (name_or deps name (lead_name t))
                (advance_after_step deps.zone steps p.current_step now schedule))
            (with_stage w1 t1) (Handled p connections w)
            (λ e k. inl (
              (ap (λ q. q.progress) s.0 ∙ h.0, ap (λ q. q.steps) s.0 ∙ h.1, s.1 ∙ h.2),
              inl (e, refl),
            ))
            (λ schedule k.
              left (name_or deps name (lead_name t)) schedule t1 w1
                (accepted_schedule deps p.account_id action (with_stage w1 t1)).1 h s.0 s.1 f
                (with_stage w1 t1, k))

      on_name-Handled :
          (name : Option Text) (w1 : Network O)
          → SameCursors w w1
          → Handled p connections w ((staged p.target_id p.campaign_id >>= on_steps name) w1)
      unfolding Handled Stays
      on_name-Handled name w1 h = elim (staged_cases p.target_id p.campaign_id w1) [
        | inl e ↦
            subst (Handled p connections w)
              (sym (
                bind_stop_eq (staged p.target_id p.campaign_id) (on_steps name) w1 w1
                  (not_found p.target_id) e))
              (inl (h, inl (not_found p.target_id, refl)))
        | inr (t1, f, e) ↦
            subst (Handled p connections w)
              (sym (
                bind_eq (staged p.target_id p.campaign_id) (on_steps name) w1 (with_stage w1 t1)
                  (enabled_steps w1.store p.campaign_id)
                  (on_steps name (enabled_steps w1.store p.campaign_id) (with_stage w1 t1)) e refl))
              (on_steps-Handled name t1 w1 h f)
      ]

      accept-Handled : Handled p connections w (accept deps p t c now w)
      unfolding accept Handled Stays staged
      accept-Handled =
          bind_cases (refresh_truncated_name deps t c p.account_id)
            (λ name. staged p.target_id p.campaign_id >>= on_steps name) w (Handled p connections w)
            (λ e h. inl (refresh-SameCursors t c p.account_id w, inl (e, refl)))
            (λ name h.
              on_name-Handled name (refresh_truncated_name deps t c p.account_id w).1
                (refresh-SameCursors t c p.account_id w))

    module _ (p : TargetProgressRow) (connections : List AcceptedConnection) (w : Network O)
        (parked : find_progress w.store p.id ≡ some p) where
      stay :
          (a : Answer AcceptanceOutcome)
          → Stays p connections w a
          → release deps p connections now w ≡ (a, w)
          → Handled p connections w (release deps p connections now w)
      unfolding Handled Stays
      stay a h e = subst (Handled p connections w) (sym e) (inl ((refl, refl, refl), h))

      waits : Answer AcceptanceOutcome
      waits = returned (still_waiting p.id)

      went :
          (t : TargetRow) (c : AcceptedConnection)
          → find_target w.store p.target_id ≡ some t
          → find_accepted deps.unicode connections t ≡ returned (some c)
          → release deps p connections now w ≡ accept deps p t c now w
      unfolding release
      went t c h k = rw (release, h, k)

      -- A release leaves the cursors and the count alone, or it writes the patch of `go_on`.
      pub release-Handled : Handled p connections w (release deps p connections now w)
      unfolding release Stays waits
      release-Handled = elim (Option-cases (find_target w.store p.target_id)) [
        | inl h ↦ stay waits (inr (refl, inl h)) (rw (release, h))
        | inr (t, h) ↦ elim (Answer-cases (find_accepted deps.unicode connections t)) [
          | inr (e, k) ↦ stay (threw e) (inl (e, refl)) (rw (release, h, k))
          | inl (found, k) ↦ elim (Option-cases found) [
            | inl n ↦ stay waits (inr (refl, inr (t, h, k ∙ ap returned n))) (rw (release, h, k, n))
            | inr (c, n) ↦
                subst (Handled p connections w) (sym (went t c h (k ∙ ap returned n)))
                  (accept-Handled p connections t c w parked h (k ∙ ap returned n))
          ]
        ]
      ]
