-- ===== src/Acceptance/Onward.antt =====
-- Where a cursor stands after its invite was accepted (runtime/src/dispatch/acceptance-tick.ts).
use mathlib.Core.Option.{some-injective}
use linkedin_outreach_agent.Prelude.{
  ◌+◌, ◌-◌, ◌≡◌, refl, sym, ap, ◌∙◌, ◌⊎◌, inl, inr, Option, none, some, List, ◌==◌, ==_iff,
  if◌then◌else◌, get_elem?, get_or, set_row, Bool-cases, Option-cases,
}
use linkedin_outreach_agent.Domain.{
  UserId, Time, Text, AccountSchedule, CampaignStepRow, ProgressState, TargetProgressRow, TargetRow,
  TargetStage,
}
use linkedin_outreach_agent.Calendar.{Zone}
use linkedin_outreach_agent.Counters.Live.{Outstanding, outstanding_invites, release_invite}
use linkedin_outreach_agent.Dispatch.Advance.{due_after_delay, advance_onto, advance_after_step}
use linkedin_outreach_agent.Effects.{Answer, returned}
use linkedin_outreach_agent.Store.Sequence.{apply_patch, find_progress, enabled_steps}
use linkedin_outreach_agent.Store.Tables.{find_target}
use linkedin_outreach_agent.Acceptance.{
  AcceptedConnection, AcceptanceOutcome, Network, AcceptanceDeps, connected, completed,
  find_accepted, release,
}
use linkedin_outreach_agent.Acceptance.Laws.{
  SameCursors, Stays, Patched, Handled, WasRead, release-Handled,
}

-- The cursor `q` is the cursor `p` one step on at `now`: with the step behind it in progress and due
-- after that step's delay, or completed when no step is left.
pub record Onward (z : Zone) (now : Time) (steps : List CampaignStepRow)
    (schedule : AccountSchedule) (p q : TargetProgressRow) : Type 0 where
  pub same_id : q.id ≡ p.id
  pub same_campaign : q.campaign_id ≡ p.campaign_id
  pub same_target : q.target_id ≡ p.target_id
  pub same_account : q.account_id ≡ p.account_id
  pub passed : q.current_step ≡ p.current_step + 1
  pub started : q.last_step_at ≡ some now
  pub cleared : q.error_message ≡ none
  pub over :
      get_elem? steps (p.current_step + 1) ≡ none
      → (q.state ≡ ProgressState.completed) × (q.next_step_at ≡ none)
  pub ahead :
      (next : CampaignStepRow)
      → get_elem? steps (p.current_step + 1) ≡ some next
      → (q.state ≡ ProgressState.in_progress)
        × (q.next_step_at ≡ due_after_delay z now next.delay_seconds schedule)

advance-Onward :
    (z : Zone) (now : Time) (steps : List CampaignStepRow) (schedule : AccountSchedule)
    (p : TargetProgressRow)
    → Onward z now steps schedule p
        (apply_patch (advance_after_step z steps p.current_step now schedule) p)
unfolding apply_patch advance_after_step advance_onto
advance-Onward z now steps schedule p = elim (Option-cases (get_elem? steps (p.current_step + 1))) [
  | inl e ↦ rw e (record {
    same_id = refl;
    same_campaign = refl;
    same_target = refl;
    same_account = refl;
    passed = refl;
    started = refl;
    cleared = refl;
    over = λ h. (refl, refl);
    ahead = λ next h. absurd (cc (e, h));
  })
  | inr (step, e) ↦ rw e (record {
    same_id = refl;
    same_campaign = refl;
    same_target = refl;
    same_account = refl;
    passed = refl;
    started = refl;
    cleared = refl;
    over = λ h. absurd (cc (e, h));
    ahead = λ next h. (
      refl,
      ap (λ x. due_after_delay z now x.delay_seconds schedule)
          (some-injective step next (sym e ∙ h)),
    );
  })
]

released_pile :
    (account other : UserId) (w : Outstanding)
    → outstanding_invites other (release_invite account w)
      ≡ (if other == account then outstanding_invites other w - 1 else outstanding_invites other w)
unfolding outstanding_invites release_invite
released_pile account other w = elim (Bool-cases (other == account)) [
  | inl e ↦ rw e (ap (λ i. get_or (w i) 0 - 1) (sym ((==_iff other account).0 e)))
  | inr e ↦ rw e refl
]

module _ {O : Type 0} (deps : AcceptanceDeps O) (now : Time) (p : TargetProgressRow)
    (connections : List AcceptedConnection) (w : Network O) where
  -- The enabled steps of the cursor's campaign.
  abbrev steps : List CampaignStepRow
  steps = enabled_steps w.store p.campaign_id

  -- The cursor was let go.
  pub record Released (r : Answer AcceptanceOutcome × Network O) : Type 0 where
    pub target : TargetRow
    pub accepted : AcceptedConnection
    pub schedule : AccountSchedule
    pub moved : TargetRow
    pub cursor : TargetProgressRow
    pub name : Option Text
    pub found : find_target w.store p.target_id ≡ some target
    pub matched : find_accepted deps.unicode connections target ≡ returned (some accepted)
    pub kept : find_target r.1.store p.target_id ≡ some moved
    pub stage : moved.stage ≡ TargetStage.connected
    pub was_read : WasRead deps now p schedule steps
    pub onward : Onward deps.zone now steps schedule p cursor
    pub written : r.1.store.progress ≡ set_row (λ r. r.id) cursor w.store.progress
    pub told_over :
        get_elem? steps (p.current_step + 1) ≡ none
        → r.0 ≡ returned (completed target.id p.id p.account_id p.campaign_id name)
    pub told_ahead :
        (next : CampaignStepRow)
        → get_elem? steps (p.current_step + 1) ≡ some next
        → r.0
          ≡ returned (connected target.id p.id (p.current_step + 1) p.account_id p.campaign_id name)
    pub fewer :
        (other : UserId)
        → outstanding_invites other r.1.outstanding ≡ (
            if other == p.account_id
            then outstanding_invites other w.outstanding - 1
            else outstanding_invites other w.outstanding)

  -- The cursor was let go, or nothing has moved.
  abbrev pub Settled : Answer AcceptanceOutcome × Network O → Type 0
  Settled r = (SameCursors w r.1 × Stays deps now p connections w r.0) ⊎ Released r

  handled-Settled :
      (r : Answer AcceptanceOutcome × Network O) → Handled deps now p connections w r → Settled r
  unfolding Handled Patched advance_after_step advance_onto
  handled-Settled r (inl h) = inl h
  handled-Settled r
        (inr (t, c, schedule, t1, name, found, matched, kept, stage, told, rows, count, was)) =
      let patch = advance_after_step deps.zone steps p.current_step now schedule in
      inr (record {
        target = t;
        accepted = c;
        schedule = schedule;
        moved = t1;
        cursor = apply_patch patch p;
        name = name;
        found = found;
        matched = matched;
        kept = kept;
        stage = stage;
        was_read = was;
        onward = advance-Onward deps.zone now steps schedule p;
        written = rows;
        told_over = λ e. told ∙ rw e refl;
        told_ahead = λ next e. told ∙ rw e refl;
        fewer = λ other.
            ap (outstanding_invites other) count ∙ released_pile p.account_id other w.outstanding;
      })

  -- A parked cursor is let go exactly when its target is among the account's connections and no port
  -- throws. Then the target is connected, and the cursor is on the step behind the connect, its clock
  -- started at the acceptance: in progress, and due after the delay of that step by the schedule that
  -- was read for it, or completed if no step is left; the outcome says which, and one invite less is
  -- outstanding for the account. In every other case, an exception included, no cursor and no count
  -- has moved, and the answer is that the cursor waits, or the exception.
  pub release-Settled :
      find_progress w.store p.id ≡ some p → Settled (release deps p connections now w)
  release-Settled h =
      handled-Settled (release deps p connections now w)
        (release-Handled deps now p connections w h)
