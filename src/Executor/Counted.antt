-- ===== src/Executor/Counted.antt =====
-- The weekly counter over an execution (runtime/src/executor/account-runner-executor.ts): it counts
-- what a restart would count.
use linkedin_outreach_agent.Prelude.{
  ◌+◌, true, false, ◌≡◌, refl, sym, ap, ◌∙◌, none, some, List, find_row-set_row_self,
  delete_row-set_row, Bool-cases, Option-cases, inl, inr, arith, includes,
}
use linkedin_outreach_agent.Domain.{
  UserId, Time, ActionType, ActionRow, ActionResult, same_type_sound, TargetStage, ProgressState,
}
use linkedin_outreach_agent.Effects.{Answer, returned, threw, Answer-cases}
use linkedin_outreach_agent.Store.{Store, next_id}
use linkedin_outreach_agent.Store.Tables.{
  find_action, create_action, delete_action, record_event, set_stage,
}
use linkedin_outreach_agent.Store.Sequence.{Patch, no_patch, advance_target_progress}
use linkedin_outreach_agent.Counters.{went_out, rehydrate, no_connects, count_invites}
use linkedin_outreach_agent.Counters.Reads.{fresh_count, count_invites-fresh_count}
use linkedin_outreach_agent.Counters.Restart.{
  total, weight, weight-waiting, weight-landed, total-set_row, total-set_row_new,
  recorded_count_any, rehydrated_count,
}
use linkedin_outreach_agent.Executor.{
  Cabin, Drive, landed, noop, refused, settle, drain, charge_invite, close_success,
  release_withdrawn_cursor, is_withdrawal, is_connect_type, parked_cursor,
}
use linkedin_outreach_agent.Executor.Laws.{
  Call, run, made, driven, run_one_cases, ended, ended_store, crash_eq, end_without_eq, succeed_eq,
  finished,
}

abbrev withdrawn_patch : Patch
withdrawn_patch = record no_patch { state = some ProgressState.withdrawn; next_step_at = some none }

-- The weekly counter counts for the accounts what the store has.
record IsTallied (O : Type 0) (ids : List UserId) (w : Cabin O) : Type 0 where
  pub counts :
      (now : Time) (account : UserId)
      → includes ids account ≡ true
      → fresh_count now (w.weekly account) ≡ total now account w.store.actions

set_stage-actions :
    (s t : Store) (id : UserId) (stage : TargetStage)
    → set_stage s id stage ≡ some t
    → t.actions ≡ s.actions
unfolding set_stage
set_stage-actions s t id stage h = ground arith

advance-actions :
    (s t : Store) (id : UserId) (patch : Patch)
    → advance_target_progress s id patch ≡ some t
    → t.actions ≡ s.actions
unfolding advance_target_progress
advance-actions s t id patch h = ground arith

release-actions :
    (s : Store) (target : UserId) → (release_withdrawn_cursor target s).1.actions ≡ s.actions
unfolding release_withdrawn_cursor
release-actions s target = elim (Option-cases (parked_cursor s target)) [
  | inl e ↦ rw (release_withdrawn_cursor, e)
  | inr (p, e) ↦ elim (Option-cases (set_stage s target TargetStage.lost)) [
    | inl f ↦ rw (release_withdrawn_cursor, e, f)
    | inr (s1, f) ↦ elim (Option-cases (advance_target_progress s1 p.id withdrawn_patch)) [
      | inl g ↦
          rw (release_withdrawn_cursor, e, f, g) (set_stage-actions s s1 target TargetStage.lost f)
      | inr (s2, g) ↦
          rw (release_withdrawn_cursor, e, f, g)
            (advance-actions s1 s2 p.id withdrawn_patch g
              ∙ set_stage-actions s s1 target TargetStage.lost f)
    ]
  ]
]

module _ {O : Type 0} (c : Call O) where
  open c use {deps, scheduled, reserved, done, type, account, target, campaign, body, cabin as w}

  pub drain-Same :
      (row : ActionRow) (v : Cabin O)
      → ((drain deps scheduled reserved done row v).1.weekly ≡ v.weekly)
        × ((drain deps scheduled reserved done row v).1.store.actions ≡ v.store.actions)
  unfolding drain
  drain-Same row v = elim (Bool-cases (is_withdrawal row.type)) [
    | inr other ↦ rw (drain, other) (refl, refl)
    | inl drains ↦ elim (Answer-cases (release_withdrawn_cursor row.target_id v.store).0) [
      | inr (e, k) ↦ rw (drain, drains, k) (refl, release-actions v.store row.target_id)
      | inl (b, k) ↦ elim (Bool-cases b) [
        | inl t ↦ rw (drain, drains, k, t) (refl, release-actions v.store row.target_id)
        | inr f ↦ rw (drain, drains, k, f) (refl, release-actions v.store row.target_id)
      ]
    ]
  ]

  pub charge-actions :
      (v : Cabin O)
      → (charge_invite deps scheduled reserved done account type v).store.actions ≡ v.store.actions
  unfolding charge_invite
  charge-actions v = ground arith

  module _ (ids : List UserId) (free : find_action w.store (next_id w.store) ≡ none)
      (counted : IsTallied O ids w) where
    total-made :
        (now : Time) (other : UserId)
        → total now other (made c).1.actions ≡ total now other w.store.actions
    unfolding create_action find_action
    total-made now other =
        total-set_row_new now other (made c).0 w.store.actions free
        ∙ omega (arith, weight-waiting now other (made c).0 refl)

    total-ended :
        (now : Time) (other : UserId) (result : ActionResult)
        → total now other (ended_store c result).actions
          ≡ total now other w.store.actions + weight now other (ended c result)
    unfolding create_action
    total-ended now other result = omega (
      arith,
      total-set_row now other (made c).0 (ended c result) (made c).1.actions
          (find_row-set_row_self (λ r. r.id) (made c).0 w.store.actions),
      total-made now other,
      weight-waiting now other (made c).0 refl,
    )

    -- A cabin with the same weekly counter and as many invitations.
    IsTallied-same :
        (v : Cabin O)
        → v.weekly ≡ w.weekly
        → ((now : Time) (other : UserId)
            → total now other v.store.actions ≡ total now other w.store.actions)
        → IsTallied O ids v
    IsTallied-same v a b = record {
      counts = λ now other h.
          ap (λ x. fresh_count now (x other)) a ∙ counted.counts now other h ∙ sym (b now other);
    }

    weight-other :
        (now : Time) (other : UserId)
        → is_connect_type type ≡ false
        → weight now other (ended c ActionResult.success) ≡ 0
    unfolding weight went_out create_action
    weight-other now other e = ground (arith, e)

    -- After a success the counter and the store have one invitation more, or none.
    charged_counts :
        (v : Cabin O) (now : Time) (other : UserId)
        → v.weekly ≡ w.weekly
        → includes ids other ≡ true
        → fresh_count now ((charge_invite deps scheduled reserved done account type v).weekly other)
          ≡ total now other w.store.actions + weight now other (ended c ActionResult.success)
    unfolding charge_invite create_action
    charged_counts v now other same listed = elim (Bool-cases (is_connect_type type)) [
      | inl e ↦ rw e (
          recorded_count_any now done v.weekly account other
          ∙ omega (
            arith,
            counted.counts now other listed,
            ap (λ x. fresh_count now (x other)) same,
            weight-landed now done other (made c).0 (same_type_sound type ActionType.connect e),
          ))
      | inr e ↦ rw e (
          omega (
            arith,
            counted.counts now other listed,
            ap (λ x. fresh_count now (x other)) same,
            weight-other now other e,
          ))
    ]

    deleted : (delete_action (made c).1 (made c).0.id).actions ≡ w.store.actions
    unfolding delete_action create_action find_action
    deleted = delete_row-set_row (λ r. r.id) (made c).0 w.store.actions free

    finished-IsTallied :
        (r : Answer (Unit {0}) × Cabin O) → IsTallied O ids r.1 → IsTallied O ids (finished c r).1
    unfolding close_success record_event
    finished-IsTallied (returned x, v) h = record { counts = h.counts }
    finished-IsTallied (threw e, v) h = h

    settled-IsTallied :
        (o : O) (d : Drive)
        → IsTallied O ids (settle deps scheduled reserved done (made c).0 d (driven c o)).1
    unfolding settle create_action record_event
    settled-IsTallied o noop = rw (end_without_eq c o ActionResult.skipped _) (
        IsTallied-same _ refl (λ now other. omega (
          arith,
          total-ended now other ActionResult.skipped,
          weight-waiting now other (ended c ActionResult.skipped) refl,
        )))
    settled-IsTallied o refused = rw (end_without_eq c o ActionResult.failed _) (
        IsTallied-same _ refl (λ now other. omega (
          arith,
          total-ended now other ActionResult.failed,
          weight-waiting now other (ended c ActionResult.failed) refl,
        )))
    settled-IsTallied o landed =
        let w1 : Cabin O = record (driven c o) { store = ended_store c ActionResult.success } in
        let charged = charge_invite deps scheduled reserved done account type w1 in
        let drained = drain-Same (made c).0 charged in
        rw (succeed_eq c o) (
          finished-IsTallied (drain deps scheduled reserved done (made c).0 charged) (record {
            counts = λ now other listed.
                ap (λ x. fresh_count now (x other)) drained.0
                ∙ charged_counts w1 now other refl listed
                ∙ sym (
                    ap (total now other) (drained.1 ∙ charge-actions w1)
                    ∙ total-ended now other ActionResult.success);
          }))

    run-IsTallied : IsTallied O ids (run c).1
    unfolding record_event
    run-IsTallied =
        run_one_cases c (λ r. IsTallied O ids r.1)
          (record {
            absent = λ e. counted;
            deferred = λ o e h. IsTallied-same _ refl (λ now other. ap (total now other) deleted);
            unminted = λ o e h. IsTallied-same _ refl total-made;
            no_page = λ o e. IsTallied-same _ refl total-made;
            crashed = λ o e. rw (crash_eq c o e) (
                IsTallied-same _ refl (λ now other. omega (
                  arith,
                  total-ended now other ActionResult.failed,
                  weight-waiting now other (ended c ActionResult.failed) refl,
                )));
            settled = settled-IsTallied;
          })

-- The running counter reads, for the accounts and at any time, what a counter reads that a restart
-- rebuilds from the store.
pub record IsCounted (O : Type 0) (ids : List UserId) (w : Cabin O) : Type 0 where
  pub agree :
      (now : Time) (account : UserId)
      → includes ids account ≡ true
      → (count_invites now account w.weekly).0
        ≡ (count_invites now account (rehydrate w.store ids no_connects)).0

IsTallied-IsCounted :
    (O : Type 0) (ids : List UserId) (w : Cabin O) → IsTallied O ids w → IsCounted O ids w
IsTallied-IsCounted O ids w h = record {
  agree = λ now account i.
      count_invites-fresh_count now account w.weekly
      ∙ h.counts now account i
      ∙ sym (
          count_invites-fresh_count now account (rehydrate w.store ids no_connects)
          ∙ rehydrated_count now w.store ids no_connects account i);
}

IsCounted-IsTallied :
    (O : Type 0) (ids : List UserId) (w : Cabin O) → IsCounted O ids w → IsTallied O ids w
IsCounted-IsTallied O ids w h = record {
  counts = λ now account i.
      sym (count_invites-fresh_count now account w.weekly)
      ∙ h.agree now account i
      ∙ count_invites-fresh_count now account (rehydrate w.store ids no_connects)
      ∙ rehydrated_count now w.store ids no_connects account i;
}

-- A restart after any run counts what the running counter counts: when the weekly counter reads for
-- the given accounts what a counter rebuilt from the store reads, it does so after a run, however
-- the run ends, for a store in which the new row's id is free.
pub run_one-IsCounted :
    {O : Type 0} (c : Call O) (ids : List UserId)
    → find_action c.cabin.store (next_id c.cabin.store) ≡ none
    → IsCounted O ids c.cabin
    → IsCounted O ids (run c).1
run_one-IsCounted {O} c ids free h =
    IsTallied-IsCounted O ids (run c).1
      (run-IsTallied c ids free (IsCounted-IsTallied O ids c.cabin h))
