-- ===== src/Enroll/Laws.antt =====
-- The enrollment of a batch: it ends, and every target of the batch is counted once.
use linkedin_outreach_agent.Prelude.{
  ℕ, String, ◌+◌, ◌*◌, ◌<◌, ◌≡◌, refl, none, some, List, [], ◌∷◌, ◌++◌, length, length-append,
  Bool-cases, Option-cases, inl, inr, arith,
}
use linkedin_outreach_agent.Domain.{
  UserId, Time, Json, day_ms, ActionType, TargetRow, external_context_attached,
}
use linkedin_outreach_agent.Calendar.{Zone}
use linkedin_outreach_agent.Effects.{Step, returned, ret, bind_eq, then_eq}
use linkedin_outreach_agent.Removal.{removed_flag}
use linkedin_outreach_agent.Store.{Store}
use linkedin_outreach_agent.Store.Tables.{find_target, merge_external_context, record_event}
use linkedin_outreach_agent.Store.Sequence.{enroll_target}
use linkedin_outreach_agent.Enroll.Slots.{enroll_stagger, schedule_of, limits_of}
use linkedin_outreach_agent.Enroll.Ready.{
  IsUsable, IsReadyStart, next_start-IsReadyStart, enroll_stagger-IsReadyStart,
}
use linkedin_outreach_agent.Enroll.{
  Enricher, Batch, claim, enroll_one, enroll_on, enroll_targets, EnrollResult, result_of,
  company_patch, first_batch, contacted_elsewhere, enrich_target, attach_external_context,
  is_verified,
}

-- How many targets of a batch are accounted for.
abbrev pub counted : Batch → ℕ
counted b = length b.progress_ids + b.skipped_removed + b.skipped_cross_campaign

attach_external_context-returns :
    (now : Time) (id : UserId) (patch : List (String × Json)) (target : TargetRow) (s : Store)
    → find_target s id ≡ some target
    → (t : Store) × (attach_external_context now id patch s ≡ (returned tt, t))
unfolding attach_external_context merge_external_context
attach_external_context-returns now id patch target s h =
    elim (Option-cases (merge_external_context s id patch)) [
      | inl e ↦ absurd (ground (arith, e, h))
      | inr (t, e) ↦
          (record_event t now (external_context_attached id) none, rw (attach_external_context, e))
    ]

-- Enrichment does not fail on a target that is there.
enrich_target-returns :
    (now : Time) (enricher : Enricher) (account id : UserId) (target : TargetRow) (s : Store)
    → find_target s id ≡ some target
    → (t : Store) × (enrich_target now enricher account id target s ≡ (returned tt, t))
unfolding enrich_target
enrich_target-returns now none account id target s h = (s, refl)
enrich_target-returns now (some enrich) account id target s h =
    elim (Bool-cases (is_verified target.external_context)) [
      | inl b ↦ (s, rw (enrich_target, b))
      | inr b ↦ elim (Option-cases (enrich target.linkedin_urn account)) [
        | inl e ↦ (s, rw (enrich_target, b, e))
        | inr (got, e) ↦
            let a = attach_external_context-returns now id (company_patch got) target s h in
            (a.0, rw (enrich_target, b, e) a.1)
      ]
    ]

module _ (z : Zone) (now : Time) where
  module _ (w : ℕ) (week : w < 7) (shift : (k : ℕ) → z.day (now + k * day_ms) ≡ z.day now + k) where
    module _ (campaign account : UserId) (enricher : Enricher) where
      -- A step that ends, with one more counted.
      abbrev IsCounted : Step Store Batch → Batch → Store → Type 0
      IsCounted m b s =
          (c : Batch) × (t : Store) × (m s ≡ (returned c, t))
          × (counted c ≡ counted b + 1)
          × IsReadyStart w c.stagger

      claim-IsCounted :
          (id : UserId) (b : Batch) (s : Store)
          → IsReadyStart w b.stagger
          → IsCounted (claim z now campaign account enricher id b) b s
      unfolding claim
      claim-IsCounted id b s h =
          let c = next_start-IsReadyStart z now w week shift b.stagger h in
          let e = enroll_target s now campaign id account c.0.0 in
          (
            record b { progress_ids = b.progress_ids ++ e.0.id ∷ []; stagger = c.0.1 },
            e.1,
            rw (claim, c.1),
            omega (arith, length-append b.progress_ids (e.0.id ∷ [])),
            c.2,
          )

      enroll_one-IsCounted :
          (id : UserId) (b : Batch) (s : Store)
          → IsReadyStart w b.stagger
          → IsCounted (enroll_one z now campaign account enricher id b) b s
      unfolding enroll_one find_target
      enroll_one-IsCounted id b s h = elim (Option-cases (find_target s id)) [
        | inl e ↦ let c = claim-IsCounted id b s h in (c.0, c.1, rw (enroll_one, e) c.2, c.3, c.4)
        | inr (target, e) ↦ elim (Bool-cases (removed_flag target.external_context)) [
          | inl r ↦ (
            record b { skipped_removed = b.skipped_removed + 1 },
            s,
            rw (enroll_one, e, r),
            omega arith,
            h,
          )
          | inr r ↦ elim (Bool-cases (contacted_elsewhere s campaign target)) [
            | inl k ↦ (
              record b { skipped_cross_campaign = b.skipped_cross_campaign + 1 },
              s,
              rw (enroll_one, e, r, k),
              omega arith,
              h,
            )
            | inr k ↦
                let m = enrich_target-returns now enricher account id target s e in
                let c = claim-IsCounted id b m.0 h in
                (
                  c.0,
                  c.1,
                  rw (enroll_one, e, r, k)
                      (then_eq (enrich_target now enricher account id target)
                        (claim z now campaign account enricher id b) s m.0 tt (returned c.0, c.1)
                        m.1 c.2),
                  c.3,
                  c.4,
                )
          ]
        ]
      ]

      enroll_on-counted :
          (ids : List UserId) (b : Batch) (s : Store)
          → IsReadyStart w b.stagger
          → (c : Batch) × (t : Store) × (enroll_on z now campaign account enricher ids b s
              ≡ (returned c, t))
            × (counted c ≡ counted b + length ids)
      unfolding enroll_on
      enroll_on-counted [] b s h = (b, s, refl, omega arith)
      enroll_on-counted (id ∷ ids) b s h =
          let c = enroll_one-IsCounted id b s h in
          let d = enroll_on-counted ids c.0 c.1 c.4 in
          (
            d.0,
            d.1,
            bind_eq (enroll_one z now campaign account enricher id b)
                (enroll_on z now campaign account enricher ids) s c.1 c.0 (returned d.0, d.1) c.2
                d.2,
            omega (arith, c.3, d.3),
          )

      -- An enrollment of a batch returns, and every target of the batch is counted once: enrolled,
      -- skipped as removed, or skipped as contacted in another campaign. The weekday `w` is active and
      -- the hour to start at is one of the day in the account's schedule for each kind of action, and
      -- days have the length of a day.
      pub enroll_targets_lem :
          (ids : List UserId) (s : Store)
          → ((type : ActionType) → IsUsable w (schedule_of (limits_of s account) type))
          → (r : EnrollResult) × (t : Store) × (enroll_targets z now campaign account enricher ids s
              ≡ (returned r, t))
            × (r.enrolled + r.skipped_removed + r.skipped_cross_campaign ≡ length ids)
      unfolding enroll_targets
      enroll_targets_lem ids s u =
          let b = first_batch (enroll_stagger z now s campaign account) in
          let c =
            enroll_on-counted ids b s (enroll_stagger-IsReadyStart z now w s campaign account u) in
          (
            result_of campaign account c.0,
            c.1,
            bind_eq (enroll_on z now campaign account enricher ids b)
                (λ b. ret (result_of campaign account b)) s c.1 c.0
                (returned (result_of campaign account c.0), c.1) c.2 refl,
            omega (arith, c.3),
          )
