-- ===== src/Acceptance/Pile.antt =====
-- The pile of invites that are out: the count that the gate reads is the number of parked cursors.
use linkedin_outreach_agent.Prelude.{
  ℕ, ◌+◌, ◌-◌, ◌≡◌, refl, sym, ap, ◌∙◌, subst, inl, inr, Bool, true, false, ◌&&◌, none, some, List,
  [], ◌∷◌, ◌==◌, if◌then◌else◌, length, keep_if, All, find_row, set_row, find_row-set_row, IsMap,
  length-keep_if-set_row, arith,
}
use linkedin_outreach_agent.Domain.{
  UserId, Time, TargetProgressRow, CampaignStepRow, AccountSchedule,
}
use linkedin_outreach_agent.Calendar.{Zone}
use linkedin_outreach_agent.Counters.Live.{
  outstanding_invites, count_parked, release_invite, Outstanding,
}
use linkedin_outreach_agent.Dispatch.Advance.{advance_after_step, advance_onto}
use linkedin_outreach_agent.Effects.{Answer}
use linkedin_outreach_agent.Store.{Store}
use linkedin_outreach_agent.Store.Sequence.{
  apply_patch, find_progress, is_awaiting_connection, awaiting_connection_enrollments,
  enabled_steps,
}
use linkedin_outreach_agent.Acceptance.{
  AcceptedConnection, AcceptanceOutcome, Network, AcceptanceDeps,
}
use linkedin_outreach_agent.Acceptance.Laws.{SameCursors, Stays, Patched, Handled}

is_parked : UserId → TargetProgressRow → Bool
is_parked account p = is_awaiting_connection p.state && p.account_id == account

keep_if_twice {ℓ} :
    {A : Type ℓ} (p q : A → Bool) (xs : List A)
    → length (keep_if q (keep_if p xs)) ≡ length (keep_if (λ x. p x && q x) xs)
unfolding keep_if
keep_if_twice p q [] = refl
keep_if_twice p q (x ∷ xs) = ground (arith, keep_if_twice p q xs)

count_parked_lem :
    (s : Store) (account : UserId)
    → count_parked s account ≡ length (keep_if (is_parked account) s.progress)
unfolding count_parked awaiting_connection_enrollments is_parked
count_parked_lem s account =
    keep_if_twice (λ p. is_awaiting_connection p.state) (λ p. p.account_id == account) s.progress

released_count :
    (account a : UserId) (w : Outstanding)
    → outstanding_invites account (release_invite a w)
      ≡ (if a == account then outstanding_invites account w - 1 else outstanding_invites account w)
unfolding outstanding_invites release_invite
released_count account a w = ground arith

-- The sum: one row fewer, and one less.
one_less :
    (m m1 n : ℕ) (mine was is : Bool)
    → m1 + (if was && mine then 1 else 0) ≡ m + (if is && mine then 1 else 0)
    → was ≡ true
    → is ≡ false
    → n ≡ m
    → (if mine then n - 1 else n) ≡ m1
one_less m m1 n mine was is e h k o = ground arith

-- A cursor that the rule has moved is not parked.
advanced_not_parked :
    (z : Zone) (steps : List CampaignStepRow) (handled : ℕ) (now : Time) (s : AccountSchedule)
    (p : TargetProgressRow)
    → is_awaiting_connection (apply_patch (advance_after_step z steps handled now s) p).state
      ≡ false
unfolding advance_after_step advance_onto apply_patch
advanced_not_parked z steps handled now s p = ground arith

found_moved :
    (rows : List TargetProgressRow) (p1 : TargetProgressRow) (ps : List TargetProgressRow)
    → find_row (λ r. r.id) p1.id ps ≡ none
    → All (λ p. find_row (λ r. r.id) p.id rows ≡ some p) ps
    → All (λ p. find_row (λ r. r.id) p.id (set_row (λ r. r.id) p1 rows) ≡ some p) ps
unfolding find_row
found_moved rows p1 [] h k = tt
found_moved rows p1 (q ∷ qs) h k = (
  ground (arith, h, k.0, find_row-set_row (λ r. r.id) q.id p1 rows),
  found_moved rows p1 qs (ground (arith, h)) k.1,
)

module _ {O : Type 0} where
  -- The count of every account is the number of its cursors that wait for a connection.
  unfoldable pub IsOutstanding : Network O → Type 0
  IsOutstanding w =
      (account : UserId) → outstanding_invites account w.outstanding ≡ count_parked w.store account

  IsOutstanding-same : (w w1 : Network O) → SameCursors w w1 → IsOutstanding w → IsOutstanding w1
  unfolding IsOutstanding count_parked awaiting_connection_enrollments
  IsOutstanding-same w w1 h o account =
      ap (outstanding_invites account) h.2
      ∙ o account
      ∙ sym (ap (λ rows. count_parked (record w.store { progress = rows }) account) h.0)

  -- One less in the pile, one less in the count.
  IsOutstanding-moved :
      (w w1 : Network O) (p p1 : TargetProgressRow)
      → find_progress w.store p1.id ≡ some p
      → is_awaiting_connection p.state ≡ true
      → is_awaiting_connection p1.state ≡ false
      → p1.account_id ≡ p.account_id
      → w1.store.progress ≡ set_row (λ r. r.id) p1 w.store.progress
      → w1.outstanding ≡ release_invite p.account_id w.outstanding
      → IsOutstanding w
      → IsOutstanding w1
  unfolding IsOutstanding is_parked find_progress outstanding_invites release_invite
  IsOutstanding-moved w w1 p p1 f a n same_account h k o account =
      ap (outstanding_invites account) k
      ∙ released_count account p.account_id w.outstanding
      ∙ one_less (length (keep_if (is_parked account) w.store.progress))
          (length (keep_if (is_parked account) (set_row (λ r. r.id) p1 w.store.progress)))
          (outstanding_invites account w.outstanding) (p.account_id == account)
          (is_awaiting_connection p.state) (is_awaiting_connection p1.state)
          (length-keep_if-set_row (λ r. r.id) (is_parked account) p p1 w.store.progress f
            ∙ ap
                (λ b.
                  length (keep_if (is_parked account) w.store.progress)
                  + (if is_awaiting_connection p1.state && b then 1 else 0))
                (ap (λ i. i == account) same_account))
          a n (o account ∙ count_parked_lem w.store account)
      ∙ sym (ap (λ q. length (keep_if (is_parked account) q)) h)
      ∙ sym (count_parked_lem w1.store account)

  -- The rows that a pass has still to handle.
  unfoldable pub Waiting : Network O → List TargetProgressRow → Type 0
  Waiting w ps =
      IsMap (λ r. r.id) ps
      × All (λ p. find_progress w.store p.id ≡ some p) ps
      × All (λ p. is_awaiting_connection p.state ≡ true) ps

  found_same :
      (w w1 : Network O) (ps : List TargetProgressRow)
      → w1.store.progress ≡ w.store.progress
      → All (λ p. find_progress w.store p.id ≡ some p) ps
      → All (λ p. find_progress w1.store p.id ≡ some p) ps
  unfolding find_progress
  found_same w w1 ps h k =
      subst (λ rows. All (λ p. find_row (λ r. r.id) p.id rows ≡ some p) ps) (sym h) k

  Waiting-same :
      (w w1 : Network O) (ps : List TargetProgressRow)
      → w1.store.progress ≡ w.store.progress
      → Waiting w ps
      → Waiting w1 ps
  unfolding Waiting
  Waiting-same w w1 ps h k = (k.0, found_same w w1 ps h k.1, k.2)

  -- The invariant of a pass with the rows `ps` before it.
  unfoldable pub Pile : Network O → List TargetProgressRow → Type 0
  unfolding IsOutstanding Waiting
  Pile w ps = IsOutstanding w × Waiting w ps

  module _ (deps : AcceptanceDeps O) (now : Time) where
    pub settled-Pile :
        (p : TargetProgressRow) (ps : List TargetProgressRow)
        (connections : List AcceptedConnection) (w : Network O)
        (r : Answer AcceptanceOutcome × Network O)
        → Pile w (p ∷ ps)
        → Handled deps now p connections w r
        → Pile r.1 ps
    unfolding Pile Waiting Handled Stays Patched apply_patch find_progress
    settled-Pile p ps connections w r (o, (m, f, a)) (inl (h, why)) =
        (IsOutstanding-same w r.1 h o, (m.1, found_same w r.1 ps h.0 f.1, a.1))
    settled-Pile p ps connections w r (o, (m, f, a))
          (inr (t, c, s, t1, n, i, j, k, l, out, rows, count, was)) =
        let p1 =
          apply_patch
            (advance_after_step deps.zone (enabled_steps w.store p.campaign_id) p.current_step now
              s)
            p in
        (
          IsOutstanding-moved w r.1 p p1 f.0 a.0
              (advanced_not_parked deps.zone (enabled_steps w.store p.campaign_id) p.current_step
                now s p)
              refl rows count o,
          (
            m.1,
            subst (λ q. All (λ p. find_row (λ r. r.id) p.id q ≡ some p) ps) (sym rows)
                (found_moved w.store.progress p1 ps m.0 f.1),
            a.1,
          ),
        )
