-- ===== src/Executor/Piles.antt =====
-- What the outstanding and the weekly invites read after an action was charged
-- (runtime/src/adapters/safety-state.ts, runtime/src/executor/account-runner-executor.ts).
use linkedin_outreach_agent.Prelude.{
  ℕ, ◌+◌, ◌-◌, Bool, true, false, ◌&&◌, ◌≡◌, refl, sym, ap, ◌∙◌, none, some, ◌==◌, ==_iff, ltb,
  if◌then◌else◌, get_or, Bool-cases, Option-cases, inl, inr, arith,
}
use linkedin_outreach_agent.Domain.{UserId, Time, ActionType, ActionRow, same_type_sound}
use linkedin_outreach_agent.Effects.{returned, Answer-cases}
use linkedin_outreach_agent.Store.{Store}
use linkedin_outreach_agent.Store.Sequence.{get_target_progress_by_target, is_awaiting_connection}
use linkedin_outreach_agent.Counters.{count_invites, record_connect, seven_days_ms}
use linkedin_outreach_agent.Counters.Reads.{count_invites-fresh_count}
use linkedin_outreach_agent.Counters.Restart.{recorded_count_any}
use linkedin_outreach_agent.Counters.Live.{
  Outstanding, outstanding_invites, record_invite, release_invite,
}
use linkedin_outreach_agent.Executor.{
  Cabin, ExecutorDeps, drain, charge_invite, release_withdrawn_cursor, is_withdrawal, parked_cursor,
  is_connect_type,
}

-- A cursor of the target waits for its invite to be accepted.
abbrev pub is_parked : UserId → Store → Bool
is_parked target s = elim (get_target_progress_by_target s target) [
  | none ↦ false
  | some p ↦ is_awaiting_connection p.state
]

-- What a success leaves of an account's outstanding invites.
abbrev pub pile_after : ActionType → Bool → ℕ → ℕ
pile_after ActionType.connect parked n = n + 1
pile_after ActionType.withdraw_invite parked n = if parked then n - 1 else n
pile_after _ parked n = n

parked_cursor-is_parked :
    (target : UserId) (s : Store)
    → is_parked target s ≡ (elim (parked_cursor s target) [ none ↦ false | some p ↦ true ])
unfolding parked_cursor
parked_cursor-is_parked target s = elim (Option-cases (get_target_progress_by_target s target)) [
  | inl e ↦ ground (arith, e)
  | inr (p, e) ↦ elim (Bool-cases (is_awaiting_connection p.state)) [
    | inl a ↦ ground (arith, e, a)
    | inr a ↦ ground (arith, e, a)
  ]
]

release-is_parked :
    (target : UserId) (s : Store) (b : Bool)
    → (release_withdrawn_cursor target s).0 ≡ returned b
    → b ≡ is_parked target s
unfolding release_withdrawn_cursor
release-is_parked target s b h = ground (arith, h, parked_cursor-is_parked target s)

-- The piles by kind, read at an account.
pile_connect :
    (account other : UserId) (type : ActionType) (parked : Bool) (w : Outstanding)
    → is_connect_type type ≡ true
    → outstanding_invites other (record_invite account w) ≡ (
        if other == account
        then pile_after type parked (outstanding_invites other w)
        else outstanding_invites other w)
unfolding outstanding_invites record_invite
pile_connect account other type parked w c =
    rw (same_type_sound type ActionType.connect c) (elim (Bool-cases (other == account)) [
      | inl e ↦ rw e (ap (λ i. get_or (w i) 0 + 1) (sym ((==_iff other account).0 e)))
      | inr e ↦ rw e refl
    ])

pile_withdrawal :
    (account other : UserId) (type : ActionType) (parked : Bool) (w : Outstanding)
    → is_withdrawal type ≡ true
    → outstanding_invites other (if parked then release_invite account w else w) ≡ (
        if other == account
        then pile_after type parked (outstanding_invites other w)
        else outstanding_invites other w)
unfolding outstanding_invites release_invite
pile_withdrawal account other type true w c =
    rw (same_type_sound type ActionType.withdraw_invite c) (elim (Bool-cases (other == account)) [
      | inl e ↦ rw e (ap (λ i. get_or (w i) 0 - 1) (sym ((==_iff other account).0 e)))
      | inr e ↦ rw e refl
    ])
pile_withdrawal account other type false w c =
    rw (same_type_sound type ActionType.withdraw_invite c)
      (elim (Bool-cases (other == account)) [ inl e ↦ rw e refl | inr e ↦ rw e refl ])

pile_other :
    (type : ActionType) (parked : Bool) (n : ℕ)
    → is_connect_type type ≡ false
    → is_withdrawal type ≡ false
    → pile_after type parked n ≡ n
pile_other ActionType.connect parked n c d = absurd cc
pile_other ActionType.withdraw_invite parked n c d = absurd cc
pile_other _ parked n c d = refl

withdrawal_no_connect :
    (type : ActionType) → is_withdrawal type ≡ true → is_connect_type type ≡ false
withdrawal_no_connect ActionType.withdraw_invite h = refl
withdrawal_no_connect _ h = absurd cc

module _ {O : Type 0} (deps : ExecutorDeps O) (scheduled reserved done : Time) where
  pub drain-daily :
      (row : ActionRow) (v : Cabin O) → (drain deps scheduled reserved done row v).1.daily ≡ v.daily
  unfolding drain
  drain-daily row v = elim (Bool-cases (is_withdrawal row.type)) [
    | inr other ↦ rw (drain, other) refl
    | inl drains ↦ elim (Answer-cases (release_withdrawn_cursor row.target_id v.store).0) [
      | inr (e, k) ↦ rw (drain, drains, k) refl
      | inl (b, k) ↦ elim (Bool-cases b) [
        | inl t ↦ rw (drain, drains, k, t) refl
        | inr f ↦ rw (drain, drains, k, f) refl
      ]
    ]
  ]

  drain_withdrawn :
      (row : ActionRow) (v : Cabin O) (x : Unit {0})
      → is_withdrawal row.type ≡ true
      → (drain deps scheduled reserved done row v).0 ≡ returned x
      → (drain deps scheduled reserved done row v).1.outstanding ≡ (
          if is_parked row.target_id v.store
          then release_invite row.account_id v.outstanding
          else v.outstanding)
  unfolding drain
  drain_withdrawn row v x d h =
      elim (Answer-cases (release_withdrawn_cursor row.target_id v.store).0) [
        | inr (e, k) ↦ absurd (ground (arith, h, d, k))
        | inl (b, k) ↦
            let parked = sym (release-is_parked row.target_id v.store b k) in
            elim (Bool-cases b) [
              | inl t ↦ rw (drain, d, k, t, parked ∙ t) refl
              | inr f ↦ rw (drain, d, k, f, parked ∙ f) refl
            ]
      ]

  -- The pile after the charge and the drain of a success.
  pub drained-pile :
      (row : ActionRow) (v : Cabin O) (other : UserId) (x : Unit {0})
      → let charged = charge_invite deps scheduled reserved done row.account_id row.type v in
        (drain deps scheduled reserved done row charged).0 ≡ returned x
        → outstanding_invites other (drain deps scheduled reserved done row charged).1.outstanding
          ≡ (if other == row.account_id
              then pile_after row.type
                  (is_parked row.target_id v.store)
                  (outstanding_invites other v.outstanding)
              else outstanding_invites other v.outstanding)
  unfolding charge_invite drain outstanding_invites get_target_progress_by_target
  drained-pile row v other x h = elim (Bool-cases (is_withdrawal row.type)) [
    | inl d ↦
        let e : charge_invite deps scheduled reserved done row.account_id row.type v ≡ v =
          rw (charge_invite, withdrawal_no_connect row.type d) refl in
        ap (λ c. outstanding_invites other (drain deps scheduled reserved done row c).1.outstanding)
          e
        ∙ ap (outstanding_invites other) (
            drain_withdrawn row v x d
              (ap (λ c. (drain deps scheduled reserved done row c).0) (sym e) ∙ h))
        ∙ pile_withdrawal row.account_id other row.type (is_parked row.target_id v.store)
            v.outstanding d
    | inr d ↦ elim (Bool-cases (is_connect_type row.type)) [
      | inl c ↦
          rw (drain, d, charge_invite, c)
            (pile_connect row.account_id other row.type (is_parked row.target_id v.store)
              v.outstanding c)
      | inr c ↦
          rw
            (
              drain,
              d,
              charge_invite,
              c,
              pile_other row.type (is_parked row.target_id v.store)
                  (outstanding_invites other v.outstanding) c d,
            )
            (ground arith)
    ]
  ]

  -- The weekly count after the charge.
  pub charged-weekly :
      (now : Time) (account other : UserId) (type : ActionType) (v : Cabin O)
      → (count_invites now other
          (charge_invite deps scheduled reserved done account type v).weekly).0
        ≡ (count_invites now other v.weekly).0
          + (if is_connect_type type && other == account && ltb now (done + seven_days_ms)
              then 1
              else 0)
  unfolding charge_invite
  charged-weekly now account other type v = elim (Bool-cases (is_connect_type type)) [
    | inr c ↦ rw (charge_invite, c) (ground arith)
    | inl c ↦
        rw (charge_invite, c)
          (count_invites-fresh_count now other (record_connect account done v.weekly)
            ∙ recorded_count_any now done v.weekly account other
            ∙ ap (λ n. n + (if other == account && ltb now (done + seven_days_ms) then 1 else 0))
                (sym (count_invites-fresh_count now other v.weekly)))
  ]
