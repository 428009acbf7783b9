-- ===== src/Executor/Charges.antt =====
-- What an execution charges and leaves behind
-- (runtime/src/executor/account-runner-executor.ts).
use linkedin_outreach_agent.Prelude.{
  ◌+◌, ◌&&◌, ◌==◌, leb, ltb, if◌then◌else◌, ◌≡◌, refl, ◌⊎◌, none, some, delete_row-set_row,
}
use linkedin_outreach_agent.Domain.{
  UserId, Time, same_type, Account, ActionType, ActionRow, ActionResult, TargetRow, Refusal,
}
use linkedin_outreach_agent.Effects.{Answer, returned, threw, safety_deferred}
use linkedin_outreach_agent.Store.{next_id}
use linkedin_outreach_agent.Store.Tables.{
  find_account, find_target, find_action, create_action, delete_action,
}
use linkedin_outreach_agent.Executor.{Cabin, is_deferral, run_one, with_row, is_connect_type}
use linkedin_outreach_agent.Executor.Readings.{used}
use linkedin_outreach_agent.Executor.Piles.{is_parked, pile_after}
use linkedin_outreach_agent.Counters.{count_invites, seven_days_ms}
use linkedin_outreach_agent.Counters.Live.{outstanding_invites}
use linkedin_outreach_agent.Executor.Laws.{Call, run, made}

-- The limiters of a cabin are those of another.
pub record SameLimiters {O : Type 0} (w v : Cabin O) : Type 0 where
  pub weekly : v.weekly ≡ w.weekly
  pub daily : v.daily ≡ w.daily
  pub outstanding : v.outstanding ≡ w.outstanding

-- The limiters of `v` have, beside what those of the call's cabin have, the one action of the call.
pub record OneMore {O : Type 0} (c : Call O) (v : Cabin O) : Type 0 where
  -- The daily usage has one more of its account and kind, for the days up to its end.
  pub daily :
      (day : Time) (other : UserId) (kind : ActionType)
      → used day other kind v.daily
        ≡ used day other kind c.cabin.daily
          + (if other == c.account && same_type kind c.type && leb day c.done then 1 else 0)
  -- The invites of the last seven days have one more of its account, if it is an invite.
  pub weekly :
      (now : Time) (other : UserId)
      → (count_invites now other v.weekly).0
        ≡ (count_invites now other c.cabin.weekly).0
          + (if is_connect_type c.type && other == c.account && ltb now (c.done + seven_days_ms)
              then 1
              else 0)
  -- An invite is one more outstanding, a withdrawal of a parked cursor's invite is one less.
  pub outstanding :
      (other : UserId)
      → outstanding_invites other v.outstanding ≡ (
          if other == c.account
          then pile_after c.type
              (is_parked c.target c.cabin.store)
              (outstanding_invites other c.cabin.outstanding)
          else outstanding_invites other c.cabin.outstanding)

-- A run that succeeded and was charged, or that charged nothing.
abbrev pub Charged : {O : Type 0} → Call O → Answer ActionRow × Cabin O → Type 0
Charged c r =
    ((out : ActionRow) × (r.0 ≡ returned out) × (out.result ≡ ActionResult.success) × OneMore c r.1)
    ⊎ SameLimiters c.cabin r.1

module _ {O : Type 0} (c : Call O) where
  open c use {deps, scheduled, reserved, done, type, account, target, campaign, body, cabin as w}

  same :
      {v : Cabin O}
      → v.weekly ≡ w.weekly
      → v.daily ≡ w.daily
      → v.outstanding ≡ w.outstanding
      → SameLimiters w v
  same a b k = record { weekly = a; daily = b; outstanding = k }

  -- A deferral leaves no trace: when the token for the new row is refused with a deferral, the run
  -- throws it, and the actions, the limiters and the pacer are as they were, for a store in which
  -- the new row's id is free.
  pub run_one-deferred :
      (acct : Account) (t : TargetRow) (r : Refusal)
      → find_account w.store account ≡ some acct
      → find_target w.store target ≡ some t
      → find_action w.store (next_id w.store) ≡ none
      → (deps.mint acct (made c).0 w.outside).0 ≡ threw (safety_deferred r)
      → ((run c).0 ≡ threw (safety_deferred r))
        × ((run c).1.store.actions ≡ w.store.actions)
        × SameLimiters w (run c).1
        × ((run c).1.pace ≡ w.pace)
  unfolding run_one with_row is_deferral find_action create_action delete_action
  run_one-deferred acct t r a b free m =
      rw (run_one, a, b, with_row, m)
        (
          refl,
          delete_row-set_row (λ x. x.id) (made c).0 w.store.actions free,
          same refl refl refl,
          refl,
        )
