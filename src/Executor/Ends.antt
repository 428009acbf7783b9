-- ===== src/Executor/Ends.antt =====
-- The row of an action whose page was driven
-- (runtime/src/executor/account-runner-executor.ts).
use linkedin_outreach_agent.Prelude.{
  ◌≡◌, ◌≢◌, refl, ap, ◌∙◌, ◌⊎◌, inl, inr, some, find_row, find_row-set_row_self,
}
use linkedin_outreach_agent.Domain.{Text, Account, ActionRow, ActionResult, TargetRow, Failure}
use linkedin_outreach_agent.Effects.{Answer, returned, threw, Answer-cases}
use linkedin_outreach_agent.Store.Tables.{
  find_account, find_target, find_action, create_action, record_event,
}
use linkedin_outreach_agent.Executor.{
  Cabin, Drive, landed, noop, refused, run_one, with_row, with_token, drive_page, settle, crash,
  drain, charge_invite, close_success, outbound_body,
}
use linkedin_outreach_agent.Executor.Laws.{
  Call, run, made, driven, ended, ended_store, crash_eq, end_without_eq, succeed_eq, finished,
}
use linkedin_outreach_agent.Executor.Counted.{drain-Same, charge-actions}

-- The row that a run made has ended: it is not pending, and says when.
pub record IsEnded (O : Type 0) (c : Call O) (r : Answer ActionRow × Cabin O) : Type 0 where
  pub row : ActionRow
  pub found : find_action r.1.store (made c).0.id ≡ some row
  pub decided : row.result ≢ ActionResult.pending
  pub timed : row.executed_at ≡ some c.done
  -- What the caller is told is that row, or an exception.
  pub told : (r.0 ≡ returned row) ⊎ ((e : Failure) × (r.0 ≡ threw e))

module _ {O : Type 0} (c : Call O) where
  open c use {deps, scheduled, reserved, done, type, account, target, campaign, body, cabin as w}

  ended_found :
      (result : ActionResult)
      → find_row (λ r. r.id) (made c).0.id (ended_store c result).actions ≡ some (ended c result)
  ended_found result = find_row-set_row_self (λ r. r.id) (ended c result) (made c).1.actions

  crash-IsEnded :
      (o : O) (e : Failure)
      → IsEnded O c (crash deps scheduled reserved done (made c).0 e (driven c o))
  unfolding find_action record_event
  crash-IsEnded o e = rw (crash_eq c o e) (record {
    row = ended c ActionResult.failed;
    found = ended_found ActionResult.failed;
    decided = λ h. cc;
    timed = refl;
    told = inr (e, refl);
  })

  finished-IsEnded :
      (r : Answer (Unit {0}) × Cabin O)
      → r.1.store.actions ≡ (ended_store c ActionResult.success).actions
      → IsEnded O c (finished c r)
  unfolding find_action record_event close_success
  finished-IsEnded (returned x, v) h = record {
    row = ended c ActionResult.success;
    found = ap (find_row (λ r. r.id) (made c).0.id) h ∙ ended_found ActionResult.success;
    decided = λ h. cc;
    timed = refl;
    told = inl refl;
  }
  finished-IsEnded (threw e, v) h = record {
    row = ended c ActionResult.success;
    found = ap (find_row (λ r. r.id) (made c).0.id) h ∙ ended_found ActionResult.success;
    decided = λ h. cc;
    timed = refl;
    told = inr (e, refl);
  }

  settled-IsEnded :
      (o : O) (d : Drive)
      → IsEnded O c (settle deps scheduled reserved done (made c).0 d (driven c o))
  unfolding settle create_action find_action record_event
  settled-IsEnded o noop = rw (end_without_eq c o ActionResult.skipped _) (record {
    row = ended c ActionResult.skipped;
    found = ended_found ActionResult.skipped;
    decided = λ h. cc;
    timed = refl;
    told = inl refl;
  })
  settled-IsEnded o refused = rw (end_without_eq c o ActionResult.failed _) (record {
    row = ended c ActionResult.failed;
    found = ended_found ActionResult.failed;
    decided = λ h. cc;
    timed = refl;
    told = inl refl;
  })
  settled-IsEnded o landed =
      let w1 : Cabin O = record (driven c o) { store = ended_store c ActionResult.success } in
      let charged = charge_invite deps scheduled reserved done account type w1 in
      rw (succeed_eq c o) (
        finished-IsEnded (drain deps scheduled reserved done (made c).0 charged)
          ((drain-Same c (made c).0 charged).1 ∙ charge-actions c w1))

  -- No row is left pending once the page is to be driven: when the account and the target are there,
  -- a token was minted, a page was given and the target has a profile url, the row that the run made
  -- has a result and the time of its end, whether the drive returned or threw, and the caller gets
  -- that row or an exception.
  pub run_one-IsEnded :
      (acct : Account) (t : TargetRow) (url : Text)
      → find_account w.store account ≡ some acct
      → find_target w.store target ≡ some t
      → (deps.mint acct (made c).0 w.outside).0 ≡ returned tt
      → (deps.page_for account (deps.mint acct (made c).0 w.outside).1).0 ≡ returned tt
      → deps.profile_url_for t ≡ returned url
      → IsEnded O c (run c)
  unfolding run_one with_row with_token drive_page create_action
  run_one-IsEnded acct t url a b m p u =
      rw (run_one, a, b, with_row, m, with_token, p, u)
        (elim (Answer-cases
          (deps.drive (made c).0 t url (outbound_body deps scheduled reserved done type t body)
            (deps.page_for account (deps.mint acct (made c).0 w.outside).1).1).0) [
              | inl (d, e) ↦ rw (drive_page, e) (settled-IsEnded _ d)
              | inr (x, e) ↦ rw (drive_page, e) (crash-IsEnded _ x)
            ])

  -- The row as it was made, if the profile url throws.
  pub run_one-pending :
      (acct : Account) (t : TargetRow) (x : Failure)
      → find_account w.store account ≡ some acct
      → find_target w.store target ≡ some t
      → (deps.mint acct (made c).0 w.outside).0 ≡ returned tt
      → (deps.page_for account (deps.mint acct (made c).0 w.outside).1).0 ≡ returned tt
      → deps.profile_url_for t ≡ threw x
      → ((run c).0 ≡ threw x) × (find_action (run c).1.store (made c).0.id ≡ some (made c).0)
  unfolding run_one with_row with_token create_action find_action
  run_one-pending acct t x a b m p u =
      rw (run_one, a, b, with_row, m, with_token, p, u)
        (refl, find_row-set_row_self (λ r. r.id) (made c).0 w.store.actions)
