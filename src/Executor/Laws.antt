-- ===== src/Executor/Laws.antt =====
-- The ways that `runOne` of runtime/src/executor/account-runner-executor.ts can go.
use linkedin_outreach_agent.Prelude.{
  String, true, false, ◌≡◌, Option, some, find_row-set_row_self, set_row, Bool-cases, Option-cases,
  inl, inr, if◌then◌else◌,
}
use linkedin_outreach_agent.Domain.{
  UserId, Time, Text, Account, ActionType, ActionRow, ActionResult, TargetRow, Failure, EventKind,
  action_failed,
}
use linkedin_outreach_agent.Effects.{Answer, returned, threw, not_found, Answer-cases}
use linkedin_outreach_agent.Store.{Store}
use linkedin_outreach_agent.Store.Tables.{
  find_account, find_target, find_action, create_action, set_result, delete_action, record_event,
}
use linkedin_outreach_agent.Counters.Live.{record_pace}
use linkedin_outreach_agent.Executor.{
  Cabin, Drive, ExecutorDeps, is_deferral, pending_row, run_one, with_row, with_token, drive_page,
  settle, crash, outbound_body, end_without, succeed, drain, charge_invite, close_success,
}

-- A call of `runOne`: its arguments, the three readings of the clock and the cabin.
pub record Call (O : Type 0) : Type 0 where
  pub deps : ExecutorDeps O
  pub scheduled : Time
  pub reserved : Time
  pub done : Time
  pub type : ActionType
  pub account : UserId
  pub target : UserId
  pub campaign : UserId
  pub body : Option String
  pub cabin : Cabin O

module _ {O : Type 0} (c : Call O) where
  open c use {deps, scheduled, reserved, done, type, account, target, campaign, body, cabin as w}

  abbrev pub run : Answer ActionRow × Cabin O
  run = run_one deps scheduled reserved done type account target campaign body w

  abbrev pub made : ActionRow × Store
  made = pending_row deps scheduled reserved done type account target campaign w.store

  -- The cabin with the new row, and after the drive.
  abbrev pub with_made : O → Cabin O
  with_made o = record w { store = made.1; outside = o }

  abbrev pub with_slot : O → Cabin O
  with_slot o = record w { store = made.1; outside = o; pace = record_pace account reserved w.pace }

  abbrev pub driven : O → Cabin O
  driven o = record w {
    store = made.1;
    outside = o;
    pace = record_pace account done (record_pace account reserved w.pace);
  }

  -- A predicate that holds of each way that a run goes.
  pub record HoldsOnAll (P : Answer ActionRow × Cabin O → Type 0) : Type 0 where
    pub absent : (e : Failure) → P (threw e, w)
    pub deferred :
        (o : O) (e : Failure)
        → is_deferral e ≡ true
        → P (threw e, record w { store = delete_action made.1 made.0.id; outside = o })
    pub unminted : (o : O) (e : Failure) → is_deferral e ≡ false → P (threw e, with_made o)
    -- No page, or no profile url.
    pub no_page : (o : O) (e : Failure) → P (threw e, with_slot o)
    pub crashed : (o : O) (e : Failure) → P (crash deps scheduled reserved done made.0 e (driven o))
    pub settled : (o : O) (d : Drive) → P (settle deps scheduled reserved done made.0 d (driven o))

  module _ (P : Answer ActionRow × Cabin O → Type 0) (h : HoldsOnAll P) (acct : Account)
      (t : TargetRow) where
    drive_cases :
        (url : Text) (o : O)
        → P (drive_page deps scheduled reserved done made.0 t url body (with_slot o))
    unfolding drive_page create_action
    drive_cases url o =
        elim (Answer-cases
          (deps.drive made.0 t url (outbound_body deps scheduled reserved done type t body) o).0) [
            | inl (d, e) ↦ rw (drive_page, e) (h.settled _ d)
            | inr (x, e) ↦ rw (drive_page, e) (h.crashed _ x)
          ]

    page_cases : (o : O) → P (with_token deps scheduled reserved done made.0 t body (with_made o))
    unfolding with_token create_action
    page_cases o = elim (Answer-cases (deps.page_for account o).0) [
      | inl (d, e) ↦ elim (Answer-cases (deps.profile_url_for t)) [
        | inl (url, u) ↦ rw (with_token, e, u) (drive_cases url _)
        | inr (x, u) ↦ rw (with_token, e, u) (h.no_page _ x)
      ]
      | inr (x, e) ↦ rw (with_token, e) (h.no_page _ x)
    ]

    row_cases :
        P (with_row deps scheduled reserved done acct made.0 t body (record w { store = made.1 }))
    unfolding with_row
    row_cases = elim (Answer-cases (deps.mint acct made.0 w.outside).0) [
      | inl (d, e) ↦ rw (with_row, e) (page_cases _)
      | inr (x, e) ↦ elim (Bool-cases (is_deferral x)) [
        | inl f ↦ rw (with_row, e, f) (h.deferred _ x f)
        | inr f ↦ rw (with_row, e, f) (h.unminted _ x f)
      ]
    ]

  -- What holds of every way holds of the run.
  pub run_one_cases : (P : Answer ActionRow × Cabin O → Type 0) → HoldsOnAll P → P run
  unfolding run_one
  run_one_cases P h = elim (Option-cases (find_account w.store account)) [
    | inl e ↦ rw (run_one, e) (h.absent (not_found account))
    | inr (acct, e) ↦ elim (Option-cases (find_target w.store target)) [
      | inl f ↦ rw (run_one, e, f) (h.absent (not_found target))
      | inr (t, f) ↦ rw (run_one, e, f) (row_cases P h acct t)
    ]
  ]

  -- The row and the store when the drive has ended.
  abbrev pub ended : ActionResult → ActionRow
  ended result = record made.0 { result = result; executed_at = some done }

  abbrev pub ended_store : ActionResult → Store
  ended_store result = record made.1 { actions = set_row (λ r. r.id) (ended result) made.1.actions }

  abbrev pub logged_store : ActionResult → EventKind → Store
  logged_store result kind = record_event (ended_store result) done kind (some account)

  set_made :
      (result : ActionResult)
      → set_result made.1 made.0.id result (some done) ≡ some (ended result, ended_store result)
  unfolding set_result find_action create_action
  set_made result =
      let found : find_action made.1 made.0.id ≡ some made.0 =
        find_row-set_row_self (λ r. r.id) made.0 w.store.actions in
      rw (set_result, found)

  pub crash_eq :
      (o : O) (e : Failure)
      → crash deps scheduled reserved done made.0 e (driven o) ≡ (
        threw e,
        record (driven o) {
          store = logged_store ActionResult.failed (action_failed made.0.id type target campaign);
          outside = if deps.is_renderer_stall e then deps.recycle account o else o;
        },
      )
  unfolding crash create_action
  crash_eq o e = rw (crash, set_made ActionResult.failed)

  -- The store after a drive that ended without a success.
  pub end_without_eq :
      (o : O) (result : ActionResult) (kind : EventKind)
      → end_without deps scheduled reserved done made.0 result kind (driven o)
        ≡ (returned (ended result), record (driven o) { store = logged_store result kind })
  unfolding end_without create_action
  end_without_eq o result kind = rw (end_without, set_made result)

  -- The end of a success, after the outstanding pile was drained.
  abbrev pub finished : Answer (Unit {0}) × Cabin O → Answer ActionRow × Cabin O
  finished r = elim r.0 as (λ _. Answer ActionRow × Cabin O) [
    | threw e ↦ (threw e, r.1)
    | returned x ↦ (
      returned (ended ActionResult.success),
      close_success deps scheduled reserved done made.0 r.1,
    )
  ]

  -- A success, as its later steps see it.
  pub succeed_eq :
      (o : O)
      → let w1 : Cabin O = record (driven o) { store = ended_store ActionResult.success } in
        let r =
          drain deps scheduled reserved done made.0
            (charge_invite deps scheduled reserved done account type w1) in
        succeed deps scheduled reserved done made.0 (driven o) ≡ finished r
  unfolding succeed create_action
  succeed_eq o = rw (succeed, set_made ActionResult.success)
