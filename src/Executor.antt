-- ===== src/Executor.antt =====
-- `AccountRunnerExecutor` of runtime/src/executor/account-runner-executor.ts: the life of an action
-- from its row to its result. The token, the page, the profile url and the drive of it are ports that have no access
-- to the store and the counters; the clock is read three times, at the row (`scheduled`), when the
-- pacer's slot is reserved (`reserved`) and after the drive (`done`).
pub mod Laws
pub mod Readings
pub mod Piles
pub mod Charges
pub mod Counted
pub mod Ends
use linkedin_outreach_agent.Prelude.{String, Bool, true, false, Option, none, some, if◌then◌else◌}
use linkedin_outreach_agent.Domain.{
  UserId, Time, Text, Account, ActionType, same_type, ActionResult, ActionRow, TargetRow,
  TargetStage, TargetProgressRow, ProgressState, EventKind, action_executed, action_failed,
  action_skipped, ActRequest, Payload, text_payload, no_payload, reaction_payload, Failure,
}
use linkedin_outreach_agent.Effects.{Step, Answer, returned, threw, not_found, safety_deferred}
use linkedin_outreach_agent.Store.{Store}
use linkedin_outreach_agent.Store.Tables.{
  find_account, find_target, create_action, set_result, delete_action, set_stage, record_event,
}
use linkedin_outreach_agent.Store.Sequence.{
  no_patch, get_target_progress_by_target, advance_target_progress, is_awaiting_connection,
}
use linkedin_outreach_agent.Counters.{Connects, record_connect}
use linkedin_outreach_agent.Counters.Live.{
  DailyUsage, Outstanding, LastAction, record_daily, record_invite, release_invite, record_pace,
}

-- The store, the counters and what the ports keep behind them.
pub record Cabin (O : Type 0) : Type 0 where
  pub store : Store
  pub weekly : Connects
  pub daily : DailyUsage
  pub outstanding : Outstanding
  pub pace : LastAction
  pub outside : O

-- `ActionResultOut`, less its texts.
pub data Drive : Type 0 where
  landed noop refused : Drive

pub record ExecutorDeps (O : Type 0) : Type 0 where
  pub mint : Account → ActionRow → Step O (Unit {0})
  pub page_for : UserId → Step O (Unit {0})
  pub profile_url_for : TargetRow → Answer Text
  pub drive : ActionRow → TargetRow → Text → Option String → Step O Drive
  pub is_renderer_stall : Failure → Bool
  pub recycle : UserId → O → O
  pub personalize : String → TargetRow → String

-- `SafetyDeferredError`
unfoldable pub is_deferral : Failure → Bool
is_deferral (safety_deferred r) = true
is_deferral _ = false

abbrev pub is_connect_type : ActionType → Bool
is_connect_type type = same_type type ActionType.connect

abbrev pub is_withdrawal : ActionType → Bool
is_withdrawal type = same_type type ActionType.withdraw_invite

-- `typeof req.payload === 'string' ? req.payload : undefined`
unfoldable pub body_payload : Payload → Option String
body_payload (text_payload body) = some body
body_payload no_payload = none
body_payload (reaction_payload reaction) = none

-- The cursor that `releaseWithdrawnCursor` releases, if there is one.
unfoldable pub parked_cursor : Store → UserId → Option TargetProgressRow
parked_cursor s target = elim (get_target_progress_by_target s target) [
  | none ↦ none
  | some p ↦ if is_awaiting_connection p.state then some p else none
]

-- `releaseWithdrawnCursor`
unfoldable pub release_withdrawn_cursor : UserId → Step Store Bool
unfolding parked_cursor
release_withdrawn_cursor target s = elim (parked_cursor s target) [
  | none ↦ (returned false, s)
  | some p ↦ elim (set_stage s target TargetStage.lost) [
    | none ↦ (threw (not_found target), s)
    | some s1 ↦
        elim (advance_target_progress s1 p.id
          (record no_patch { state = some ProgressState.withdrawn; next_step_at = some none })) [
            | none ↦ (threw (not_found p.id), s1)
            | some s2 ↦ (returned true, s2)
          ]
  ]
]

module _ {O : Type 0} (deps : ExecutorDeps O) (scheduled reserved done : Time) where
  -- The counters of a connect that went out.
  unfoldable pub charge_invite : UserId → ActionType → Cabin O → Cabin O
  charge_invite account type w =
      if is_connect_type type
      then record w {
        weekly = record_connect account done w.weekly;
        outstanding = record_invite account w.outstanding;
      }
      else w

  -- The end of a success: the daily counter and the event.
  unfoldable pub close_success : ActionRow → Cabin O → Cabin O
  close_success row w = record w {
    daily = record_daily row.account_id row.type done w.daily;
    store =
        record_event w.store done (action_executed row.id row.type row.target_id row.campaign_id)
          (some row.account_id);
  }

  -- A withdrawn invite drains the outstanding pile.
  unfoldable pub drain : ActionRow → Step (Cabin O) (Unit {0})
  unfolding release_withdrawn_cursor
  drain row w =
      let r = release_withdrawn_cursor row.target_id w.store in
      let w1 : Cabin O = record w { store = r.1 } in
      let released = elim r.0 as (λ _. Answer (Unit {0}) × Cabin O) [
        | threw e ↦ (threw e, w1)
        | returned b ↦ (
          returned tt,
          if b
              then record w1 { outstanding = release_invite row.account_id w1.outstanding }
              else w1,
        )
      ] in
      if is_withdrawal row.type then released else (returned tt, w)

  unfoldable pub succeed : ActionRow → Step (Cabin O) ActionRow
  unfolding charge_invite close_success drain
  succeed row w = elim (set_result w.store row.id ActionResult.success (some done)) [
    | none ↦ (threw (not_found row.id), w)
    | some (out, s) ↦
        let r = drain row (charge_invite row.account_id row.type (record w { store = s })) in
        elim r.0 [ threw e ↦ (threw e, r.1) | returned x ↦ (returned out, close_success row r.1) ]
  ]

  -- A result that is no success, with its event.
  unfoldable pub end_without : ActionRow → ActionResult → EventKind → Step (Cabin O) ActionRow
  end_without row result kind w = elim (set_result w.store row.id result (some done)) [
    | none ↦ (threw (not_found row.id), w)
    | some (out, s) ↦
        (returned out, record w { store = record_event s done kind (some row.account_id) })
  ]

  -- What follows a drive that returned.
  unfoldable pub settle : ActionRow → Drive → Step (Cabin O) ActionRow
  unfolding succeed end_without
  settle row landed = succeed row
  settle row noop =
      end_without row ActionResult.skipped
        (action_skipped row.id row.type row.target_id row.campaign_id)
  settle row refused =
      end_without row ActionResult.failed
        (action_failed row.id row.type row.target_id row.campaign_id)

  -- What follows a drive that threw.
  unfoldable pub crash : ActionRow → Failure → Step (Cabin O) ActionRow
  crash row e w = elim (set_result w.store row.id ActionResult.failed (some done)) [
    | none ↦ (threw (not_found row.id), w)
    | some (out, s) ↦ (
      threw e,
      record w {
        store =
            record_event s done (action_failed row.id row.type row.target_id row.campaign_id)
              (some row.account_id);
        outside =
            if deps.is_renderer_stall e then deps.recycle row.account_id w.outside else w.outside;
      },
    )
  ]

  -- `outboundBody`
  unfoldable pub outbound_body : ActionType → TargetRow → Option String → Option String
  outbound_body type t none = none
  outbound_body type t (some body) =
      some (if same_type type ActionType.message then deps.personalize body t else body)

  -- The drive of the page, for which the pacer is recorded whatever comes of it.
  unfoldable pub drive_page :
      ActionRow → TargetRow → Text → Option String → Step (Cabin O) ActionRow
  unfolding settle crash outbound_body
  drive_page row t url body w =
      let r = deps.drive row t url (outbound_body row.type t body) w.outside in
      let w1 : Cabin O = record w {
        outside = r.1;
        pace = record_pace row.account_id done w.pace;
      } in
      elim r.0 [ threw e ↦ crash row e w1 | returned o ↦ settle row o w1 ]

  -- The reservation of the pacer's slot, the page, and the target's profile url, whose exception
  -- nothing catches.
  unfoldable pub with_token : ActionRow → TargetRow → Option String → Step (Cabin O) ActionRow
  unfolding drive_page
  with_token row t body w =
      let r = deps.page_for row.account_id w.outside in
      let w1 : Cabin O = record w {
        outside = r.1;
        pace = record_pace row.account_id reserved w.pace;
      } in
      elim r.0 [
        | threw e ↦ (threw e, w1)
        | returned page ↦ elim (deps.profile_url_for t) [
          | threw e ↦ (threw e, w1)
          | returned url ↦ drive_page row t url body w1
        ]
      ]

  -- The token for the row; a deferral drops the row again.
  unfoldable pub with_row :
      Account → ActionRow → TargetRow → Option String → Step (Cabin O) ActionRow
  unfolding with_token is_deferral
  with_row acct row t body w =
      let r = deps.mint acct row w.outside in
      let w1 : Cabin O = record w { outside = r.1 } in
      elim r.0 [
        | threw e ↦ (
          threw e,
          if is_deferral e then record w1 { store = delete_action w1.store row.id } else w1,
        )
        | returned token ↦ with_token row t body w1
      ]

  -- The pending row of an action.
  abbrev pub pending_row : ActionType → UserId → UserId → UserId → Store → ActionRow × Store
  pending_row type account target campaign s =
      create_action s scheduled account target campaign type scheduled none ActionResult.pending

  -- `runOne`
  unfoldable pub run_one :
      ActionType → UserId → UserId → UserId → Option String → Step (Cabin O) ActionRow
  unfolding with_row
  run_one type account target campaign body w = elim (find_account w.store account) [
    | none ↦ (threw (not_found account), w)
    | some acct ↦ elim (find_target w.store target) [
      | none ↦ (threw (not_found target), w)
      | some t ↦
          let made = pending_row type account target campaign w.store in
          with_row acct made.0 t body (record w { store = made.1 })
    ]
  ]

  -- `execute`
  unfoldable pub execute : ActRequest → Step (Cabin O) ActionRow
  unfolding run_one body_payload
  execute req =
      run_one req.type req.account_id req.target_id req.campaign_id (body_payload req.payload)
