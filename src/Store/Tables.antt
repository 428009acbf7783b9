-- ===== src/Store/Tables.antt =====
-- The repositories of accounts, campaigns, targets, actions, messages, approvals and events.
-- `none` is the error that an update of an absent row throws; `now` is the store's `new Date()`.
use linkedin_outreach_agent.Prelude.{
  ℕ, String, Bool, true, false, ◌&&◌, not, Option, none, some, List, [], ◌∷◌, ◌++◌, leb, ◌==◌,
  if◌then◌else◌, find_row, set_row, delete_row, keep_if, length, includes, eq_text,
}
use linkedin_outreach_agent.Domain.{
  UserId, Time, Text, Json, Account, ActionType, ActionResult, same_type, is_success, is_failed,
  is_pending, MessageDirection, MessageStatus, TargetStage, ReplyIntent, ApprovalDecision,
  CampaignRow, TargetRow, ActionRow, MessageRow, EventRow, EventKind, target_suppressed, ThreadRef,
  ActRequest,
}
use linkedin_outreach_agent.Store.Defs.{Store, next_id}

unfoldable pub find_account : Store → UserId → Option Account
find_account s id = find_row (λ r. r.id) id s.accounts

unfoldable pub find_campaign : Store → UserId → Option CampaignRow
find_campaign s id = find_row (λ r. r.id) id s.campaigns

unfoldable pub find_target : Store → UserId → Option TargetRow
find_target s id = find_row (λ r. r.id) id s.targets

unfoldable pub find_action : Store → UserId → Option ActionRow
find_action s id = find_row (λ r. r.id) id s.actions

unfoldable pub find_message : Store → UserId → Option MessageRow
find_message s id = find_row (λ r. r.id) id s.messages

-- `InMemTargetRepo.setStage`
unfoldable pub set_stage : Store → UserId → TargetStage → Option Store
set_stage s id stage = elim (find_target s id) [
  | none ↦ none
  | some cur ↦
      some (record s { targets = set_row (λ r. r.id) (record cur { stage = stage }) s.targets })
]

-- `mergeExternalContext`: the patch's entries win.
abbrev pub merge_entries : List (String × Json) → List (String × Json) → List (String × Json)
merge_entries base patch = patch ++ base

unfoldable pub merge_external_context : Store → UserId → List (String × Json) → Option Store
merge_external_context s id patch = elim (find_target s id) [
  | none ↦ none
  | some cur ↦ some (record s {
    targets =
        set_row (λ r. r.id)
          (record cur { external_context = merge_entries cur.external_context patch }) s.targets;
  })
]

unfoldable pub list_targets_by_campaign : Store → UserId → List TargetRow
list_targets_by_campaign s id = keep_if (λ t. t.campaign_id == id) s.targets

unfoldable pub list_by_urn : Store → Text → List TargetRow
list_by_urn s urn = keep_if (λ t. eq_text t.linkedin_urn urn) s.targets

-- `InMemActionStore.create`
unfoldable pub create_action :
    Store
    → Time
    → UserId
    → UserId
    → UserId
    → ActionType
    → Time
    → Option Time
    → ActionResult
    → ActionRow × Store
create_action s now account target campaign type scheduled executed result =
    let row : ActionRow = record {
      id = next_id s;
      account_id = account;
      target_id = target;
      campaign_id = campaign;
      type = type;
      scheduled_at = scheduled;
      executed_at = executed;
      result = result;
      created_at = now;
    } in
    (row, record s { actions = set_row (λ r. r.id) row s.actions; counter = next_id s })

-- `setResult`
unfoldable pub set_result : Store → UserId → ActionResult → Option Time → Option (ActionRow × Store)
set_result s id result executed = elim (find_action s id) [
  | none ↦ none
  | some cur ↦
      let next : ActionRow = record cur { result = result; executed_at = executed } in
      some (next, record s { actions = set_row (λ r. r.id) next s.actions })
]

-- `deleteById`
unfoldable pub delete_action : Store → UserId → Store
delete_action s id = record s { actions = delete_row (λ r. r.id) id s.actions }

unfoldable pub list_actions_by_account : Store → UserId → List ActionRow
list_actions_by_account s id = keep_if (λ r. r.account_id == id) s.actions

unfoldable pub count_failed_since : Store → UserId → ActionType → Time → ℕ
count_failed_since s target type since = length (
    keep_if
      (λ r.
        r.target_id == target
        && same_type r.type type
        && is_failed r.result
        && leb since r.created_at)
      s.actions)

-- The members of the set that the loop builds: each id once.
unfoldable pub distinct : List ℕ → List ℕ
distinct [] = []
distinct (x ∷ xs) = let rest = distinct xs in if includes xs x then rest else x ∷ rest

abbrev pub target_ids : List ActionRow → List UserId
target_ids [] = []
target_ids (r ∷ rs) = r.target_id ∷ target_ids rs

unfoldable pub lane_window : Store → UserId → ActionType → Time → List ActionRow
lane_window s account type since =
    keep_if (λ r. r.account_id == account && same_type r.type type && leb since r.created_at)
      s.actions

-- `laneHealthSince`: the distinct targets that failed, and the successes.
unfoldable pub lane_health_since : Store → UserId → ActionType → Time → ℕ × ℕ
unfolding lane_window
lane_health_since s account type since = (
  length (
      distinct (target_ids (keep_if (λ r. is_failed r.result) (lane_window s account type since)))),
  length (keep_if (λ r. is_success r.result) (lane_window s account type since)),
)

abbrev pub is_stale_pending : Time → ActionRow → Bool
is_stale_pending older_than r =
    is_pending r.result
    && (elim r.executed_at [ none ↦ true | some t ↦ false ])
    && leb r.created_at older_than

-- `reclaimStalePending`
unfoldable pub reclaim_stale_pending : Store → Time → ℕ × Store
reclaim_stale_pending s older_than = (
  length (keep_if (is_stale_pending older_than) s.actions),
  record s { actions = keep_if (λ r. not (is_stale_pending older_than r)) s.actions },
)

-- `InMemMessageRepo.create`
unfoldable pub create_message :
    Store
    → Time
    → UserId
    → UserId
    → MessageDirection
    → String
    → ThreadRef
    → Option ReplyIntent
    → MessageStatus
    → Option ActRequest
    → MessageRow × Store
create_message s now account target direction body thread_ref intent status req =
    let row : MessageRow = record {
      id = next_id s;
      account_id = account;
      target_id = target;
      direction = direction;
      body = body;
      thread_ref = thread_ref;
      intent = intent;
      status = status;
      pending_req = req;
      created_at = now;
      sent_at = none;
    } in
    (row, record s { messages = set_row (λ r. r.id) row s.messages; counter = next_id s })

abbrev pub stamped : MessageStatus → Time → Option Time → Option Time
stamped MessageStatus.sent at old = some at
stamped _ at old = old

-- `setStatus`
unfoldable pub set_status : Store → Time → UserId → MessageStatus → Option (MessageRow × Store)
set_status s now id status = elim (find_message s id) [
  | none ↦ none
  | some cur ↦
      let next : MessageRow = record cur {
        status = status;
        sent_at = stamped status now cur.sent_at;
      } in
      some (next, record s { messages = set_row (λ r. r.id) next s.messages })
]

-- `setBody`
unfoldable pub set_body : Store → UserId → String → Option (MessageRow × Store)
set_body s id body = elim (find_message s id) [
  | none ↦ none
  | some cur ↦
      let next : MessageRow = record cur { body = body } in
      some (next, record s { messages = set_row (λ r. r.id) next s.messages })
]

-- `InMemApprovalRepo.create`
unfoldable pub create_approval : Store → Time → UserId → ApprovalDecision → String → Store
create_approval s now item decision editor = record s {
  approvals =
      s.approvals
      ++ (record {
        id = next_id s;
        pending_item_ref = item;
        decision = decision;
        editor = editor;
        timestamp = now;
      })
        ∷ [];
  counter = next_id s;
}

-- `EventLog.recordEvent` onto `InMemEventRepo.append`, the only write of events.
unfoldable pub record_event : Store → Time → EventKind → Option UserId → Store
record_event s now kind account = record s {
  events = s.events ++ (record { ts = now; account_id = account; kind = kind }) ∷ [];
  counter = next_id s;
}

abbrev pub is_suppression : EventRow → Bool
is_suppression e = elim e.account_id [
  | some a ↦ false
  | none ↦ elim e.kind [ target_suppressed urn origin ↦ true | _ ↦ false ]
]

-- `listSuppression`
unfoldable pub list_suppression : Store → List EventRow
list_suppression s = keep_if is_suppression s.events
