-- ===== src/Approvals.antt =====
-- `ApprovalService` of control-plane/orchestrator/src/approvals.ts: the queue of drafts that wait
-- for the operator's decision.
pub mod Laws
use linkedin_outreach_agent.Prelude.{
  ℕ, Bool, true, false, Option, none, some, List, String, keep_if, if◌then◌else◌, not, leb,
}
use linkedin_outreach_agent.Domain.{
  UserId, Time, ActRequest, ApprovalDecision, MessageDirection, MessageStatus, MessageRow,
  ReplyIntent, ThreadRef, EventKind, pending_enqueued, approval_decided,
}
use linkedin_outreach_agent.Effects.{
  Step, Answer, returned, threw, Failure, not_found, already_decided,
}
use linkedin_outreach_agent.Store.{Store}
use linkedin_outreach_agent.Store.Sequence.{sort_by, insert_by}
use linkedin_outreach_agent.Store.Tables.{
  find_message, create_message, set_status, set_body, create_approval, record_event,
}

-- `enqueuePending`: the new draft.
unfoldable pub enqueue_pending :
    Time
    → UserId
    → UserId
    → UserId
    → ThreadRef
    → String
    → Option ReplyIntent
    → Option ActRequest
    → Store
    → MessageRow × Store
enqueue_pending now account target campaign thread_ref body intent req s =
    let (row, s1) =
      create_message s now account target MessageDirection.outbound body thread_ref intent
        MessageStatus.draft req in
    (row, record_event s1 now (pending_enqueued row.id target campaign intent) (some account))

abbrev pub is_draft : MessageStatus → Bool
is_draft MessageStatus.draft = true
is_draft _ = false

-- `listAllPending` over the store's `listDrafts`: the oldest first.
unfoldable pub list_all_pending : Store → List MessageRow
unfolding sort_by insert_by
list_all_pending s =
    sort_by (λ a b. leb a.created_at b.created_at) (keep_if (λ m. is_draft m.status) s.messages)

-- `getPendingReq`
unfoldable pub get_pending_req : Store → UserId → Option ActRequest
get_pending_req s item = elim (find_message s item) [ none ↦ none | some row ↦ row.pending_req ]

-- An operator's call: approve, editAndApprove with the new body, or reject.
pub data Verdict : Type 0 where
  approve reject : Verdict
  edit_and_approve : String → Verdict

abbrev pub decision_of : Verdict → ApprovalDecision
decision_of approve = ApprovalDecision.approved
decision_of reject = ApprovalDecision.rejected
decision_of (edit_and_approve body) = ApprovalDecision.edited

-- An update of a message whose absence is the repository's error.
abbrev pub updated :
    UserId
    → Store
    → Option (MessageRow × Store)
    → (MessageRow → Store → Answer MessageRow × Store)
    → Answer MessageRow × Store
updated item s none k = (threw (not_found item), s)
updated item s (some r) k = k r.0 r.1

-- The writes of the message, by the verdict.
unfoldable pub write_verdict : Time → UserId → Verdict → Step Store MessageRow
write_verdict now item approve s =
    updated item s (set_status s now item MessageStatus.approved) (λ m t. (returned m, t))
write_verdict now item reject s =
    updated item s (set_status s now item MessageStatus.rejected) (λ m t. (returned m, t))
write_verdict now item (edit_and_approve body) s =
    updated item s (set_body s item body) (λ m t.
      updated item t (set_status t now item MessageStatus.approved) (λ n u. (returned n, u)))

abbrev pub closed :
    Time
    → UserId
    → ApprovalDecision
    → String
    → UserId
    → Answer MessageRow × Store
    → Answer MessageRow × Store
closed now item decision editor account r = elim r.0 [
  | threw e ↦ (threw e, r.1)
  | returned m ↦
      (returned m, record_event r.1 now (approval_decided item decision editor) (some account))
]

unfoldable pub decide_draft :
    Time → UserId → String → Verdict → Option MessageRow → Step Store MessageRow
unfolding write_verdict
decide_draft now item editor v none s = (threw (not_found item), s)
decide_draft now item editor v (some existing) s =
    if not (is_draft existing.status)
    then (threw (already_decided item), s)
    else closed now item (decision_of v) editor existing.account_id
        (write_verdict now item v (create_approval s now item (decision_of v) editor))

-- `decide`
unfoldable pub decide : Time → UserId → String → Verdict → Step Store MessageRow
unfolding decide_draft
decide now item editor v s = decide_draft now item editor v (find_message s item) s
