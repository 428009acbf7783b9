-- ===== src/Approvals/Laws.antt =====
-- A draft is decided once, and what the decision writes.
use linkedin_outreach_agent.Prelude.{
  ◌≡◌, refl, sym, ap, ◌∙◌, true, false, Option, none, some, [], ◌∷◌, ◌++◌, String, arith, ◌==◌,
  find_row-set_row, find_row-set_row_self, find_row-key, set_row, ==_refl, if◌then◌else◌,
}
use linkedin_outreach_agent.Domain.{
  UserId, Time, ActRequest, MessageStatus, MessageRow, ReplyIntent, ThreadRef, already_decided,
  approval_decided,
}
use linkedin_outreach_agent.Effects.{returned, threw}
use linkedin_outreach_agent.Store.{Store, next_id}
use linkedin_outreach_agent.Store.Tables.{
  find_message, create_message, set_status, set_body, create_approval, record_event, stamped,
}
use linkedin_outreach_agent.Approvals.{
  enqueue_pending, get_pending_req, Verdict, approve, reject, edit_and_approve, decision_of,
  is_draft, updated, closed, write_verdict, decide_draft, decide,
}

-- The draft's row after the verdict.
abbrev pub verdict_row : Verdict → MessageRow → MessageRow
verdict_row approve m = record m { status = MessageStatus.approved }
verdict_row reject m = record m { status = MessageStatus.rejected }
verdict_row (edit_and_approve body) m = record m { status = MessageStatus.approved; body = body }

module _ (now : Time) (item : UserId) where
  set_status_lem :
      (s : Store) (m : MessageRow) (status : MessageStatus)
      → find_message s item ≡ some m
      → let n : MessageRow = record m { status = status; sent_at = stamped status now m.sent_at } in
        set_status s now item status
        ≡ some (n, record s { messages = set_row (λ r. r.id) n s.messages })
  unfolding set_status
  set_status_lem s m status h = rw (set_status, h)

  set_body_lem :
      (s : Store) (m : MessageRow) (body : String)
      → find_message s item ≡ some m
      → let n : MessageRow = record m { body = body } in
        set_body s item body ≡ some (n, record s { messages = set_row (λ r. r.id) n s.messages })
  unfolding set_body
  set_body_lem s m body h = rw (set_body, h)

  find_after_set :
      (s : Store) (m n : MessageRow) (j : UserId)
      → find_message s item ≡ some m
      → n.id ≡ m.id
      → find_message (record s { messages = set_row (λ r. r.id) n s.messages }) j
        ≡ (if item == j then some n else find_message s j)
  unfolding find_message
  find_after_set s m n j h k =
      rw (sym (find_row-key (λ r. r.id) item s.messages m h), sym k)
        (find_row-set_row (λ r. r.id) j n s.messages)

  -- What a verdict's writes leave of the store.
  record Written (s t : Store) (m n : MessageRow) : Type 0 where
    found : (j : UserId) → find_message t j ≡ (if item == j then some n else find_message s j)
    same_approvals : t.approvals ≡ s.approvals
    same_events : t.events ≡ s.events

  write_verdict_lem :
      (s : Store) (m : MessageRow) (v : Verdict)
      → find_message s item ≡ some m
      → is_draft m.status ≡ true
      → (t : Store) × (write_verdict now item v s ≡ (returned (verdict_row v m), t))
        × Written s t m (verdict_row v m)
  unfolding write_verdict
  write_verdict_lem s m approve h d = (
    record s { messages = set_row (λ r. r.id) (verdict_row approve m) s.messages },
    ap (λ o. updated item s o (λ n t. (returned n, t)))
        (set_status_lem s m MessageStatus.approved h),
    record {
      found = λ j. find_after_set s m (verdict_row approve m) j h refl;
      same_approvals = refl;
      same_events = refl;
    },
  )
  write_verdict_lem s m reject h d = (
    record s { messages = set_row (λ r. r.id) (verdict_row reject m) s.messages },
    ap (λ o. updated item s o (λ n t. (returned n, t)))
        (set_status_lem s m MessageStatus.rejected h),
    record {
      found = λ j. find_after_set s m (verdict_row reject m) j h refl;
      same_approvals = refl;
      same_events = refl;
    },
  )
  write_verdict_lem s m (edit_and_approve body) h d =
      let n : MessageRow = record m { body = body } in
      let s1 : Store = record s { messages = set_row (λ r. r.id) n s.messages } in
      let f1 : find_message s1 item ≡ some n = find_after_set s m n item h refl ∙ ground arith in
      let s2 : Store = record s1 {
        messages = set_row (λ r. r.id) (verdict_row (edit_and_approve body) m) s1.messages;
      } in
      (
        s2,
        ap
              (λ o. updated item s o (λ k t.
                updated item t (set_status t now item MessageStatus.approved)
                  (λ l u. (returned l, u))))
              (set_body_lem s m body h)
            ∙ ap (λ o. updated item s1 o (λ l u. (returned l, u)))
                (set_status_lem s1 n MessageStatus.approved f1),
        record {
          found = λ j. ground (
            arith,
            find_after_set s m n j h refl,
            find_after_set s1 n (verdict_row (edit_and_approve body) m) j f1 refl,
          );
          same_approvals = refl;
          same_events = refl;
        },
      )

-- What a decision on a draft does: it hands back the row with the verdict applied, every lookup finds
-- that row under the item and what was there before under every other id, and exactly one approval
-- row and one event are added.
pub record Decided (now : Time) (item : UserId) (editor : String) (v : Verdict) (s t : Store)
    (m : MessageRow) : Type 0 where
  pub found :
      (j : UserId)
      → find_message t j ≡ (if item == j then some (verdict_row v m) else find_message s j)
  pub one_approval :
      t.approvals
      ≡ s.approvals
        ++ (record {
          id = next_id s;
          pending_item_ref = item;
          decision = decision_of v;
          editor = editor;
          timestamp = now;
        })
          ∷ []
  pub one_event :
      t.events
      ≡ s.events
        ++ (record {
          ts = now;
          account_id = some m.account_id;
          kind = approval_decided item (decision_of v) editor;
        })
          ∷ []

decide_draft_lem :
    (now : Time) (item : UserId) (editor : String) (v : Verdict) (s : Store) (m : MessageRow)
    → find_message s item ≡ some m
    → is_draft m.status ≡ true
    → (t : Store) × (decide_draft now item editor v (some m) s ≡ (returned (verdict_row v m), t))
      × Decided now item editor v s t m
unfolding decide_draft create_approval record_event find_message
decide_draft_lem now item editor v s m h d =
    let s1 = create_approval s now item (decision_of v) editor in
    let w = write_verdict_lem now item s1 m v h d in
    (
      record_event w.0 now (approval_decided item (decision_of v) editor) (some m.account_id),
      rw d (ap (closed now item (decision_of v) editor m.account_id) w.1),
      record {
        found = λ j. w.2.found j;
        one_approval = w.2.same_approvals;
        one_event =
            ap
              (λ es.
                es
                ++ (record {
                  ts = now;
                  account_id = some m.account_id;
                  kind = approval_decided item (decision_of v) editor;
                })
                  ∷ [])
              w.2.same_events;
      },
    )

-- A decision on a draft succeeds and returns the message with the verdict's body and status. In the
-- store the item is that message and every other message is as it was; one approval with the
-- decision, the editor and the time is added, and one event.
pub decide_lem :
    (now : Time) (item : UserId) (editor : String) (v : Verdict) (s : Store) (m : MessageRow)
    → find_message s item ≡ some m
    → is_draft m.status ≡ true
    → (t : Store) × (decide now item editor v s ≡ (returned (verdict_row v m), t))
      × Decided now item editor v s t m
unfolding decide
decide_lem now item editor v s m h d =
    let r = decide_draft_lem now item editor v s m h d in
    (r.0, ap (λ o. decide_draft now item editor v o s) h ∙ r.1, r.2)

decided-draft : (v : Verdict) (m : MessageRow) → is_draft (verdict_row v m).status ≡ false
decided-draft approve m = refl
decided-draft reject m = refl
decided-draft (edit_and_approve b) m = refl

refuse_decided :
    (now : Time) (item : UserId) (editor : String) (v : Verdict) (s : Store) (m : MessageRow)
    → find_message s item ≡ some m
    → is_draft m.status ≡ false
    → decide now item editor v s ≡ (threw (already_decided item), s)
unfolding decide decide_draft
refuse_decided now item editor v s m h d = rw (decide, h, decide_draft, d)

-- An item is decided once: after a decision on a draft, every further decision on it throws and leaves
-- the store as it is, so a rejected draft is never approved.
pub decided_once :
    (now later : Time) (item : UserId) (editor other : String) (v w : Verdict) (s : Store)
    (m : MessageRow)
    → find_message s item ≡ some m
    → is_draft m.status ≡ true
    → let t = (decide now item editor v s).1 in
      decide later item other w t ≡ (threw (already_decided item), t)
decided_once now later item editor other v w s m h d =
    let r = decide_lem now item editor v s m h d in
    refuse_decided later item other w (decide now item editor v s).1 (verdict_row v m)
      (ap (λ x. find_message x.1 item) r.1 ∙ r.2.found item ∙ ground arith) (decided-draft v m)

verdict_row-pending_req :
    (v : Verdict) (m : MessageRow) → (verdict_row v m).pending_req ≡ m.pending_req
verdict_row-pending_req approve m = refl
verdict_row-pending_req reject m = refl
verdict_row-pending_req (edit_and_approve b) m = refl

-- The request that was bound to a new item is found under it, before and after its decision, whatever
-- the ids of the rows that are there already.
pub enqueued_req_survives :
    (now later : Time) (account target campaign : UserId) (th : ThreadRef) (body editor : String)
    (intent : Option ReplyIntent) (req : Option ActRequest) (v : Verdict) (s : Store)
    → let (row, s1) = enqueue_pending now account target campaign th body intent req s in
      (get_pending_req s1 row.id ≡ req)
      × (get_pending_req (decide later row.id editor v s1).1 row.id ≡ req)
unfolding enqueue_pending create_message record_event get_pending_req find_message
enqueued_req_survives now later account target campaign th body editor intent req v s =
    let (row, s1) = enqueue_pending now account target campaign th body intent req s in
    let f : find_message s1 row.id ≡ some row = find_row-set_row_self (λ r. r.id) row s.messages in
    let r = decide_lem later row.id editor v s1 row f refl in
    (
      ap pending f,
      ap (λ x. pending (find_message x.1 row.id)) r.1
          ∙ ap pending (r.2.found row.id)
          ∙ ap (λ b. pending (if b then some (verdict_row v row) else find_message s1 row.id))
              (==_refl row.id)
          ∙ verdict_row-pending_req v row,
    )
  where
    pending : Option MessageRow → Option ActRequest
    pending o = elim o [ none ↦ none | some row ↦ row.pending_req ]
