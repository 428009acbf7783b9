-- ===== src/Examples/Stores.antt =====
-- The theorems on the store, the approvals and the suppression at concrete inputs.
use linkedin_outreach_agent.Prelude.{
  ◌≡◌, refl, true, not, ◌==◌, none, some, [], ◌∷◌, ◌++◌, All, keep_if, find_row, Pairs,
}
use mathlib.Core.List.{Perm}
use linkedin_outreach_agent.Domain.{
  Text, ActionType, text_payload, ActRequest, MessageDirection, MessageStatus, MessageRow,
  ProgressState, TargetProgressRow, TargetRow, TargetStage, ThreadRef, StopReason, already_decided,
}
use linkedin_outreach_agent.Effects.{returned, threw}
use linkedin_outreach_agent.Store.{Store, empty_store}
use linkedin_outreach_agent.Store.Tables.{find_message, find_target}
use linkedin_outreach_agent.Store.Sequence.{is_due, due_order, due_target_progress}
use linkedin_outreach_agent.Store.Funnel.{pull_target_from_funnel, exclude_target_from_funnel}
use linkedin_outreach_agent.Store.FunnelLaws.{
  IsStopped, IsSilent, StoppedBy, CancelledFor, pull_target_from_funnel_lem,
}
use linkedin_outreach_agent.Store.Order.{Sorted, due_target_progress-Sorted}
use linkedin_outreach_agent.Approvals.{
  approve, reject, edit_and_approve, decide, enqueue_pending, get_pending_req,
}
use linkedin_outreach_agent.Approvals.Laws.{
  verdict_row, Decided, decide_lem, decided_once, enqueued_req_survives,
}
use linkedin_outreach_agent.Profile.{
  canonical_profile_key, profile_prefix, first_match, match_here, after, id_chars, is_id_char,
  with_id,
}
use linkedin_outreach_agent.Suppression.{suppress_by_target, is_suppressed, suppress_by_target_lem}

abbrev pub request : ActRequest
request = record {
  account_id = 7;
  target_id = 20;
  campaign_id = 3;
  type = ActionType.message;
  payload = text_payload "hi";
}

abbrev pub draft : MessageRow
draft = record {
  id = 40;
  account_id = 7;
  target_id = 20;
  direction = MessageDirection.outbound;
  body = "hello";
  thread_ref = ThreadRef.pending_send 7 20;
  intent = none;
  status = MessageStatus.draft;
  pending_req = some request;
  created_at = 0;
  sent_at = none;
}

abbrev pub cursor : TargetProgressRow
cursor = record {
  id = 30;
  campaign_id = 3;
  target_id = 20;
  account_id = 7;
  current_step = 0;
  state = ProgressState.in_progress;
  next_step_at = none;
  last_step_at = none;
  error_message = none;
  created_at = 0;
}

-- Ids of the profile "ab", bare and in the wrapper of a search.
abbrev bare : Text
bare = profile_prefix ++ 97 ∷ 98 ∷ []

abbrev wrapped : Text
wrapped = 117 ∷ 40 ∷ profile_prefix ++ 97 ∷ 98 ∷ 44 ∷ 83 ∷ []

abbrev pub lead : TargetRow
lead = record {
  id = 20;
  campaign_id = 3;
  prospect_ref = "p";
  linkedin_urn = bare;
  external_context = [];
  stage = TargetStage.connected;
}

abbrev twin : TargetRow
twin = record lead { id = 21; campaign_id = 4; linkedin_urn = wrapped }

abbrev pub small : Store
small = record empty_store {
  targets = lead ∷ twin ∷ [];
  messages = draft ∷ [];
  progress = cursor ∷ [];
  counter = 50;
}

pull_target_from_funnel_lem_example :
    let q = pull_target_from_funnel small 20 StopReason.reply in
    Pairs (StoppedBy 20 StopReason.reply ProgressState.replied) small.progress q.progress
    × Pairs (CancelledFor 20) small.messages q.messages
    × All (IsStopped 20) q.progress
    × All (IsSilent 20) q.messages
    × ((r : StopReason) → exclude_target_from_funnel q 20 r ≡ q)
    × ((r : StopReason) → pull_target_from_funnel q 20 r ≡ q)
    × (keep_if (λ p. not (p.target_id == 20)) q.progress
        ≡ keep_if (λ p. not (p.target_id == 20)) small.progress)
    × (keep_if (λ m. not (m.target_id == 20)) q.messages
        ≡ keep_if (λ m. not (m.target_id == 20)) small.messages)
pull_target_from_funnel_lem_example = pull_target_from_funnel_lem small 20 StopReason.reply

due_target_progress-Sorted_example :
    Perm (due_target_progress small 1000) (keep_if (is_due 1000) small.progress)
    × Sorted due_order (due_target_progress small 1000)
    × All (λ p. is_due 1000 p ≡ true) (due_target_progress small 1000)
due_target_progress-Sorted_example = due_target_progress-Sorted small 1000

decide_lem_example :
    (t : Store) × (decide 9 40 "op" (edit_and_approve "hello Anna") small
      ≡ (returned (verdict_row (edit_and_approve "hello Anna") draft), t))
    × Decided 9 40 "op" (edit_and_approve "hello Anna") small t draft
unfolding find_message find_row
decide_lem_example = decide_lem 9 40 "op" (edit_and_approve "hello Anna") small draft refl refl

decided_once_example :
    let t = (decide 9 40 "op" reject small).1 in
    decide 10 40 "boss" approve t ≡ (threw (already_decided 40), t)
unfolding find_message find_row
decided_once_example = decided_once 9 10 40 "op" "boss" reject approve small draft refl refl

enqueued_req_survives_example :
    let (row, s1) =
      enqueue_pending 9 7 20 3 (ThreadRef.pending_send 7 20) "hi" none (some request) small in
    (get_pending_req s1 row.id ≡ some request)
    × (get_pending_req (decide 10 row.id "op" approve s1).1 row.id ≡ some request)
enqueued_req_survives_example =
    enqueued_req_survives 9 10 7 20 3 (ThreadRef.pending_send 7 20) "hi" "op" none (some request)
      approve small

suppress_by_target_lem_example : is_suppressed (suppress_by_target 9 20 small).1 21 ≡ true
unfolding find_target find_row canonical_profile_key first_match match_here after id_chars
    is_id_char with_id
suppress_by_target_lem_example = suppress_by_target_lem small 9 20 21 lead twin refl refl refl
