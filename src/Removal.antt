-- ===== src/Removal.antt =====
-- The removal of targets from a campaign: the policy of shared/src/campaign-removal.ts and its use
-- in removeTargets of runtime/src/adapters/mcp-ports.ts.
pub mod Laws
pub mod Ids
pub mod Choice
pub mod Cancels
pub mod Pass
use text.Mathlib.Text.{◌==◌ as ◌=s◌}
use linkedin_outreach_agent.Prelude.{
  ℕ, String, Bool, true, false, ◌&&◌, ◌||◌, Option, none, some, List, [], ◌∷◌, ◌++◌, map, ◌==◌,
  if◌then◌else◌, length, keep_if, includes, eq_text, find_row, set_row,
}
use linkedin_outreach_agent.Domain.{
  UserId, Time, Text, Json, json_flag, TargetRow, TargetStage, StopReason, removed_by_operator,
  EventKind, target_removed, is_contacted_stage,
}
use linkedin_outreach_agent.Effects.{
  Step, returned, threw, not_found, other_error, ret, ◌>>=◌, ◌>>◌,
}
use linkedin_outreach_agent.Store.{Store}
use linkedin_outreach_agent.Store.Tables.{
  find_target, set_stage, list_targets_by_campaign, record_event,
}
use linkedin_outreach_agent.Store.Funnel.{exclude_target_from_funnel}

-- `TargetRemovalDecision`
pub record TargetRemovalDecision : Type 0 where
  pub target_id : UserId
  pub linkedin_urn : Text
  pub was_contacted : Bool

-- `CampaignTargetRemovalPlan`
pub record RemovalPlan : Type 0 where
  pub reason : String
  pub decisions : List TargetRemovalDecision
  pub lost_target_ids : List UserId
  pub events : List EventKind

unfoldable pub decision_of : TargetRow → TargetRemovalDecision
decision_of t = record {
  target_id = t.id;
  linkedin_urn = t.linkedin_urn;
  was_contacted = is_contacted_stage t.stage;
}

unfoldable pub removal_event : UserId → String → TargetRemovalDecision → EventKind
removal_event campaign reason d =
    target_removed campaign d.target_id d.linkedin_urn reason d.was_contacted

abbrev pub decision_ids : List TargetRemovalDecision → List UserId
decision_ids [] = []
decision_ids (d ∷ ds) = d.target_id ∷ decision_ids ds

-- `planCampaignTargetRemoval`
unfoldable pub plan_campaign_target_removal : UserId → List TargetRow → String → RemovalPlan
unfolding decision_of removal_event
plan_campaign_target_removal campaign owned reason =
    let decisions = map decision_of owned in
    record {
      reason = reason;
      decisions = decisions;
      lost_target_ids = decision_ids (keep_if (λ d. d.was_contacted) decisions);
      events = map (removal_event campaign reason) decisions;
    }

-- A selector of `removeTargets`, and what of it belongs to no target.
pub record RemoveSelector : Type 0 where
  pub target_ids : List UserId
  pub linkedin_urns : List Text

pub data Missing : Type 0 where
  missing_id : UserId → Missing
  missing_urn : Text → Missing

-- `toRemove`, a set in the order of insertion, and `notFound`.
pub record Chosen : Type 0 where
  pub to_remove : List UserId
  pub not_found : List Missing

unfoldable pub add_once : List UserId → UserId → List UserId
add_once ids id = if includes ids id then ids else ids ++ id ∷ []

unfoldable pub add_all : List UserId → List TargetRow → List UserId
unfolding add_once
add_all ids [] = ids
add_all ids (t ∷ ts) = add_all (add_once ids t.id) ts

-- The body of the loop over the ids.
unfoldable pub choose_id : List TargetRow → Chosen → UserId → Chosen
unfolding add_once
choose_id rows c id = elim (find_row (λ t. t.id) id rows) [
  | none ↦ record c { not_found = c.not_found ++ missing_id id ∷ [] }
  | some t ↦ record c { to_remove = add_once c.to_remove id }
]

unfoldable pub choose_ids : List TargetRow → List UserId → Chosen → Chosen
unfolding choose_id
choose_ids rows [] c = c
choose_ids rows (id ∷ ids) c = choose_ids rows ids (choose_id rows c id)

-- The rows that a urn has in the campaign.
unfoldable pub rows_of_urn : List TargetRow → Text → List TargetRow
rows_of_urn rows urn = keep_if (λ t. eq_text t.linkedin_urn urn) rows

-- The body of the loop over the urns, with the rows that the urn has.
unfoldable pub add_urn : Chosen → Text → List TargetRow → Chosen
unfolding add_all
add_urn c urn [] = record c { not_found = c.not_found ++ missing_urn urn ∷ [] }
add_urn c urn (t ∷ ts) = record c { to_remove = add_all c.to_remove (t ∷ ts) }

unfoldable pub choose_urn : List TargetRow → Chosen → Text → Chosen
unfolding rows_of_urn add_urn
choose_urn rows c urn = add_urn c urn (rows_of_urn rows urn)

unfoldable pub choose_urns : List TargetRow → List Text → Chosen → Chosen
unfolding choose_urn
choose_urns rows [] c = c
choose_urns rows (urn ∷ urns) c = choose_urns rows urns (choose_urn rows c urn)

-- The rows of `toRemove`.
abbrev pub onto_found : Option TargetRow → List TargetRow → List TargetRow
onto_found none rest = rest
onto_found (some t) rest = t ∷ rest

unfoldable pub owned_rows : List TargetRow → List UserId → List TargetRow
owned_rows rows [] = []
owned_rows rows (id ∷ ids) = onto_found (find_row (λ t. t.id) id rows) (owned_rows rows ids)

-- `InMemTargetRepo.setExternalContext`
unfoldable pub set_external_context : Store → UserId → List (String × Json) → Option Store
set_external_context s id context = elim (find_target s id) [
  | none ↦ none
  | some cur ↦ some (record s {
    targets = set_row (λ r. r.id) (record cur { external_context = context }) s.targets;
  })
]

-- `ec.removed === true`
unfoldable pub removed_flag : List (String × Json) → Bool
removed_flag [] = false
removed_flag ((j, v) ∷ m) =
    let rest = removed_flag m in
    if j =s "removed" then elim v [ json_flag b ↦ b | _ ↦ false ] else rest

abbrev pub attempt : UserId → (Store → Option Store) → Step Store (Unit {0})
attempt id f s = elim (f s) [ none ↦ (threw (not_found id), s) | some t ↦ (returned tt, t) ]

-- The body of the loop.
unfoldable pub remove_one : Time → String → Bool → TargetRow → EventKind → Step Store (Unit {0})
unfolding set_external_context
remove_one now reason is_lost target event s =
    ((if is_lost then attempt target.id (λ u. set_stage u target.id TargetStage.lost) else ret tt)
        >> attempt target.id (λ u.
          set_external_context u target.id (("removed", json_flag true) ∷ target.external_context))
        >> (λ u. (returned tt, record_event u now event none)))
      (exclude_target_from_funnel s target.id (removed_by_operator reason))

-- The loop over `plan.decisions`.
unfoldable pub remove_on :
    Time
    → List TargetRow
    → String
    → List UserId
    → List TargetRemovalDecision
    → List EventKind
    → Step Store (Unit {0})
unfolding remove_one
remove_on now rows reason lost [] events = ret tt
remove_on now rows reason lost (d ∷ ds) [] = λ s. (threw (other_error "no event"), s)
remove_on now rows reason lost (d ∷ ds) (e ∷ events) =
    elim (find_row (λ t. t.id) d.target_id rows) [
      | none ↦ λ s. (threw (other_error "no target"), s)
      | some target ↦
          remove_one now reason (includes lost d.target_id) target e
          >> remove_on now rows reason lost ds events
    ]

-- `removeTargets`: the number of removed targets, and what was not found.
unfoldable pub remove_targets :
    Time → UserId → RemoveSelector → String → Step Store (ℕ × List Missing)
unfolding choose_ids choose_urns owned_rows remove_on plan_campaign_target_removal
remove_targets now campaign selector reason s =
    let rows = list_targets_by_campaign s campaign in
    let chosen =
      choose_urns rows selector.linkedin_urns
        (choose_ids rows selector.target_ids (record { to_remove = []; not_found = [] })) in
    let plan = plan_campaign_target_removal campaign (owned_rows rows chosen.to_remove) reason in
    (remove_on now rows plan.reason plan.lost_target_ids plan.decisions plan.events
        >> ret (length plan.decisions, chosen.not_found))
      s
