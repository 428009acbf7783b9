-- ===== src/Campaigns.antt =====
-- `CampaignService.addTargets` of control-plane/orchestrator/src/campaigns.ts over the in-memory
-- store, with the store's `create` and `createMany` of targets. The read and the write of one
-- call are not interleaved with those of another.
pub mod Autonomy
pub mod Distinct
pub mod Laws
use linkedin_outreach_agent.Prelude.{
  String, Bool, false, ◌-◌, ◌||◌, Option, none, List, [], ◌∷◌, set_row, map, if◌then◌else◌, length,
  get_or, eq_text,
}
use linkedin_outreach_agent.Domain.{UserId, Time, Text, Json, TargetRow, TargetStage, targets_added}
use linkedin_outreach_agent.Profile.{canonical_profile_key}
use linkedin_outreach_agent.Store.{Store, next_id}
use linkedin_outreach_agent.Store.Tables.{list_targets_by_campaign, record_event}

pub record AddTargetInput : Type 0 where
  pub prospect_ref : String
  pub linkedin_urn : Text
  pub external_context : Option (List (String × Json))

-- `Set.has` on texts.
unfoldable pub has_key : List Text → Text → Bool
has_key [] key = false
has_key (k ∷ ks) key = eq_text k key || has_key ks key

unfoldable pub with_key : AddTargetInput → AddTargetInput
with_key t = record t { linkedin_urn = canonical_profile_key t.linkedin_urn }

-- The loop over `canon`, with the set of the keys that it has seen.
unfoldable pub fresh_targets : List Text → List AddTargetInput → List AddTargetInput
fresh_targets seen [] = []
fresh_targets seen (t ∷ ts) =
    let skipped = fresh_targets seen ts in
    let kept = t ∷ fresh_targets (t.linkedin_urn ∷ seen) ts in
    if has_key seen t.linkedin_urn then skipped else kept

-- The key by which a target counts as seen.
abbrev pub row_key : TargetRow → Text
row_key t = canonical_profile_key t.linkedin_urn

unfoldable pub new_target : UserId → AddTargetInput → Store → TargetRow
new_target campaign_id t s = record {
  id = next_id s;
  campaign_id = campaign_id;
  prospect_ref = t.prospect_ref;
  linkedin_urn = t.linkedin_urn;
  external_context = get_or t.external_context [];
  stage = TargetStage.sourced;
}

-- `InMemTargetRepo.create`
unfoldable pub create_target : UserId → AddTargetInput → Store → TargetRow × Store
create_target campaign_id t s =
    let row = new_target campaign_id t s in
    (row, record s { targets = set_row (λ r. r.id) row s.targets; counter = next_id s })

-- `InMemTargetRepo.createMany`
unfoldable pub create_many_targets : UserId → List AddTargetInput → Store → List TargetRow × Store
create_many_targets campaign_id [] s = ([], s)
create_many_targets campaign_id (t ∷ ts) s =
    let created = create_target campaign_id t s in
    let rest = create_many_targets campaign_id ts created.1 in (created.0 ∷ rest.0, rest.1)

-- What `addTargets` inserts.
unfoldable pub to_create : UserId → List AddTargetInput → Store → List AddTargetInput
to_create campaign_id inputs s =
    fresh_targets (map row_key (list_targets_by_campaign s campaign_id)) (map with_key inputs)

-- `addTargets`
unfoldable pub add_targets : Time → UserId → List AddTargetInput → Store → List TargetRow × Store
unfolding to_create
add_targets now campaign_id inputs s =
    let made = create_many_targets campaign_id (to_create campaign_id inputs s) s in
    let skipped = length inputs - length made.0 in
    (made.0, record_event made.1 now (targets_added campaign_id (length made.0) skipped) none)
