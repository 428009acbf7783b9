-- ===== src/Examples/Audience.antt =====
-- The theorems on the targets of a campaign at concrete inputs.
use linkedin_outreach_agent.Prelude.{
  ◌≡◌, refl, ◌||◌, none, [], ◌∷◌, ◌++◌, map, keep_if, List, arith,
}
use linkedin_outreach_agent.Domain.{Text}
use linkedin_outreach_agent.Profile.{profile_prefix, canonical_profile_key}
use linkedin_outreach_agent.Store.Tables.{list_targets_by_campaign}
use linkedin_outreach_agent.Campaigns.{AddTargetInput, has_key, add_targets}
use linkedin_outreach_agent.Campaigns.Laws.{IsDistinct, campaign_keys, add_targets-has_key}
use linkedin_outreach_agent.Campaigns.Distinct.{add_targets-IsDistinct}
use linkedin_outreach_agent.Examples.Stores.{small}

abbrev carl : Text
carl = profile_prefix ++ 99 ∷ []

abbrev wrapped_carl : Text
wrapped_carl = 40 ∷ carl ++ 41 ∷ []

abbrev person : Text → AddTargetInput
person urn = record { prospect_ref = "p"; linkedin_urn = urn; external_context = none }

-- Anna, whom the campaign has, and Carl twice.
abbrev batch : List AddTargetInput
batch = person (profile_prefix ++ 97 ∷ 98 ∷ []) ∷ person wrapped_carl ∷ person carl ∷ []

add_targets-IsDistinct_example : IsDistinct (campaign_keys 3 (add_targets 9 3 batch small).1)
unfolding IsDistinct campaign_keys has_key list_targets_by_campaign keep_if
add_targets-IsDistinct_example = add_targets-IsDistinct 9 3 batch small (refl, tt)

add_targets-has_key_example : has_key (campaign_keys 3 (add_targets 9 3 batch small).1) carl ≡ (
    has_key (campaign_keys 3 small) carl
    || has_key (map (λ t. canonical_profile_key t.linkedin_urn) batch) carl)
add_targets-has_key_example =
    add_targets-has_key 9 3 batch small carl (omega arith, (omega arith, tt))
