-- ===== src/Examples/Templates.antt =====
-- The theorems on sequences and enrollments at concrete inputs: a connect and a message a day later.
use linkedin_outreach_agent.Prelude.{
  ◌≡◌, refl, true, not, ◌==◌, none, some, List, [], ◌∷◌, ◌++◌, keep_if, map, find_row, arith,
  includes, ◌+◌,
}
use linkedin_outreach_agent.Domain.{CampaignStepType, CampaignStepRow}
use linkedin_outreach_agent.Effects.{returned}
use linkedin_outreach_agent.Store.{Store}
use linkedin_outreach_agent.Sequences.{
  SequenceStepInput, first_bad, define_campaign_steps, to_step_view, campaign_step_views,
}
use linkedin_outreach_agent.Sequences.Laws.{defined_rows, define_campaign_steps_lem}
use linkedin_outreach_agent.Calendar.Fixed.{utc}
use linkedin_outreach_agent.Store.Tables.{find_account}
use linkedin_outreach_agent.Enroll.{Enricher, EnrollResult, enroll_targets}
use linkedin_outreach_agent.Enroll.Laws.{enroll_targets_lem}
use linkedin_outreach_agent.Examples.Stores.{small}

abbrev two_steps : List SequenceStepInput
two_steps =
    (record {
      step_type = CampaignStepType.connect;
      delay_seconds = none;
      note = none;
      body = none;
      reaction = none;
      enabled = none;
    })
    ∷ (record {
      step_type = CampaignStepType.message;
      delay_seconds = some 86_400;
      note = none;
      body = some "hello";
      reaction = none;
      enabled = none;
    })
    ∷ []

-- A store with an old step of the campaign and one of another.
abbrev old_step : CampaignStepRow
old_step = record {
  id = 5;
  campaign_id = 3;
  step_order = 0;
  step_type = CampaignStepType.follow;
  delay_seconds = 0;
  note = none;
  body = none;
  reaction = none;
  enabled = true;
}

abbrev stepped : Store
stepped = record small { steps = old_step ∷ record old_step { id = 6; campaign_id = 4 } ∷ [] }

define_campaign_steps_lem_example :
    let views = map to_step_view (defined_rows 3 0 50 two_steps) in
    (t : Store) × (define_campaign_steps 3 two_steps stepped ≡ (returned views, t))
    × (campaign_step_views t 3 ≡ views)
    × (t.steps
        ≡ keep_if (λ r. not (r.campaign_id == 3)) stepped.steps ++ defined_rows 3 0 50 two_steps)
unfolding find_row first_bad
define_campaign_steps_lem_example =
    define_campaign_steps_lem 3 two_steps stepped (refl, (refl, tt))
      (omega arith, (omega arith, tt)) refl

abbrev no_profile : Enricher
no_profile = some (λ urn account. none)

-- A target of the store and one that it does not have; the enricher reads nothing.
enroll_targets_lem_example :
    (r : EnrollResult) × (t : Store) × (enroll_targets utc 400_000_000 3 7 no_profile
        (20 ∷ 21 ∷ [])
        stepped
      ≡ (returned r, t))
    × (r.enrolled + r.skipped_removed + r.skipped_cross_campaign ≡ 2)
unfolding includes find_account find_row
enroll_targets_lem_example =
    enroll_targets_lem utc 400_000_000 3 (omega arith) (λ k. omega arith) 3 7 no_profile
      (20 ∷ 21 ∷ []) stepped (λ type. record { early = omega arith; active = refl })
