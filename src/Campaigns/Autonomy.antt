-- ===== src/Campaigns/Autonomy.antt =====
-- createCampaign, setAutonomyLevel and readAutonomyLevel of
-- control-plane/orchestrator/src/campaigns.ts, over the store's repository of campaigns.
use linkedin_outreach_agent.Prelude.{
  String, ◌≡◌, Option, none, some, ◌==◌, if◌then◌else◌, get_or, find_row-set_row, find_row-key,
  set_row, arith,
}
use linkedin_outreach_agent.Domain.{
  UserId, Time, AutonomyLevel, CampaignRow, campaign_created, autonomy_set,
}
use linkedin_outreach_agent.Effects.{Step, returned, threw, not_found}
use linkedin_outreach_agent.Store.{Store, next_id}
use linkedin_outreach_agent.Store.Tables.{find_campaign, record_event}

pub record CreateCampaignInput : Type 0 where
  pub goal : String
  pub message_strategy : String
  pub owner : String
  pub autonomy_level : Option AutonomyLevel

-- `InMemCampaignRepo.create`
unfoldable pub create_campaign_row : CreateCampaignInput → Store → CampaignRow × Store
create_campaign_row input s =
    let full : CampaignRow = record {
      id = next_id s;
      goal = input.goal;
      autonomy_level = get_or input.autonomy_level AutonomyLevel.supervised;
      message_strategy = input.message_strategy;
      owner = input.owner;
    } in
    (full, record s { campaigns = set_row (λ r. r.id) full s.campaigns; counter = next_id s })

-- `createCampaign`
unfoldable pub create_campaign : Time → CreateCampaignInput → Store → CampaignRow × Store
unfolding create_campaign_row
create_campaign now input s =
    let made = create_campaign_row input s in
    (made.0, record_event made.1 now (campaign_created made.0.id input.owner) none)

-- `InMemCampaignRepo.setAutonomy`
unfoldable pub set_autonomy : Store → UserId → AutonomyLevel → Option (CampaignRow × Store)
set_autonomy s id level = elim (find_campaign s id) [
  | none ↦ none
  | some cur ↦
      let next = record cur { autonomy_level = level } in
      some (next, record s { campaigns = set_row (λ r. r.id) next s.campaigns })
]

-- `setAutonomyLevel`
unfoldable pub set_autonomy_level : Time → UserId → AutonomyLevel → Step Store CampaignRow
unfolding set_autonomy
set_autonomy_level now id level s = elim (set_autonomy s id level) [
  | none ↦ (threw (not_found id), s)
  | some made ↦ (returned made.0, record_event made.1 now (autonomy_set id level) none)
]

-- `readAutonomyLevel`
unfoldable pub read_autonomy_level : Store → UserId → Option AutonomyLevel
unfolding find_campaign
read_autonomy_level s id = elim (find_campaign s id) [
  | none ↦ none
  | some row ↦ some row.autonomy_level
]

-- A level that is set is the one that is read of that campaign; of every other campaign the same
-- level is read as before. There is a row of the campaign.
pub read_autonomy_level-set_autonomy_level :
    (now : Time) (id j : UserId) (level : AutonomyLevel) (row : CampaignRow) (s : Store)
    → find_campaign s id ≡ some row
    → read_autonomy_level (set_autonomy_level now id level s).1 j
      ≡ (if id == j then some level else read_autonomy_level s j)
unfolding read_autonomy_level set_autonomy_level set_autonomy find_campaign record_event
read_autonomy_level-set_autonomy_level now id j level row s h = ground (
  arith,
  h,
  find_row-key (λ r. r.id) id s.campaigns row,
  find_row-set_row (λ r. r.id) j (record row { autonomy_level = level }) s.campaigns,
)

-- A new campaign is read with the level that it was given, and supervised if it was given none.
pub read_autonomy_level-create_campaign :
    (now : Time) (input : CreateCampaignInput) (j : UserId) (s : Store)
    → read_autonomy_level (create_campaign now input s).1 j ≡ (
        if (next_id s) == j
        then some (get_or input.autonomy_level AutonomyLevel.supervised)
        else read_autonomy_level s j)
unfolding read_autonomy_level create_campaign create_campaign_row find_campaign record_event
read_autonomy_level-create_campaign now input j s =
    ground (arith, find_row-set_row (λ r. r.id) j (create_campaign_row input s).0 s.campaigns)
