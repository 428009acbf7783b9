-- ===== src/Sequences.antt =====
-- The sequence of a campaign: the step templates of the in-memory store and defineCampaignSteps of
-- runtime/src/adapters/mcp-ports.ts, which replaces them.
pub mod Deletes
pub mod Laws
use Prim.Native.Char.{code}
use linkedin_outreach_agent.Prelude.{
  ℕ, suc, ◌+◌, String, Bool, true, false, ◌&&◌, ◌||◌, not, Option, none, some, List, [], ◌∷◌, map,
  ltb, ◌==◌, if◌then◌else◌, get_or, find_row, set_row, delete_row,
}
use linkedin_outreach_agent.Domain.{UserId, CampaignStepRow, CampaignStepType}
use linkedin_outreach_agent.Effects.{Step, returned, threw, other_error}
use linkedin_outreach_agent.Store.{Store, next_id}
use linkedin_outreach_agent.Store.Sequence.{list_campaign_steps}
use linkedin_outreach_agent.Texts.{is_space}

-- `NewCampaignStepRow`
pub record NewCampaignStep : Type 0 where
  pub id : Option UserId
  pub campaign_id : UserId
  pub step_order : ℕ
  pub step_type : CampaignStepType
  pub delay_seconds : Option ℕ
  pub note : Option String
  pub body : Option String
  pub reaction : Option String
  pub enabled : Option Bool

-- The row of a step, with what stands in place of a missing delay and a missing flag.
unfoldable pub step_row : NewCampaignStep → UserId → ℕ → Bool → CampaignStepRow
step_row step id delay enabled = record {
  id = id;
  campaign_id = step.campaign_id;
  step_order = step.step_order;
  step_type = step.step_type;
  delay_seconds = get_or step.delay_seconds delay;
  note = step.note;
  body = step.body;
  reaction = step.reaction;
  enabled = get_or step.enabled enabled;
}

-- A new row, under a new id when it comes without one.
unfoldable pub insert_step : NewCampaignStep → Store → CampaignStepRow × Store
unfolding step_row
insert_step step s = elim step.id [
  | none ↦
      let full = step_row step (next_id s) 0 true in
      (full, record s { steps = set_row (λ r. r.id) full s.steps; counter = next_id s })
  | some id ↦
      let full = step_row step id 0 true in
      (full, record s { steps = set_row (λ r. r.id) full s.steps })
]

-- `upsertCampaignStep`
unfoldable pub upsert_campaign_step : NewCampaignStep → Store → CampaignStepRow × Store
unfolding insert_step step_row
upsert_campaign_step step s = elim step.id [
  | none ↦ insert_step step s
  | some id ↦ elim (find_row (λ r. r.id) id s.steps) [
    | none ↦ insert_step step s
    | some cur ↦
        let next = step_row step cur.id cur.delay_seconds cur.enabled in
        (next, record s { steps = set_row (λ r. r.id) next s.steps })
  ]
]

-- `deleteCampaignStep`
unfoldable pub delete_campaign_step : UserId → Store → Store
delete_campaign_step id s = record s { steps = delete_row (λ r. r.id) id s.steps }

-- `reorderCampaignSteps`, from index `i` on.
unfoldable pub reorder_one : UserId → UserId → ℕ → Store → Store
reorder_one campaign id i s = elim (find_row (λ r. r.id) id s.steps) [
  | none ↦ s
  | some cur ↦
      if cur.campaign_id == campaign
      then record s { steps = set_row (λ r. r.id) (record cur { step_order = i }) s.steps }
      else s
]

unfoldable pub reorder_on : UserId → List UserId → ℕ → Store → Store
unfolding reorder_one
reorder_on campaign [] i s = s
reorder_on campaign (id ∷ ids) i s = reorder_on campaign ids (suc i) (reorder_one campaign id i s)

unfoldable pub reorder_campaign_steps : UserId → List UserId → Store → Store
unfolding reorder_on
reorder_campaign_steps campaign ids s = reorder_on campaign ids 0 s

-- `SequenceStepInput`
pub record SequenceStepInput : Type 0 where
  pub step_type : CampaignStepType
  pub delay_seconds : Option ℕ
  pub note : Option String
  pub body : Option String
  pub reaction : Option String
  pub enabled : Option Bool

-- `CampaignStepView`
pub record CampaignStepView : Type 0 where
  pub id : UserId
  pub step_order : ℕ
  pub step_type : CampaignStepType
  pub delay_seconds : ℕ
  pub note : Option String
  pub body : Option String
  pub reaction : Option String
  pub enabled : Bool

-- `toStepView`
unfoldable pub to_step_view : CampaignStepRow → CampaignStepView
to_step_view row = record {
  id = row.id;
  step_order = row.step_order;
  step_type = row.step_type;
  delay_seconds = row.delay_seconds;
  note = row.note;
  body = row.body;
  reaction = row.reaction;
  enabled = row.enabled;
}

-- `!body.trim()`
unfoldable pub is_blank : String → Bool
unfolding is_space
is_blank String.[] = true
is_blank (String.◌∷◌ c s) = is_space (code c) && is_blank s

abbrev pub lacks_delay : Option ℕ → Bool
lacks_delay none = true
lacks_delay (some d) = not (ltb 0 d)

abbrev pub lacks_body : Option String → Bool
lacks_body none = true
lacks_body (some b) = is_blank b

-- The test of one step: the message of the error, less the number of the step, if there is one.
unfoldable pub bad_step : SequenceStepInput → Option String
unfolding is_blank
bad_step step = elim step.step_type [
  | CampaignStepType.delay ↦
      if lacks_delay step.delay_seconds then some "a delay step needs delaySeconds > 0" else none
  | CampaignStepType.message ↦
      if lacks_body step.body then some "a message step needs a non-empty body" else none
  | CampaignStepType.view_profile ↦ none
  | CampaignStepType.connect ↦ none
  | CampaignStepType.follow ↦ none
  | CampaignStepType.react ↦ none
]

unfoldable pub first_bad : List SequenceStepInput → Option String
unfolding bad_step
first_bad [] = none
first_bad (step ∷ steps) = elim (bad_step step) [ some e ↦ some e | none ↦ first_bad steps ]

unfoldable pub delete_steps : List CampaignStepRow → Store → Store
unfolding delete_campaign_step
delete_steps [] s = s
delete_steps (r ∷ rs) s = delete_steps rs (delete_campaign_step r.id s)

unfoldable pub new_step : UserId → ℕ → SequenceStepInput → NewCampaignStep
new_step campaign order step = record {
  id = none;
  campaign_id = campaign;
  step_order = order;
  step_type = step.step_type;
  delay_seconds = some (get_or step.delay_seconds 0);
  note = step.note;
  body = step.body;
  reaction = step.reaction;
  enabled = some (get_or step.enabled true);
}

unfoldable pub insert_steps : UserId → ℕ → List SequenceStepInput → Store → Store
unfolding upsert_campaign_step new_step
insert_steps campaign order [] s = s
insert_steps campaign order (step ∷ steps) s =
    insert_steps campaign (order + 1) steps
      (upsert_campaign_step (new_step campaign order step) s).1

-- `listCampaignSteps`
unfoldable pub campaign_step_views : Store → UserId → List CampaignStepView
unfolding list_campaign_steps to_step_view
campaign_step_views s campaign = map to_step_view (list_campaign_steps s campaign)

-- `defineCampaignSteps`
unfoldable pub define_campaign_steps :
    UserId → List SequenceStepInput → Step Store (List CampaignStepView)
unfolding first_bad delete_steps insert_steps list_campaign_steps to_step_view
define_campaign_steps campaign steps s = elim (first_bad steps) [
  | some e ↦ (threw (other_error e), s)
  | none ↦
      let t = insert_steps campaign 0 steps (delete_steps (list_campaign_steps s campaign) s) in
      (returned (map to_step_view (list_campaign_steps t campaign)), t)
]
