-- ===== src/Enroll.antt =====
-- enrollTargets of runtime/src/adapters/mcp-ports.ts: which targets get a cursor into
-- the campaign's sequence, and from when on. The enricher reads live profiles: it is a function that
-- the port is given, without access to the store.
pub mod Slots
pub mod Ready
pub mod Laws
use linkedin_outreach_agent.Prelude.{
  ℕ, suc, ◌+◌, String, Bool, true, false, ◌&&◌, not, Option, none, some, List, [], ◌∷◌, ◌++◌, map,
  ltb, ◌==◌, if◌then◌else◌, get_or, length, keep_if, any_of, find_first, eq_text,
}
use linkedin_outreach_agent.Domain.{
  UserId, Time, Text, Json, json_text, ActionType, AccountSchedule, AccountLimits, CampaignStepRow,
  CampaignStepType, ProgressState, TargetRow, TargetProgressRow, is_contacted_stage,
  default_schedule, default_caps, external_context_attached,
}
use linkedin_outreach_agent.Calendar.{Zone}
use linkedin_outreach_agent.Effects.{
  Step, returned, threw, not_found, other_error, ret, ◌>>=◌, ◌>>◌,
}
use linkedin_outreach_agent.Safety.Config.{default_config}
use linkedin_outreach_agent.Safety.Schedule.{effective_schedule}
use linkedin_outreach_agent.Profile.{canonical_profile_key}
use linkedin_outreach_agent.Matching.{context_text}
use linkedin_outreach_agent.Removal.{removed_flag}
use linkedin_outreach_agent.Store.{Store}
use linkedin_outreach_agent.Store.Tables.{
  find_account, find_target, list_by_urn, merge_external_context, record_event,
}
use linkedin_outreach_agent.Store.Sequence.{list_campaign_steps, enroll_target, is_in_progress}
use linkedin_outreach_agent.Enroll.Slots.{Allocator, next_start, enroll_stagger}
use linkedin_outreach_agent.Dispatch.Stagger.{Occupancy, no_one, take_ledger, ledger_day, next}

-- `CompanyEnricher`: what a profile says.
pub record Company : Type 0 where
  pub company_source : Text
  pub current_company : Option Text
  pub current_title : Option Text

abbrev pub Enricher : Type 0
Enricher = Option (Text → UserId → Option Company)

-- `COMPANY_SOURCE_PROFILE`
abbrev pub company_source_profile : Text
company_source_profile = 112 ∷ 114 ∷ 111 ∷ 102 ∷ 105 ∷ 108 ∷ 101 ∷ []

-- `ec.companySource !== COMPANY_SOURCE_PROFILE`, negated.
unfoldable pub is_verified : List (String × Json) → Bool
unfolding context_text
is_verified ec = elim (context_text "companySource" ec) [
  | none ↦ false
  | some t ↦ eq_text t company_source_profile
]

-- `...(v ? { key: v } : {})`
abbrev pub entry : String → Option Text → List (String × Json)
entry key none = []
entry key (some []) = []
entry key (some (c ∷ cs)) = (key, json_text (c ∷ cs)) ∷ []

unfoldable pub company_patch : Company → List (String × Json)
company_patch got =
    ("companySource", json_text got.company_source) ∷ entry "currentCompany" got.current_company
    ++ entry "currentTitle" got.current_title

-- `attachExternalContext` of an object.
unfoldable pub attach_external_context :
    Time → UserId → List (String × Json) → Step Store (Unit {0})
unfolding merge_external_context
attach_external_context now id patch s = elim (merge_external_context s id patch) [
  | none ↦ (threw (not_found id), s)
  | some t ↦ (returned tt, record_event t now (external_context_attached id) none)
]

unfoldable pub enrich_target : Time → Enricher → UserId → UserId → TargetRow → Step Store (Unit {0})
unfolding is_verified company_patch attach_external_context
enrich_target now none account id target = ret tt
enrich_target now (some enrich) account id target =
    if is_verified target.external_context
    then ret tt
    else (elim (enrich target.linkedin_urn account) [
      | none ↦ ret tt
      | some got ↦ attach_external_context now id (company_patch got)
    ])

unfoldable pub contacted_elsewhere : Store → UserId → TargetRow → Bool
unfolding list_by_urn
contacted_elsewhere s campaign target =
    any_of (λ t. not (t.campaign_id == campaign) && is_contacted_stage t.stage)
      (list_by_urn s (canonical_profile_key target.linkedin_urn))

-- What the loop has so far.
pub record Batch : Type 0 where
  pub progress_ids : List UserId
  pub skipped_removed : ℕ
  pub skipped_cross_campaign : ℕ
  pub stagger : Option Allocator

-- `EnrollResult`
pub record EnrollResult : Type 0 where
  pub campaign_id : UserId
  pub account_id : UserId
  pub enrolled : ℕ
  pub progress_ids : List UserId
  pub skipped_removed : ℕ
  pub skipped_cross_campaign : ℕ

abbrev pub result_of : UserId → UserId → Batch → EnrollResult
result_of campaign account b = record {
  campaign_id = campaign;
  account_id = account;
  enrolled = length b.progress_ids;
  progress_ids = b.progress_ids;
  skipped_removed = b.skipped_removed;
  skipped_cross_campaign = b.skipped_cross_campaign;
}

abbrev pub first_batch : Option Allocator → Batch
first_batch stagger = record {
  progress_ids = [];
  skipped_removed = 0;
  skipped_cross_campaign = 0;
  stagger = stagger;
}

module _ (z : Zone) (now : Time) where
  module _ (campaign account : UserId) (enricher : Enricher) where
    -- The rest of the body from `nextStepAt` on.
    unfoldable pub claim : UserId → Batch → Step Store Batch
    unfolding next_start enroll_target
    claim id b s = elim (next_start z now b.stagger) [
      | none ↦ (threw (other_error "no slot in the rounds given"), s)
      | some slot ↦
          let enrolled = enroll_target s now campaign id account slot.0 in
          (
            returned (record b {
              progress_ids = b.progress_ids ++ enrolled.0.id ∷ [];
              stagger = slot.1;
            }),
            enrolled.1,
          )
    ]

    -- The body of the loop.
    unfoldable pub enroll_one : UserId → Batch → Step Store Batch
    unfolding claim contacted_elsewhere enrich_target removed_flag find_target
    enroll_one id b s = elim (find_target s id) [
      | none ↦ claim id b s
      | some target ↦
          if removed_flag target.external_context
          then (returned (record b { skipped_removed = b.skipped_removed + 1 }), s)
          else if contacted_elsewhere s campaign target
          then (returned (record b { skipped_cross_campaign = b.skipped_cross_campaign + 1 }), s)
          else (enrich_target now enricher account id target >> claim id b) s
    ]

    unfoldable pub enroll_on : List UserId → Batch → Step Store Batch
    unfolding enroll_one
    enroll_on [] b = ret b
    enroll_on (id ∷ ids) b = enroll_one id b >>= enroll_on ids

    -- `enrollTargets`
    unfoldable pub enroll_targets : List UserId → Step Store EnrollResult
    unfolding enroll_on enroll_stagger
    enroll_targets ids s =
        (enroll_on ids (first_batch (enroll_stagger z now s campaign account)) >>= λ b.
        ret (result_of campaign account b))
          s
