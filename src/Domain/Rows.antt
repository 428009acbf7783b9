-- ===== src/Domain/Rows.antt =====
-- The rows of the store (shared/src/db/schema.ts, as the repositories hand them out), less the
-- columns that no modelled code reads. Texts that the code builds from a template are data types
-- with a constructor for each template.
use linkedin_outreach_agent.Prelude.{ℕ, String, Bool, Option, List}
use linkedin_outreach_agent.Domain.Enums.{
  ActionType, ActionResult, ApprovalDecision, AutonomyLevel, CampaignStepType, MessageDirection,
  MessageStatus, ProgressState, ReplyIntent, TargetStage,
}
use linkedin_outreach_agent.Domain.Types.{Failure, UserId, Time, Signal}

-- A text that the code walks or compares: its code units.
abbrev pub Text : Type 0
Text = List ℕ

pub data Payload : Type 0 where
  no_payload : Payload
  text_payload : String → Payload
  reaction_payload : String → Payload

pub record ActRequest : Type 0 where
  pub account_id : UserId
  pub target_id : UserId
  pub campaign_id : UserId
  pub type : ActionType
  pub payload : Payload

pub record CampaignRow : Type 0 where
  pub id : UserId
  pub goal : String
  pub autonomy_level : AutonomyLevel
  pub message_strategy : String
  pub owner : String

-- A value of JSON, as far as the code tells one from another.
pub data Json : Type 0 where
  json_text : Text → Json
  json_flag : Bool → Json
  json_other : Json

-- The external context is a JSON object.
pub record TargetRow : Type 0 where
  pub id : UserId
  pub campaign_id : UserId
  pub prospect_ref : String
  pub linkedin_urn : Text
  pub external_context : List (String × Json)
  pub stage : TargetStage

pub record ActionRow : Type 0 where
  pub id : UserId
  pub account_id : UserId
  pub target_id : UserId
  pub campaign_id : UserId
  pub type : ActionType
  pub scheduled_at : Time
  pub executed_at : Option Time
  pub result : ActionResult
  pub created_at : Time

pub data ThreadRef : Type 0 where
  pending_send : UserId → UserId → ThreadRef
  thread : String → ThreadRef

pub record MessageRow : Type 0 where
  pub id : UserId
  pub account_id : UserId
  pub target_id : UserId
  pub direction : MessageDirection
  pub body : String
  pub thread_ref : ThreadRef
  pub intent : Option ReplyIntent
  pub status : MessageStatus
  pub pending_req : Option ActRequest
  pub created_at : Time
  pub sent_at : Option Time

pub record ApprovalRow : Type 0 where
  pub id : UserId
  pub pending_item_ref : UserId
  pub decision : ApprovalDecision
  pub editor : String
  pub timestamp : Time

-- The texts of `reason` and `errorMessage`.
pub data StopReason : Type 0 where
  reply replied target_missing stage_lost suppressed cross_campaign_contacted : StopReason
  at_stage : TargetStage → StopReason
  did_not_land : CampaignStepType → ActionResult → StopReason
  no_invite_sent : ActionResult → StopReason
  abandoned : ActionType → ℕ → StopReason
  thrown : Failure → StopReason
  removed_by_operator : String → StopReason

pub record TargetProgressRow : Type 0 where
  pub id : UserId
  pub campaign_id : UserId
  pub target_id : UserId
  pub account_id : UserId
  pub current_step : ℕ
  pub state : ProgressState
  pub next_step_at : Option Time
  pub last_step_at : Option Time
  pub error_message : Option StopReason
  pub created_at : Time

pub record CampaignStepRow : Type 0 where
  pub id : UserId
  pub campaign_id : UserId
  pub step_order : ℕ
  pub step_type : CampaignStepType
  pub delay_seconds : ℕ
  pub note : Option String
  pub body : Option String
  pub reaction : Option String
  pub enabled : Bool

-- The kind of an event with its payload.
pub data EventKind : Type 0 where
  pending_enqueued : UserId → UserId → UserId → Option ReplyIntent → EventKind
  approval_decided : UserId → ApprovalDecision → String → EventKind
  targets_added : UserId → ℕ → ℕ → EventKind
  target_suppressed : Text → UserId → EventKind
  reply_routed : UserId → UserId → ReplyIntent → Bool → Bool → Bool → Option TargetStage → EventKind
  action_executed : UserId → ActionType → UserId → UserId → EventKind
  action_failed : UserId → ActionType → UserId → UserId → EventKind
  action_skipped : UserId → ActionType → UserId → UserId → EventKind
  safety_signal : Signal → EventKind
  account_paused account_resumed : EventKind
  campaign_created : UserId → String → EventKind
  autonomy_set : UserId → AutonomyLevel → EventKind
  external_context_attached : UserId → EventKind
  approved_send_cancelled : UserId → UserId → StopReason → EventKind
  approved_send_held_reply : UserId → UserId → EventKind
  approved_send_exhausted : UserId → UserId → ActionType → ℕ → EventKind
  send_lane_halted : ActionType → EventKind
  target_removed : UserId → UserId → Text → String → Bool → EventKind
  reply_probe_failed step_held_reply : UserId → UserId → EventKind
  step_held_cross_campaign target_skipped_cross_campaign :
      UserId → UserId → Text → UserId → TargetStage → EventKind

pub record EventRow : Type 0 where
  pub ts : Time
  pub account_id : Option UserId
  pub kind : EventKind
