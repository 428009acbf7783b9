-- ===== src/Domain/Enums.antt =====
-- The string-literal unions of shared/src/enums.ts, with the tests that the code makes on them.
use linkedin_outreach_agent.Prelude.{
  ℕ, Bool, true, false, ◌==◌, ==_iff, ==_refl, ◌≡◌, refl, sym, ap, ◌∙◌, if◌then◌else◌,
}

pub data AccountState : Type 0 where
  cold warming active throttled cooldown restricted : AccountState

pub data AutonomyLevel : Type 0 where
  supervised semi_auto autonomous : AutonomyLevel

pub data ActionType : Type 0 where
  connect message view_profile follow withdraw_invite react : ActionType

pub data ActionResult : Type 0 where
  pending success failed skipped deferred : ActionResult

pub data MessageDirection : Type 0 where
  inbound outbound : MessageDirection

pub data MessageStatus : Type 0 where
  draft approved rejected cancelled sent : MessageStatus

pub data TargetStage : Type 0 where
  sourced queued invited connected in_conversation replied won lost : TargetStage

pub data ReplyIntent : Type 0 where
  interested question referral objection not_now out_of_office not_interested stop : ReplyIntent

pub data SignalKind : Type 0 where
  velocity low_acceptance challenge ban_banner geo_drift : SignalKind

pub data ApprovalDecision : Type 0 where
  approved rejected edited : ApprovalDecision

pub data CampaignStepType : Type 0 where
  view_profile connect message follow react delay : CampaignStepType

pub data ProgressState : Type 0 where
  pending in_progress completed failed skipped replied : ProgressState
  awaiting_approval awaiting_connection withdrawn already_invited : ProgressState

-- Equality of action types, by a code for each.
abbrev pub type_code : ActionType → ℕ
type_code ActionType.connect = 0
type_code ActionType.message = 1
type_code ActionType.view_profile = 2
type_code ActionType.follow = 3
type_code ActionType.withdraw_invite = 4
type_code ActionType.react = 5

abbrev pub same_type : ActionType → ActionType → Bool
same_type a b = type_code a == type_code b

type_of : ℕ → ActionType
type_of c =
    if c == 0
    then ActionType.connect
    else if c == 1
    then ActionType.message
    else if c == 2
    then ActionType.view_profile
    else if c == 3
    then ActionType.follow
    else if c == 4
    then ActionType.withdraw_invite
    else ActionType.react

type_of-type_code : (a : ActionType) → type_of (type_code a) ≡ a
unfolding type_of
type_of-type_code ActionType.connect = refl
type_of-type_code ActionType.message = refl
type_of-type_code ActionType.view_profile = refl
type_of-type_code ActionType.follow = refl
type_of-type_code ActionType.withdraw_invite = refl
type_of-type_code ActionType.react = refl

pub same_type_sound : (a b : ActionType) → same_type a b ≡ true → a ≡ b
same_type_sound a b h =
    sym (type_of-type_code a)
    ∙ ap type_of ((==_iff (type_code a) (type_code b)).0 h)
    ∙ type_of-type_code b

pub same_type_refl : (a : ActionType) → same_type a a ≡ true
same_type_refl a = ==_refl (type_code a)

abbrev pub is_success : ActionResult → Bool
is_success ActionResult.success = true
is_success _ = false

abbrev pub is_failed : ActionResult → Bool
is_failed ActionResult.failed = true
is_failed _ = false

abbrev pub is_pending : ActionResult → Bool
is_pending ActionResult.pending = true
is_pending _ = false

-- `ACTIVE_PROGRESS_STATES.includes(state)`
unfoldable pub is_active_progress : ProgressState → Bool
is_active_progress ProgressState.pending = true
is_active_progress ProgressState.in_progress = true
is_active_progress ProgressState.awaiting_approval = true
is_active_progress ProgressState.awaiting_connection = true
is_active_progress _ = false

-- `CANCELABLE_MESSAGE_STATUSES.includes(status)`
unfoldable pub is_cancelable_status : MessageStatus → Bool
is_cancelable_status MessageStatus.draft = true
is_cancelable_status MessageStatus.approved = true
is_cancelable_status _ = false

-- `CONTACTED_TARGET_STAGES.includes(stage)`
unfoldable pub is_contacted_stage : TargetStage → Bool
is_contacted_stage TargetStage.invited = true
is_contacted_stage TargetStage.connected = true
is_contacted_stage TargetStage.in_conversation = true
is_contacted_stage TargetStage.replied = true
is_contacted_stage TargetStage.won = true
is_contacted_stage _ = false
