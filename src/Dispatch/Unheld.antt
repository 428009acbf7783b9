-- ===== src/Dispatch/Unheld.antt =====
-- The lock between campaigns (heldByOtherCampaign of runtime/src/dispatch/tick.ts), as a statement on
-- the targets of the store.
use linkedin_outreach_agent.Prelude.{
  ◌≡◌, ◌≢◌, All, [], ◌∷◌, find_first, keep_if, eq_text, eq_text_refl, ap, ◌∙◌, true, false, none,
  some, List, arith,
}
use linkedin_outreach_agent.Domain.{
  UserId, Text, TargetRow, TargetProgressRow, TargetStage, is_contacted_stage,
}
use linkedin_outreach_agent.Store.Tables.{find_target, list_by_urn}
use linkedin_outreach_agent.Store.{Store}
use linkedin_outreach_agent.Profile.{canonical_profile_key}
use linkedin_outreach_agent.Dispatch.World.{held_by_other_campaign, is_blocker}

-- A stage at which nobody has contacted the person, or no longer does.
pub record IsUncontacted (stage : TargetStage) : Type 0 where
  pub invited : stage ≢ TargetStage.invited
  pub connected : stage ≢ TargetStage.connected
  pub in_conversation : stage ≢ TargetStage.in_conversation
  pub replied : stage ≢ TargetStage.replied
  pub won : stage ≢ TargetStage.won

-- No other campaign than `campaign` contacts the person with the key through this target.
abbrev pub IsFree : UserId → Text → TargetRow → Type 0
IsFree campaign key u = u.linkedin_urn ≡ key → u.campaign_id ≢ campaign → IsUncontacted u.stage

-- No other campaign contacts the person of the cursor.
abbrev pub IsUnheld : Store → TargetProgressRow → Type 0
IsUnheld s p =
    (t : TargetRow)
    → find_target s p.target_id ≡ some t
    → All (IsFree p.campaign_id (canonical_profile_key t.linkedin_urn)) s.targets

uncontacted : (stage : TargetStage) → is_contacted_stage stage ≡ false → IsUncontacted stage
unfolding is_contacted_stage
uncontacted stage h = record {
  invited = λ e. absurd (cc (h, ap is_contacted_stage e));
  connected = λ e. absurd (cc (h, ap is_contacted_stage e));
  in_conversation = λ e. absurd (cc (h, ap is_contacted_stage e));
  replied = λ e. absurd (cc (h, ap is_contacted_stage e));
  won = λ e. absurd (cc (h, ap is_contacted_stage e));
}

blockers-IsFree :
    (campaign : UserId) (key : Text) (us : List TargetRow)
    → find_first (is_blocker campaign) (keep_if (λ t. eq_text t.linkedin_urn key) us) ≡ none
    → All (IsFree campaign key) us
unfolding find_first keep_if is_blocker
blockers-IsFree campaign key [] h = tt
blockers-IsFree campaign key (u ∷ us) h = (
  λ e n.
      let same : eq_text u.linkedin_urn key ≡ true = ap (λ k. eq_text k key) e ∙ eq_text_refl key in
      uncontacted u.stage (ground (arith, h, same, n)),
  blockers-IsFree campaign key us (ground (arith, h)),
)

pub held_by_other_campaign-IsUnheld :
    (s : Store) (p : TargetProgressRow) → held_by_other_campaign s p ≡ none → IsUnheld s p
unfolding held_by_other_campaign list_by_urn
held_by_other_campaign-IsUnheld s p h t f =
    blockers-IsFree p.campaign_id (canonical_profile_key t.linkedin_urn) s.targets
      (ground (arith, h, f))
