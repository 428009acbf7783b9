-- ===== src/Mcp.antt =====
-- The autonomy chokepoint of control-plane/mcp/src/gate.ts. The ports of `GateDeps` are steps on
-- a state `W` of which the gate knows nothing.
pub mod Laws
use linkedin_outreach_agent.Prelude.{Bool, true, false, not, Option, if◌then◌else◌, String, ℕ}
use linkedin_outreach_agent.Domain.{
  UserId, Time, Account, CampaignRow, ActRequest, ActionType, ActionResult, AutonomyLevel,
  supervised, semi_auto, autonomous, Decision, allow, defer, deny, DenyReason,
}
use linkedin_outreach_agent.Effects.{
  Step, Failure, Refusal, later, never, safety_deferred, ret, throw, try, ◌>>=◌,
}

pub data GateOutcome : Type 0 where
  executed : UserId → ActionResult → GateOutcome
  queued : UserId → GateOutcome
  deferred : Time → GateOutcome
  denied : DenyReason → GateOutcome

-- `MESSAGE_CLASS.has(type)`
unfoldable pub is_message_class : ActionType → Bool
is_message_class ActionType.message = true
is_message_class _ = false

unfoldable pub may_execute_directly : AutonomyLevel → ActionType → Bool
unfolding is_message_class
may_execute_directly supervised type = false
may_execute_directly semi_auto type = not (is_message_class type)
may_execute_directly autonomous type = true

-- What the executor hands back of the action's row.
pub record ActionRef : Type 0 where
  pub id : UserId
  pub result : ActionResult

pub record GateDeps (W : Type 0) : Type 0 where
  pub get_account : UserId → Step W Account
  pub get_campaign : UserId → Step W CampaignRow
  pub can_act : Account → ActRequest → Step W Decision
  pub enqueue : ActRequest → AutonomyLevel → Option String → Step W UserId
  pub execute : ActRequest → Step W ActionRef

unfoldable pub refused : Refusal → GateOutcome
refused (later until) = deferred until
refused (never reason) = denied reason

module _ {W : Type 0} (deps : GateDeps W) where
  -- The `catch` of the executor's call.
  unfoldable pub on_throw : Failure → Step W GateOutcome
  unfolding refused
  on_throw (safety_deferred r) = ret (refused r)
  on_throw e = throw e

  unfoldable pub on_decision : ActRequest → Decision → Step W GateOutcome
  unfolding on_throw
  on_decision req allow =
      try (deps.execute req) (λ action. ret (executed action.id action.result)) on_throw
  on_decision req (defer until) = ret (deferred until)
  on_decision req (deny reason) = ret (denied reason)

  unfoldable pub route : ActRequest → Option String → Account → AutonomyLevel → Step W GateOutcome
  unfolding on_decision
  route req draft_body account level =
      if not (may_execute_directly level req.type)
      then (deps.enqueue req level draft_body >>= λ id. ret (queued id))
      else (deps.can_act account req >>= λ decision. on_decision req decision)

  -- `gateAct`
  unfoldable pub gate_act : ActRequest → Option String → Step W GateOutcome
  unfolding route
  gate_act req draft_body = do
    account ← deps.get_account req.account_id
    campaign ← deps.get_campaign req.campaign_id
    route req draft_body account campaign.autonomy_level
