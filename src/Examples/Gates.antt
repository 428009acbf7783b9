-- ===== src/Examples/Gates.antt =====
-- The theorems on the chokepoint at concrete inputs: ports over a number that the executor counts up.
use linkedin_outreach_agent.Prelude.{ℕ, suc, ◌≡◌, refl, true, none}
use linkedin_outreach_agent.Domain.{
  ActionType, ActionResult, AutonomyLevel, autonomous, CampaignRow, Account, allow, later,
  safety_deferred,
}
use linkedin_outreach_agent.Effects.{returned, ret, throw}
use linkedin_outreach_agent.Mcp.{GateDeps, may_execute_directly, gate_act, route, on_decision}
use linkedin_outreach_agent.Mcp.Laws.{executed_was_allowed}
use linkedin_outreach_agent.Examples.Safety.{anna}
use linkedin_outreach_agent.Examples.Stores.{request}

abbrev pub campaign_at : AutonomyLevel → CampaignRow
campaign_at level = record {
  id = 3;
  goal = "meet";
  autonomy_level = level;
  message_strategy = "short";
  owner = "op";
}

abbrev counting : AutonomyLevel → GateDeps ℕ
counting level = record {
  get_account = λ id. ret anna;
  get_campaign = λ id. ret (campaign_at level);
  can_act = λ a r. ret allow;
  enqueue = λ r l b. ret 99;
  execute = λ r n. (returned (record { id = 500; result = ActionResult.success }), suc n);
}

abbrev late : GateDeps ℕ
late = record (counting autonomous) { execute = λ r. throw (safety_deferred (later 60)) }

executed_was_allowed_example :
    (account : Account) × (campaign : CampaignRow) × ((((counting autonomous).get_account 7 0).0
        ≡ returned account)
      × (((counting autonomous).get_campaign 3 0).0 ≡ returned campaign)
      × (may_execute_directly campaign.autonomy_level ActionType.message ≡ true)
      × (((counting autonomous).can_act account request 0).0 ≡ returned allow)
      × ((counting autonomous).execute request 0
          ≡ (returned (record { id = 500; result = ActionResult.success }), 1)))
unfolding gate_act route may_execute_directly on_decision
executed_was_allowed_example =
    executed_was_allowed (counting autonomous) request none 0 1 500 ActionResult.success refl
