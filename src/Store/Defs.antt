-- ===== src/Store/Defs.antt =====
-- The state of the in-memory store.
use linkedin_outreach_agent.Prelude.{ℕ, suc, List, []}
use linkedin_outreach_agent.Domain.{
  Account, CampaignRow, TargetRow, ActionRow, MessageRow, ApprovalRow, EventRow, CampaignStepRow,
  TargetProgressRow,
}

pub record Store : Type 0 where
  pub accounts : List Account
  pub campaigns : List CampaignRow
  pub targets : List TargetRow
  pub actions : List ActionRow
  pub messages : List MessageRow
  pub approvals : List ApprovalRow
  pub events : List EventRow
  pub steps : List CampaignStepRow
  pub progress : List TargetProgressRow
  pub counter : ℕ

abbrev pub empty_store : Store
empty_store = record {
  accounts = [];
  campaigns = [];
  targets = [];
  actions = [];
  messages = [];
  approvals = [];
  events = [];
  steps = [];
  progress = [];
  counter = 0;
}

-- `nextId`
abbrev pub next_id : Store → ℕ
next_id s = suc s.counter
