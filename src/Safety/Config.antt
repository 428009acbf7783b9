-- ===== src/Safety/Config.antt =====
-- control-plane/safety/src/config.ts. The throttle multiplier is the fraction
-- `throttle_numerator / throttle_denominator` (0.5 is 1/2), the acceptance floor is in basis points.
use linkedin_outreach_agent.Prelude.{ℕ}
use linkedin_outreach_agent.Domain.{CapTable, default_caps}

pub record SafetyConfig : Type 0 where
  pub active : CapTable
  pub throttle_numerator : ℕ
  pub throttle_denominator : ℕ
  pub weekly_invite_ceiling : ℕ
  pub acceptance_rate_floor : ℕ
  pub soft_signal_cooldown_threshold : ℕ
  pub outstanding_invite_ceiling : ℕ
  pub min_action_gap_ms : ℕ
  pub action_gap_jitter_ms : ℕ
  pub active_hours_start : ℕ
  pub active_hours_end : ℕ

abbrev pub default_config : SafetyConfig
default_config = record {
  active = default_caps;
  throttle_numerator = 1;
  throttle_denominator = 2;
  weekly_invite_ceiling = 100;
  acceptance_rate_floor = 3500;
  soft_signal_cooldown_threshold = 2;
  outstanding_invite_ceiling = 500;
  min_action_gap_ms = 180_000;
  action_gap_jitter_ms = 240_000;
  active_hours_start = 8;
  active_hours_end = 20;
}
