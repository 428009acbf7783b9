-- ===== src/Examples/Tokens.antt =====
-- The theorems on the runner's guards at concrete inputs.
use linkedin_outreach_agent.Prelude.{◌+◌, ◌<◌, ◌≡◌, ◌↔◌, refl, some, none, includes}
use linkedin_outreach_agent.Domain.{UserId, Time, Account, ActionType, allow, default_caps}
use linkedin_outreach_agent.Calendar.Fixed.{utc}
use linkedin_outreach_agent.Safety.Schedule.{schedule_defer, effective_schedule, iso_date}
use linkedin_outreach_agent.Safety.Gate.{
  can_act, base_caps, budget, check_state, check_enabled, check_caps, check_outstanding,
  check_schedule, pace, used_today, caps_for_state, caps_in_state, action_enabled, is_paused,
  invites_last_7d, is_connect, with_empty_used,
}
use linkedin_outreach_agent.Runner.{
  check_token, mint_allow_token, mint_token, mint_by, token_ttl_ms,
}
use linkedin_outreach_agent.Runner.Laws.{mint_token-check_token}
use linkedin_outreach_agent.Examples.Safety.{anna, gate, monday_noon}

abbrev fresh : Account
fresh = record anna { budget = record { date = 4; caps = default_caps; used = λ k. some 0 } }

mint_token-check_token_example :
    (can_act utc gate monday_noon 0 fresh ActionType.connect ≡ allow)
    × ((other owner : UserId) (later : Time)
        → (check_token (some (mint_allow_token 12 7 monday_noon)) other owner later ≡ none)
          ↔ ((12 ≡ other) × (7 ≡ owner) × (later < monday_noon + token_ttl_ms)))
unfolding mint_token mint_by can_act check_state check_enabled check_caps check_outstanding
    check_schedule pace budget used_today caps_for_state caps_in_state base_caps action_enabled
    is_paused effective_schedule schedule_defer includes invites_last_7d is_connect with_empty_used
    iso_date default_caps
mint_token-check_token_example =
    mint_token-check_token utc gate monday_noon 0 fresh 12 ActionType.connect
      (mint_allow_token 12 7 monday_noon) refl
