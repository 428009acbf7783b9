-- ===== src/Runner/Laws.antt =====
-- What a token proves, and how the mirror relates to the gate.
use linkedin_outreach_agent.Prelude.{
  ℕ, ◌+◌, ◌<◌, ◌≡◌, ◌↔◌, refl, none, some, arith, get_or, subst, sym,
}
use linkedin_outreach_agent.Domain.{
  UserId, Time, Account, AccountState, cooldown, restricted, ActionType, Decision, allow, defer,
  deny,
}
use linkedin_outreach_agent.Calendar.{Zone}
use linkedin_outreach_agent.Effects.{returned}
use linkedin_outreach_agent.Safety.Gate.{Gate, budget, can_act}
use linkedin_outreach_agent.Safety.Gate.Laws.{IsWorking, can_act-MayAct}
use linkedin_outreach_agent.Runner.{
  AllowToken, check_token, token_ttl_ms, mint_allow_token, mint_by, mint_token, ok, preflight,
  preflight_state, preflight_budget,
}

mint_by_inv :
    (d : Decision) (action account : UserId) (now : Time) (t : AllowToken)
    → mint_by d action account now ≡ returned t
    → (d ≡ allow) × (t ≡ mint_allow_token action account now)
unfolding mint_by
mint_by_inv allow action account now t h = (refl, cc)
mint_by_inv (defer u) action account now t h = absurd cc
mint_by_inv (deny r) action account now t h = absurd cc

minted_valid :
    (action other account owner : UserId) (now later : Time)
    → (check_token (some (mint_allow_token action account now)) other owner later ≡ none)
      ↔ ((action ≡ other) × (account ≡ owner) × (later < now + token_ttl_ms))
unfolding check_token mint_allow_token
minted_valid action other account owner now later =
    (λ h. (ground arith, ground arith, ground arith), λ h. ground (arith, h.0, h.1, h.2))

-- A minted token exists only if the safety gate allowed the action when it was minted, and it passes
-- the runner's check exactly for that action and account and for less than a minute.
pub mint_token-check_token :
    (z : Zone) (g : Gate) (now : Time) (draw : ℕ) (acct : Account) (action : UserId)
    (type : ActionType) (t : AllowToken)
    → mint_token z g now draw acct action type ≡ returned t
    → (can_act z g now draw acct type ≡ allow)
      × ((other owner : UserId) (later : Time)
          → (check_token (some t) other owner later ≡ none)
            ↔ ((action ≡ other) × (acct.id ≡ owner) × (later < now + token_ttl_ms)))
unfolding mint_token
mint_token-check_token z g now draw acct action type t h =
    let r = mint_by_inv (can_act z g now draw acct type) action acct.id now t h in
    (
      r.0,
      λ other owner later.
          subst
            (λ x.
              (check_token (some x) other owner later ≡ none)
              ↔ ((action ≡ other) × (acct.id ≡ owner) × (later < now + token_ttl_ms)))
            (sym r.1) (minted_valid action other acct.id owner now later),
    )

budget_ok :
    (acct : Account) (type : ActionType)
    → get_or (acct.budget.used type) 0 < get_or (acct.budget.caps type) 0
    → preflight_budget acct type ≡ ok
unfolding preflight_budget
budget_ok acct type h = ground arith

state_ok :
    (acct : Account) (type : ActionType) (s : AccountState)
    → IsWorking s
    → preflight_budget acct type ≡ ok
    → preflight_state acct type s ≡ ok
unfolding preflight_state
state_ok acct type cooldown w h = absurd w
state_ok acct type restricted w h = absurd w
state_ok acct type _ w h = h

-- The mirror refuses nothing that the gate allows, for an account whose stored budget is the one that
-- the gate computes.
pub preflight_mirrors :
    (z : Zone) (g : Gate) (now : Time) (draw : ℕ) (acct : Account) (type : ActionType)
    → acct.budget ≡ budget g now acct
    → can_act z g now draw acct type ≡ allow
    → preflight acct type ≡ ok
unfolding preflight
preflight_mirrors z g now draw acct type b h =
    let m = (can_act-MayAct z g now draw acct type).0 h in
    state_ok acct type acct.state m.working (
      budget_ok acct type
        (subst (λ x. get_or (x.used type) 0 < get_or (x.caps type) 0) (sym b) m.below_cap))
