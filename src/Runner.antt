-- ===== src/Runner.antt =====
-- The runner's own guards: the allow token (runtime/src/adapters/safety.ts mints it,
-- account-runner/src/executor/gate.ts checks it) and the pre-flight mirror
-- (account-runner/src/safety/index.ts). The nonce is left out: no code compares it.
pub mod Laws
use linkedin_outreach_agent.Prelude.{
  ℕ, ◌+◌, Bool, true, false, not, Option, none, some, leb, ◌==◌, if◌then◌else◌, get_or,
}
use linkedin_outreach_agent.Domain.{
  UserId, Time, Account, AccountState, cooldown, restricted, ActionType, Decision, allow, defer,
  deny,
}
use linkedin_outreach_agent.Calendar.{Zone}
use linkedin_outreach_agent.Effects.{Answer, returned, threw, safety_deferred, later, never}
use linkedin_outreach_agent.Safety.Gate.{Gate, can_act}

pub data TokenKind : Type 0 where
  allow_kind other_kind : TokenKind

pub record AllowToken : Type 0 where
  pub kind : TokenKind
  pub action_id : UserId
  pub account_id : UserId
  pub expires_at : Time

pub data TokenRejection : Type 0 where
  missing not_allow wrong_action wrong_account expired : TokenRejection

abbrev is_allow : TokenKind → Bool
is_allow allow_kind = true
is_allow other_kind = false

-- `checkToken`: `none` is a token that is valid.
unfoldable pub check_token : Option AllowToken → UserId → UserId → Time → Option TokenRejection
check_token none action account now = some missing
check_token (some t) action account now =
    if not (is_allow t.kind)
    then some not_allow
    else if not (t.action_id == action)
    then some wrong_action
    else if not (t.account_id == account)
    then some wrong_account
    else if leb t.expires_at now
    then some expired
    else none

abbrev pub token_ttl_ms : ℕ
token_ttl_ms = 60_000

-- `mintAllowToken`
unfoldable pub mint_allow_token : UserId → UserId → Time → AllowToken
mint_allow_token action account now = record {
  kind = allow_kind;
  action_id = action;
  account_id = account;
  expires_at = now + token_ttl_ms;
}

unfoldable pub mint_by : Decision → UserId → UserId → Time → Answer AllowToken
unfolding mint_allow_token
mint_by allow action account now = returned (mint_allow_token action account now)
mint_by (defer until) action account now = threw (safety_deferred (later until))
mint_by (deny reason) action account now = threw (safety_deferred (never reason))

-- `mintToken` of the runner's safety port.
unfoldable pub mint_token :
    Zone → Gate → Time → ℕ → Account → UserId → ActionType → Answer AllowToken
unfolding mint_by
mint_token z g now draw acct action type =
    mint_by (can_act z g now draw acct type) action acct.id now

pub data PreflightResult : Type 0 where
  ok : PreflightResult
  forbidden : AccountState → PreflightResult
  exhausted : ActionType → ℕ → ℕ → PreflightResult

unfoldable pub preflight_budget : Account → ActionType → PreflightResult
preflight_budget acct type =
    let cap = get_or (acct.budget.caps type) 0 in
    let used = get_or (acct.budget.used type) 0 in
    if leb cap used then exhausted type used cap else ok

unfoldable pub preflight_state : Account → ActionType → AccountState → PreflightResult
unfolding preflight_budget
preflight_state acct type restricted = forbidden restricted
preflight_state acct type cooldown = forbidden cooldown
preflight_state acct type _ = preflight_budget acct type

-- `preflight`
unfoldable pub preflight : Account → ActionType → PreflightResult
unfolding preflight_state
preflight acct type = preflight_state acct type acct.state
