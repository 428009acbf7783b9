-- ===== src/Safety/Signals/Laws.antt =====
-- What a signal does to an account and to the streaks.
use linkedin_outreach_agent.Prelude.{
  ℕ, ◌+◌, ◌≡◌, ◌≢◌, refl, ==_refl, Option-cases, inl, inr, none, some, get_or, arith, List, [], ◌∷◌,
  length, true, false, leb, ◌∙◌, ap, All, ◌&&◌, Bool, if◌then◌else◌, Bool-cases,
}
use linkedin_outreach_agent.Domain.{
  UserId, AccountState, cold, active, throttled, cooldown, restricted, Account, Signal, SignalKind,
  velocity, low_acceptance, challenge, ban_banner, geo_drift, Transition,
}
use linkedin_outreach_agent.Safety.Config.{SafetyConfig}
use linkedin_outreach_agent.Safety.StateMachine.{
  hard_signal, StepReason, recovered_after_cooldown, is_terminal, transition,
}
use linkedin_outreach_agent.Safety.Signals.{
  Streaks, SoftReason, set_streak, delete_streak, apply_event, escalate, on_soft,
  throttle_or_cooldown, on_ban, on_kind, on_signal, recover,
}

-- The account after a signal: the state of the transition.
abbrev pub next_account : SafetyConfig → Streaks → Account → Signal → Account
next_account cfg st acct sig = record acct { state = (on_signal cfg st acct sig).0.to_state }

-- The independent account of where a soft signal leads.
abbrev pub soft_target : SafetyConfig → AccountState → ℕ → AccountState
soft_target cfg active streak = throttled
soft_target cfg throttled streak =
    if leb cfg.soft_signal_cooldown_threshold streak then cooldown else throttled
soft_target cfg s streak = s

abbrev pub ban_target : AccountState → AccountState
ban_target cold = cold
ban_target cooldown = cooldown
ban_target _ = restricted

abbrev pub signal_target : SafetyConfig → AccountState → ℕ → SignalKind → AccountState
signal_target cfg s streak ban_banner = ban_target s
signal_target cfg s streak geo_drift = s
signal_target cfg s streak _ = soft_target cfg s streak

on_soft_target :
    (cfg : SafetyConfig) (st : Streaks) (id : UserId) (s : AccountState) (streak : ℕ)
    (r : SoftReason)
    → ((on_soft cfg st id s streak r).0.to_state ≡ soft_target cfg s streak)
      × ((on_soft cfg st id s streak r).0.from_state ≡ s)
unfolding on_soft escalate transition
on_soft_target cfg st id active streak r = (refl, refl)
on_soft_target cfg st id throttled streak r = (ground arith, ground arith)
on_soft_target cfg st id _ streak r = (refl, refl)

on_ban_target :
    (st : Streaks) (acct : Account) (s : AccountState)
    → acct.state ≡ s
    → ((on_ban st acct).0.to_state ≡ ban_target s) × ((on_ban st acct).0.from_state ≡ s)
unfolding on_ban apply_event transition is_terminal
on_ban_target st acct cold e = (ground arith, ground arith)
on_ban_target st acct _ e = (ground arith, ground arith)

on_kind_target :
    (cfg : SafetyConfig) (st : Streaks) (acct : Account) (k : SignalKind)
    → ((on_kind cfg st acct k).0.from_state ≡ acct.state)
      × ((on_kind cfg st acct k).0.to_state
          ≡ signal_target cfg acct.state (get_or (st acct.id) 0 + 1) k)
unfolding on_kind throttle_or_cooldown
on_kind_target cfg st acct ban_banner = let b = on_ban_target st acct acct.state refl in (b.1, b.0)
on_kind_target cfg st acct geo_drift = (refl, refl)
on_kind_target cfg st acct _ =
    let b = on_soft_target cfg _ acct.id acct.state (get_or (st acct.id) 0 + 1) _ in (b.1, b.0)

-- A signal leads from the account's state to the state of `signal_target`: a ban restricts every
-- account but one that is cold or in cooldown, geo drift moves nothing, and a soft signal throttles
-- an active account and cools down a throttled one exactly from the threshold of its streak on.
pub on_signal_target :
    (cfg : SafetyConfig) (st : Streaks) (acct : Account) (sig : Signal)
    → ((on_signal cfg st acct sig).0.from_state ≡ acct.state)
      × ((on_signal cfg st acct sig).0.to_state
          ≡ signal_target cfg acct.state (get_or (st acct.id) 0 + 1) sig.kind)
unfolding on_signal
on_signal_target cfg st acct sig = on_kind_target cfg st acct sig.kind

-- Soft signals are velocity, low acceptance and challenges.
abbrev pub is_soft : SignalKind → Bool
is_soft velocity = true
is_soft low_acceptance = true
is_soft challenge = true
is_soft _ = false

-- Signals one after another, each on the account in the state where the last one left it.
unfoldable pub run_signals : SafetyConfig → Streaks → Account → List Signal → Account × Streaks
run_signals cfg st acct [] = (acct, st)
run_signals cfg st acct (sig ∷ sigs) =
    run_signals cfg (on_signal cfg st acct sig).1 (next_account cfg st acct sig) sigs

on_soft_streak :
    (cfg : SafetyConfig) (st : Streaks) (id : UserId) (s : AccountState) (streak : ℕ)
    (r : SoftReason)
    → soft_target cfg s streak ≡ throttled
    → (on_soft cfg (set_streak st id streak) id s streak r).1 id ≡ some streak
unfolding on_soft escalate transition set_streak
on_soft_streak cfg st id active streak r h = ground arith
on_soft_streak cfg st id throttled streak r h = ground arith
on_soft_streak cfg st id _ streak r h = cc

-- The streak of an account that a soft signal leaves throttled is the count of its soft signals.
soft_streak :
    (cfg : SafetyConfig) (st : Streaks) (acct : Account) (k : SignalKind)
    → is_soft k ≡ true
    → soft_target cfg acct.state (get_or (st acct.id) 0 + 1) ≡ throttled
    → (on_kind cfg st acct k).1 acct.id ≡ some (get_or (st acct.id) 0 + 1)
unfolding on_kind throttle_or_cooldown
soft_streak cfg st acct ban_banner soft h = cc
soft_streak cfg st acct geo_drift soft h = cc
soft_streak cfg st acct _ soft h =
    on_soft_streak cfg st acct.id acct.state (get_or (st acct.id) 0 + 1) _ h

soft_kind_target :
    (cfg : SafetyConfig) (s : AccountState) (streak : ℕ) (k : SignalKind)
    → is_soft k ≡ true
    → signal_target cfg s streak k ≡ soft_target cfg s streak
soft_kind_target cfg s streak ban_banner h = cc
soft_kind_target cfg s streak geo_drift h = cc
soft_kind_target cfg s streak _ h = refl

abbrev pub AllSoft : List Signal → Type 0
AllSoft = All (λ sig. is_soft sig.kind ≡ true)

module _ (cfg : SafetyConfig) where
  -- One soft signal.
  step_state :
      (st : Streaks) (acct : Account) (sig : Signal)
      → is_soft sig.kind ≡ true
      → (next_account cfg st acct sig).state
        ≡ soft_target cfg acct.state (get_or (st acct.id) 0 + 1)
  step_state st acct sig soft =
      (on_signal_target cfg st acct sig).1
      ∙ soft_kind_target cfg acct.state (get_or (st acct.id) 0 + 1) sig.kind soft

  step_streak :
      (st : Streaks) (acct : Account) (sig : Signal)
      → is_soft sig.kind ≡ true
      → soft_target cfg acct.state (get_or (st acct.id) 0 + 1) ≡ throttled
      → get_or ((on_signal cfg st acct sig).1 acct.id) 0 ≡ get_or (st acct.id) 0 + 1
  unfolding on_signal
  step_streak st acct sig soft h = ground (arith, soft_streak cfg st acct sig.kind soft h)

  cooldown_stays :
      (st : Streaks) (acct : Account) (sigs : List Signal)
      → AllSoft sigs
      → acct.state ≡ cooldown
      → (run_signals cfg st acct sigs).0.state ≡ cooldown
  unfolding run_signals
  cooldown_stays st acct [] soft e = e
  cooldown_stays st acct (sig ∷ sigs) soft e =
      cooldown_stays (on_signal cfg st acct sig).1 (next_account cfg st acct sig) sigs soft.1
        (step_state st acct sig soft.0 ∙ ap (λ s. soft_target cfg s (get_or (st acct.id) 0 + 1)) e)

  abbrev escalated : ℕ → ℕ → AccountState
  escalated streak more =
      if leb 1 more && leb cfg.soft_signal_cooldown_threshold (streak + more)
      then cooldown
      else throttled

  throttled_run :
      (st : Streaks) (acct : Account) (sigs : List Signal)
      → AllSoft sigs
      → acct.state ≡ throttled
      → (run_signals cfg st acct sigs).0.state ≡ escalated (get_or (st acct.id) 0) (length sigs)
  unfolding run_signals
  throttled_run st acct [] soft e = ground arith
  throttled_run st acct (sig ∷ sigs) soft e =
      elim (Bool-cases (leb cfg.soft_signal_cooldown_threshold (get_or (st acct.id) 0 + 1))) [
        | inl over ↦ ground (
          arith,
          cooldown_stays (on_signal cfg st acct sig).1 (next_account cfg st acct sig) sigs soft.1
              (cc (now_at, cools over)),
        )
        | inr under ↦ ground (
          arith,
          throttled_run (on_signal cfg st acct sig).1 (next_account cfg st acct sig) sigs soft.1
              (cc (now_at, stays under)),
          step_streak st acct sig soft.0 (cc (e, stays under)),
        )
      ]
    where
      now_at :
          (next_account cfg st acct sig).state
          ≡ soft_target cfg throttled (get_or (st acct.id) 0 + 1)
      now_at =
          step_state st acct sig soft.0 ∙ ap (λ s. soft_target cfg s (get_or (st acct.id) 0 + 1)) e

      cools :
          leb cfg.soft_signal_cooldown_threshold (get_or (st acct.id) 0 + 1) ≡ true
          → soft_target cfg throttled (get_or (st acct.id) 0 + 1) ≡ cooldown
      cools h = ground arith

      stays :
          leb cfg.soft_signal_cooldown_threshold (get_or (st acct.id) 0 + 1) ≡ false
          → soft_target cfg throttled (get_or (st acct.id) 0 + 1) ≡ throttled
      stays h = ground arith

  -- An active account with no streak is throttled by the first soft signal, and cools down at the
  -- signal that makes their number reach both 2 and the threshold, for whatever soft signals.
  pub run_signals-active :
      (st : Streaks) (acct : Account) (sig : Signal) (sigs : List Signal)
      → acct.state ≡ active
      → st acct.id ≡ none
      → AllSoft (sig ∷ sigs)
      → (run_signals cfg st acct (sig ∷ sigs)).0.state ≡ (
          if leb 1 (length sigs) && leb cfg.soft_signal_cooldown_threshold (1 + length sigs)
          then cooldown
          else throttled)
  unfolding run_signals
  run_signals-active st acct sig sigs e none_yet soft = ground (
    arith,
    throttled_run (on_signal cfg st acct sig).1 (next_account cfg st acct sig) sigs soft.1 first,
    step_streak st acct sig soft.0 target,
  )
    where
      target : soft_target cfg acct.state (get_or (st acct.id) 0 + 1) ≡ throttled
      target = rw e

      first : (next_account cfg st acct sig).state ≡ throttled
      first = step_state st acct sig soft.0 ∙ target

recover_cooldown :
    (st : Streaks) (acct : Account)
    → acct.state ≡ cooldown
    → (t : Transition StepReason) × ((recover st acct).0 ≡ some t) × (t.to_state ≡ active)
unfolding recover transition
recover_cooldown st acct e = (
  record { from_state = cooldown; to_state = active; reason = recovered_after_cooldown },
  ground arith,
  refl,
)

ban_streaks : (st : Streaks) (acct : Account) → (on_ban st acct).1 ≡ delete_streak st acct.id
unfolding on_ban
ban_streaks st acct = elim (Option-cases (apply_event acct.state hard_signal)) [
  | inl e ↦ rw (on_ban, e)
  | inr (t, e) ↦ rw (on_ban, e)
]

deleted_self : (st : Streaks) (id : UserId) → delete_streak st id id ≡ none
unfolding delete_streak
deleted_self st id = ground (arith, ==_refl id)

deleted_other :
    (st : Streaks) (id other : UserId) → other ≢ id → delete_streak st id other ≡ st other
unfolding delete_streak
deleted_other st id other n = ground (arith, n)

-- A ban banner on an account in cooldown leaves it in cooldown with an empty streak, the streaks of
-- all other accounts as they are, and recovery then makes the account active again.
pub ban_in_cooldown :
    (cfg : SafetyConfig) (st : Streaks) (acct : Account) (sig : Signal)
    → acct.state ≡ cooldown
    → sig.kind ≡ ban_banner
    → ((next_account cfg st acct sig).state ≡ cooldown)
      × ((on_signal cfg st acct sig).1 acct.id ≡ none)
      × ((other : UserId) → other ≢ acct.id → (on_signal cfg st acct sig).1 other ≡ st other)
      × ((t : Transition StepReason) × ((recover
              (on_signal cfg st acct sig).1
              (next_account cfg st acct sig)).0
            ≡ some t)
          × (t.to_state ≡ active))
unfolding on_kind on_ban delete_streak on_signal
ban_in_cooldown cfg st acct sig e k = (
  cooled,
  forgot,
  kept,
  recover_cooldown (on_signal cfg st acct sig).1 (next_account cfg st acct sig) cooled,
)
  where
    cooled : (next_account cfg st acct sig).state ≡ cooldown
    cooled = ground (arith, (on_signal_target cfg st acct sig).1)

    streaks : (on_signal cfg st acct sig).1 ≡ delete_streak st acct.id
    streaks = ap (λ x. (on_kind cfg st acct x).1) k ∙ ban_streaks st acct

    forgot : (on_signal cfg st acct sig).1 acct.id ≡ none
    forgot = ap (λ f. f acct.id) streaks ∙ deleted_self st acct.id

    kept : (other : UserId) → other ≢ acct.id → (on_signal cfg st acct sig).1 other ≡ st other
    kept other n = ap (λ f. f other) streaks ∙ deleted_other st acct.id other n
