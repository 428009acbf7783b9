-- ===== src/Safety/StateMachine/Laws.antt =====
-- The legal edges of the account state machine, and what can be reached along them.
use mathlib.Core.Option.{some-injective}
use linkedin_outreach_agent.Prelude.{
  ◌≡◌, refl, subst, ◌↔◌, ◌⊎◌, inl, inr, true, List, [], ◌∷◌, some, none,
}
use linkedin_outreach_agent.Domain.{
  AccountState, cold, warming, active, throttled, cooldown, restricted, Transition,
}
use linkedin_outreach_agent.Safety.StateMachine.{
  StateEvent, soft_signal, repeated_soft_signal, recovered, hard_signal, StepReason, is_terminal,
  transition,
}

-- The edges that the head comment of state-machine.ts lists as the only legal ones, with the signal
-- that it names for each.
pub data Edge : AccountState → StateEvent → AccountState → Type 0 where
  cold_recovers : Edge cold recovered active
  active_throttles : Edge active soft_signal throttled
  throttled_recovers : Edge throttled recovered active
  throttled_cools : Edge throttled repeated_soft_signal cooldown
  cooldown_recovers : Edge cooldown recovered active
  active_restricts : Edge active hard_signal restricted
  throttled_restricts : Edge throttled hard_signal restricted

-- The edges out of the legacy state Warming, of which the head comment does not speak.
pub data LegacyEdge : AccountState → StateEvent → AccountState → Type 0 where
  warming_recovers : LegacyEdge warming recovered active
  warming_restricts : LegacyEdge warming hard_signal restricted

module _ (s : AccountState) (e : StateEvent) where
  Follows : Transition StepReason → Type 0
  Follows t = (t.from_state ≡ s) × (Edge s e t.to_state ⊎ LegacyEdge s e t.to_state)

  follow : {t' t : Transition StepReason} → some t' ≡ some t → Follows t' → Follows t
  follow q f = subst Follows (some-injective _ _ q) f

transition-Follows :
    (s : AccountState) (e : StateEvent) (t : Transition StepReason)
    → transition s e ≡ some t
    → Follows s e t
unfolding transition Follows
transition-Follows cold recovered t h = follow cold recovered h (refl, inl cold_recovers)
transition-Follows warming recovered t h = follow warming recovered h (refl, inr warming_recovers)
transition-Follows warming hard_signal t h =
    follow warming hard_signal h (refl, inr warming_restricts)
transition-Follows active soft_signal t h = follow active soft_signal h (refl, inl active_throttles)
transition-Follows active hard_signal t h = follow active hard_signal h (refl, inl active_restricts)
transition-Follows throttled recovered t h =
    follow throttled recovered h (refl, inl throttled_recovers)
transition-Follows throttled repeated_soft_signal t h =
    follow throttled repeated_soft_signal h (refl, inl throttled_cools)
transition-Follows throttled hard_signal t h =
    follow throttled hard_signal h (refl, inl throttled_restricts)
transition-Follows cooldown recovered t h =
    follow cooldown recovered h (refl, inl cooldown_recovers)
transition-Follows _ _ t h = cc

Takes : AccountState → StateEvent → AccountState → Type 0
Takes s e u = (t : Transition StepReason) × (transition s e ≡ some t) × (t.to_state ≡ u)

Edge-Takes : (s : AccountState) (e : StateEvent) (u : AccountState) → Edge s e u → Takes s e u
unfolding transition Takes
Edge-Takes _ _ _ cold_recovers = (_, refl, refl)
Edge-Takes _ _ _ active_throttles = (_, refl, refl)
Edge-Takes _ _ _ throttled_recovers = (_, refl, refl)
Edge-Takes _ _ _ throttled_cools = (_, refl, refl)
Edge-Takes _ _ _ cooldown_recovers = (_, refl, refl)
Edge-Takes _ _ _ active_restricts = (_, refl, refl)
Edge-Takes _ _ _ throttled_restricts = (_, refl, refl)

LegacyEdge-Takes :
    (s : AccountState) (e : StateEvent) (u : AccountState) → LegacyEdge s e u → Takes s e u
unfolding transition Takes
LegacyEdge-Takes _ _ _ warming_recovers = (_, refl, refl)
LegacyEdge-Takes _ _ _ warming_restricts = (_, refl, refl)

-- The transitions of the table are the edges that the head comment of state-machine.ts lists, each
-- on its signal, and two more, which the comment leaves out though it calls its list the only legal
-- edges: Warming goes to Active on a recovery and to Restricted on a hard signal. A transition
-- starts where it was asked to start.
pub transition-Edge :
    (s : AccountState) (e : StateEvent)
    → ((t : Transition StepReason)
        → transition s e ≡ some t
        → (t.from_state ≡ s) × (Edge s e t.to_state ⊎ LegacyEdge s e t.to_state))
      × ((u : AccountState)
          → Edge s e u ⊎ LegacyEdge s e u
          → (t : Transition StepReason) × (transition s e ≡ some t) × (t.to_state ≡ u))
unfolding Follows Takes
transition-Edge s e = (
  transition-Follows s e,
  λ u a. elim a [ inl d ↦ Edge-Takes s e u d | inr l ↦ LegacyEdge-Takes s e u l ],
)

-- The account's state after a list of events, of which the illegal ones change nothing.
abbrev pub after_event : AccountState → StateEvent → AccountState
after_event s e = elim (transition s e) [ none ↦ s | some t ↦ t.to_state ]

abbrev pub run_events : AccountState → List StateEvent → AccountState
run_events s [] = s
run_events s (e ∷ es) = run_events (after_event s e) es

run_restricted : (es : List StateEvent) → run_events restricted es ≡ restricted
unfolding transition
run_restricted [] = refl
run_restricted (soft_signal ∷ es) = run_restricted es
run_restricted (repeated_soft_signal ∷ es) = run_restricted es
run_restricted (recovered ∷ es) = run_restricted es
run_restricted (hard_signal ∷ es) = run_restricted es

is_terminal-restricted : (s : AccountState) → (is_terminal s ≡ true) ↔ (s ≡ restricted)
unfolding is_terminal
is_terminal-restricted cold = (λ h. cc, λ h. cc)
is_terminal-restricted _ = (λ h. cc, λ h. cc)

-- Restricted is the one terminal state, and no list of events leaves it.
pub is_terminal_exact :
    (s : AccountState)
    → ((is_terminal s ≡ true) ↔ (s ≡ restricted))
      × ((es : List StateEvent) → is_terminal s ≡ true → run_events s es ≡ s)
is_terminal_exact s = (
  is_terminal-restricted s,
  λ es h. let e : s ≡ restricted = (is_terminal-restricted s).0 h in rw e (run_restricted es),
)
