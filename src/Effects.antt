-- ===== src/Effects.antt =====
-- Asynchronous methods as steps: a step takes the state of the world and either returns a value or
-- throws, in both cases with the state that the writes up to there have left.
use linkedin_outreach_agent.Prelude.{◌≡◌, refl, sym, ap, subst, ◌∙◌, ◌⊎◌, inl, inr}
pub use linkedin_outreach_agent.Domain.{
  Refusal, later, never, Failure, safety_deferred, not_found, already_decided, other_error,
}

pub data Answer {ℓ} (A : Type ℓ) : Type ℓ where
  returned : A → Answer A
  threw : Failure → Answer A

abbrev pub Step {ℓ} : Type ℓ → Type ℓ → Type ℓ
Step W A = W → Answer A × W

abbrev pub ret {ℓ} : {W A : Type ℓ} → A → Step W A
ret a w = (returned a, w)

abbrev pub throw {ℓ} : {W A : Type ℓ} → Failure → Step W A
throw e w = (threw e, w)

infixl 5 ◌>>=◌ ◌>>◌
abbrev pub ◌>>=◌ {ℓ} : {W A B : Type ℓ} → Step W A → (A → Step W B) → Step W B
(m >>= f) w = elim (m w).0 [ returned a ↦ f a (m w).1 | threw e ↦ (threw e, (m w).1) ]

abbrev pub ◌>>◌ {ℓ} : {W A B : Type ℓ} → Step W A → Step W B → Step W B
(m >> k) w = elim (m w).0 [ returned a ↦ k (m w).1 | threw e ↦ (threw e, (m w).1) ]

-- `try { m } catch (err) { h(err) }`, with the rest after the try in `f`.
abbrev pub try {ℓ} : {W A B : Type ℓ} → Step W A → (A → Step W B) → (Failure → Step W B) → Step W B
try m f h w = elim (m w).0 [ returned a ↦ f a (m w).1 | threw e ↦ h e (m w).1 ]

pub Answer-cases {ℓ} :
    {A : Type ℓ} (o : Answer A) → ((a : A) × (o ≡ returned a)) ⊎ ((e : Failure) × (o ≡ threw e))
Answer-cases (returned a) = inl (a, refl)
Answer-cases (threw e) = inr (e, refl)

module _ {ℓ} {W A B : Type ℓ} (m : Step W A) (f : A → Step W B) (w : W) where
  pub bind_next : (a : A) → (m w).0 ≡ returned a → (m >>= f) w ≡ f a (m w).1
  bind_next a h = rw (◌>>=◌, h)

  pub bind_stop : (e : Failure) → (m w).0 ≡ threw e → (m >>= f) w ≡ (threw e, (m w).1)
  bind_stop e h = rw (◌>>=◌, h)

  -- What a sequence that returned went through.
  pub bind_inv :
      (b : B) (w' : W)
      → (m >>= f) w ≡ (returned b, w')
      → (a : A) × ((m w).0 ≡ returned a) × (f a (m w).1 ≡ (returned b, w'))
  bind_inv b w' h = elim (Answer-cases (m w).0) [
    | inl (a, e) ↦ (a, e, sym (bind_next a e) ∙ h)
    | inr (x, e) ↦ absurd (cc (bind_stop x e, h))
  ]

  module _ (h : Failure → Step W B) where
    pub try_next : (a : A) → (m w).0 ≡ returned a → try m f h w ≡ f a (m w).1
    try_next a e = rw (try, e)

    pub try_stop : (x : Failure) → (m w).0 ≡ threw x → try m f h w ≡ h x (m w).1
    try_stop x e = rw (try, e)

pub pair_eq {ℓ} : {A B : Type ℓ} (p : A × B) (a : A) (b : B) → p.0 ≡ a → p.1 ≡ b → p ≡ (a, b)
pair_eq p a b h k = cc

-- A sequence whose first step is known, from its first state to its end.
pub then_eq {ℓ} :
    {W A B : Type ℓ} (m : Step W A) (k : Step W B) (w w1 : W) (a : A) (r : Answer B × W)
    → m w ≡ (returned a, w1)
    → k w1 ≡ r
    → (m >> k) w ≡ r
then_eq m k w w1 a r h e =
    ap (λ x. elim x.0 [ returned a ↦ k x.1 | threw e ↦ (threw e, x.1) ]) h ∙ e

pub then_stop_eq {ℓ} :
    {W A B : Type ℓ} (m : Step W A) (k : Step W B) (w w1 : W) (e : Failure)
    → m w ≡ (threw e, w1)
    → (m >> k) w ≡ (threw e, w1)
then_stop_eq m k w w1 e h = ap (λ x. elim x.0 [ returned a ↦ k x.1 | threw e ↦ (threw e, x.1) ]) h

pub bind_stop_eq {ℓ} :
    {W A B : Type ℓ} (m : Step W A) (f : A → Step W B) (w w1 : W) (e : Failure)
    → m w ≡ (threw e, w1)
    → (m >>= f) w ≡ (threw e, w1)
bind_stop_eq m f w w1 e h = ap (λ x. elim x.0 [ returned a ↦ f a x.1 | threw e ↦ (threw e, x.1) ]) h

pub bind_eq {ℓ} :
    {W A B : Type ℓ} (m : Step W A) (f : A → Step W B) (w w1 : W) (a : A) (r : Answer B × W)
    → m w ≡ (returned a, w1)
    → f a w1 ≡ r
    → (m >>= f) w ≡ r
bind_eq m f w w1 a r h e =
    ap (λ x. elim x.0 [ returned a ↦ f a x.1 | threw e ↦ (threw e, x.1) ]) h ∙ e

-- To prove a statement of a sequence: the first step throws, or the rest runs on what it returns.
pub bind_cases {ℓ κ} :
    {W A B : Type ℓ} (m : Step W A) (f : A → Step W B) (w : W) (P : Answer B × W → Type κ)
    → ((e : Failure) → (m w).0 ≡ threw e → P (threw e, (m w).1))
    → ((a : A) → (m w).0 ≡ returned a → P (f a (m w).1))
    → P ((m >>= f) w)
bind_cases m f w P stopped went = elim (Answer-cases (m w).0) [
  | inl (a, h) ↦ subst P (sym (bind_next m f w a h)) (went a h)
  | inr (e, h) ↦ subst P (sym (bind_stop m f w e h)) (stopped e h)
]
