-- ===== src/Executor/Readings.antt =====
-- What the daily usage reads after an action was charged (runtime/src/adapters/safety-state.ts).
use linkedin_outreach_agent.Prelude.{
  ℕ, ◌+◌, Bool, ◌&&◌, ◌≡◌, refl, sym, ap, ◌∙◌, List, [], ◌∷◌, ◌++◌, ◌==◌, ==_iff, leb,
  if◌then◌else◌, get_or, length, keep_if, Bool-cases, Option-cases, inl, inr, arith,
}
use linkedin_outreach_agent.Domain.{UserId, Time, ActionType, same_type, same_type_sound}
use linkedin_outreach_agent.Counters.Live.{
  ByType, DailyUsage, record_daily, used_since, of_today, no_types,
}

-- What `usedToday` reads for a kind of action.
abbrev pub used : Time → UserId → ActionType → DailyUsage → ℕ
used day account kind w = get_or ((used_since day account w).0 kind) 0

count_append {ℓ} :
    {A : Type ℓ} (p : A → Bool) (a : A) (xs : List A)
    → length (keep_if p (xs ++ a ∷ [])) ≡ length (keep_if p xs) + (if p a then 1 else 0)
unfolding keep_if
count_append p a [] = ground arith
count_append p a (x ∷ xs) = ground (arith, count_append p a xs)

-- The stamps of a kind since a time.
abbrev of_kind : Time → ActionType → ByType → ℕ
of_kind day kind b = length (keep_if (leb day) (get_or (b kind) []))

of_today-count :
    (day : Time) (kind : ActionType) (b : ByType)
    → length (get_or (of_today day b kind) []) ≡ of_kind day kind b
unfolding of_today keep_if
of_today-count day kind b = elim (Option-cases (b kind)) [
  | inl e ↦ rw (of_today, e) refl
  | inr (xs, e) ↦ rw (of_today, e) refl
]

used-count :
    (day : Time) (account : UserId) (kind : ActionType) (w : DailyUsage)
    → used day account kind w ≡ of_kind day kind (get_or (w account) no_types)
unfolding used_since keep_if
used-count day account kind w = elim (Option-cases (w account)) [
  | inl e ↦ rw (used_since, e) refl
  | inr (b, e) ↦ rw (used_since, e) (of_today-count day kind b)
]

-- An entry adds one to its own account and kind, for the days that it is in.
record_daily-count :
    (day : Time) (account other : UserId) (type kind : ActionType) (at : Time) (w : DailyUsage)
    → of_kind day kind (get_or (record_daily account type at w other) no_types)
      ≡ of_kind day kind (get_or (w other) no_types)
        + (if other == account && same_type kind type && leb day at then 1 else 0)
unfolding record_daily keep_if
record_daily-count day account other type kind at w = elim (Bool-cases (other == account)) [
  | inr differ ↦ rw differ (omega arith)
  | inl same ↦ elim (Bool-cases (same_type kind type)) [
    | inr k ↦
        rw (same, k)
          (ap (λ i. of_kind day kind (get_or (w i) no_types)) (sym ((==_iff other account).0 same))
            ∙ omega arith)
    | inl k ↦
        rw (same, k)
          (count_append (leb day) at (get_or (get_or (w account) no_types type) [])
            ∙ ap (λ n. n + (if leb day at then 1 else 0))
                (ap (λ i. of_kind day type (get_or (w i) no_types))
                    (sym ((==_iff other account).0 same))
                  ∙ ap (λ q. of_kind day q (get_or (w other) no_types))
                      (sym (same_type_sound kind type k))))
  ]
]

pub record_daily-used :
    (day : Time) (account other : UserId) (type kind : ActionType) (at : Time) (w : DailyUsage)
    → used day other kind (record_daily account type at w)
      ≡ used day other kind w
        + (if other == account && same_type kind type && leb day at then 1 else 0)
record_daily-used day account other type kind at w =
    used-count day other kind (record_daily account type at w)
    ∙ record_daily-count day account other type kind at w
    ∙ ap (λ n. n + (if other == account && same_type kind type && leb day at then 1 else 0))
        (sym (used-count day other kind w))
