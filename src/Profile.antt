-- ===== src/Profile.antt =====
-- `canonicalProfileKey` of shared/src/profile.ts: the first match of
-- `urn:li:fsd_profile:[A-Za-z0-9_-]+` in a text, or the text itself.
pub mod Names
use linkedin_outreach_agent.Prelude.{
  ℕ, Bool, ◌≡◌, refl, sym, subst, ◌&&◌, ◌||◌, Option, none, some, [], ◌∷◌, ◌++◌, leb, ◌==◌,
  if◌then◌else◌, get_or, arith, Option-cases, Bool-cases, inl, inr,
}
use linkedin_outreach_agent.Domain.{Text}

-- The code units of `urn:li:fsd_profile:`.
abbrev pub profile_prefix : Text
profile_prefix =
    117 ∷ 114 ∷ 110 ∷ 58 ∷ 108 ∷ 105 ∷ 58 ∷ 102 ∷ 115 ∷ 100 ∷ 95 ∷ 112 ∷ 114 ∷ 111 ∷ 102 ∷ 105 ∷ 108
    ∷ 101 ∷ 58 ∷ []

-- `[A-Za-z0-9_-]`
unfoldable pub is_id_char : ℕ → Bool
is_id_char c =
    (leb 65 c && leb c 90)
    || (leb 97 c && leb c 122)
    || (leb 48 c && leb c 57)
    || c == 95
    || c == 45

unfoldable pub id_chars : Text → Text
id_chars [] = []
id_chars (c ∷ cs) = let rest = id_chars cs in if is_id_char c then c ∷ rest else []

-- The text after a prefix.
unfoldable pub after : Text → Text → Option Text
after [] xs = some xs
after (p ∷ ps) [] = none
after (p ∷ ps) (x ∷ xs) = if p == x then after ps xs else none

unfoldable pub with_id : Text → Option Text
with_id [] = none
with_id (c ∷ cs) = some (profile_prefix ++ c ∷ cs)

-- The match at the head of a text.
unfoldable pub match_here : Text → Option Text
unfolding after id_chars with_id
match_here xs = elim (after profile_prefix xs) [ none ↦ none | some rest ↦ with_id (id_chars rest) ]

unfoldable pub first_match : Text → Option Text
first_match [] = none
first_match (x ∷ xs) = elim (match_here (x ∷ xs)) [ some m ↦ some m | none ↦ first_match xs ]

unfoldable pub canonical_profile_key : Text → Text
canonical_profile_key urn = get_or (first_match urn) urn

id_chars_twice : (xs : Text) → id_chars (id_chars xs) ≡ id_chars xs
unfolding id_chars
id_chars_twice [] = refl
id_chars_twice (x ∷ xs) = elim (Bool-cases (is_id_char x)) [
  | inl e ↦ rw (e, id_chars_twice xs, e)
  | inr e ↦ rw e
]

-- What a match is: the prefix and an id that reads as itself.
IsMatch : Text → Type 0
IsMatch m = (c : ℕ) × (cs : Text) × (id_chars (c ∷ cs) ≡ c ∷ cs) × (m ≡ profile_prefix ++ c ∷ cs)

with_id-IsMatch : (xs m : Text) → id_chars xs ≡ xs → with_id xs ≡ some m → IsMatch m
unfolding with_id IsMatch
with_id-IsMatch [] m h e = absurd cc
with_id-IsMatch (c ∷ cs) m h e = (c, cs, h, cc)

match_here-IsMatch : (xs m : Text) → match_here xs ≡ some m → IsMatch m
unfolding match_here
match_here-IsMatch xs m h = elim (Option-cases (after profile_prefix xs)) [
  | inl e ↦ absurd (ground (arith, h, e))
  | inr (rest, e) ↦ with_id-IsMatch (id_chars rest) m (id_chars_twice rest) (ground (arith, h, e))
]

first_match-IsMatch : (xs m : Text) → first_match xs ≡ some m → IsMatch m
unfolding first_match
first_match-IsMatch [] m h = absurd cc
first_match-IsMatch (x ∷ xs) m h = elim (Option-cases (match_here (x ∷ xs))) [
  | inl e ↦ first_match-IsMatch xs m (ground (arith, h, e))
  | inr (r, e) ↦ match_here-IsMatch (x ∷ xs) m (ground (arith, h, e))
]

match_self : (m : Text) → IsMatch m → first_match m ≡ some m
unfolding IsMatch first_match match_here with_id after
match_self m (c, cs, h, e) = subst (λ x. first_match x ≡ some x) (sym e) (rw (first_match, h))

-- The key of a text's canonical key is that key: the search finds it whole.
pub canonical_profile_key_twice :
    (urn : Text) → canonical_profile_key (canonical_profile_key urn) ≡ canonical_profile_key urn
unfolding canonical_profile_key
canonical_profile_key_twice urn = elim (Option-cases (first_match urn)) [
  | inl e ↦ rw (e, e)
  | inr (m, e) ↦ rw (e, match_self m (first_match-IsMatch urn m e))
]
