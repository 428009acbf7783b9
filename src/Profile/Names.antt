-- ===== src/Profile/Names.antt =====
-- The display names of shared/src/profile.ts: which are stubs, and which name fills one in.
use linkedin_outreach_agent.Prelude.{
  ℕ, Bool, false, ◌&&◌, ◌||◌, not, List, [], ◌∷◌, ltb, ◌==◌, if◌then◌else◌, eq_text, length,
}
use linkedin_outreach_agent.Domain.{Text}
use linkedin_outreach_agent.Texts.{
  Unicode, trim, to_lower, is_space, is_ascii_letter, is_filled, take_while, starts_with,
}

-- `/\s[A-Za-z]\.$/.test(n)`
unfoldable pub ends_in_initial : Text → Bool
unfolding is_space is_ascii_letter
ends_in_initial [] = false
ends_in_initial (a ∷ rest) =
    (elim rest [
      | [] ↦ false
      | b ∷ more ↦ elim more [
        | [] ↦ false
        | d ∷ tail ↦ is_space a && is_ascii_letter b && d == b'.' && not (is_filled tail)
      ]
    ])
    || ends_in_initial rest

-- `isTruncatedName`
unfoldable pub is_truncated_name : Text → Bool
unfolding ends_in_initial trim
is_truncated_name name = ends_in_initial (trim name)

-- `split(/\s+/)` of a text that has no space at its ends and is not empty.
abbrev pub onto_first : ℕ → List Text → List Text
onto_first c [] = (c ∷ []) ∷ []
onto_first c (w ∷ ws) = (c ∷ w) ∷ ws

unfoldable pub words : Text → List Text
unfolding is_space
words [] = []
words (c ∷ cs) =
    let rest = words cs in
    if is_space c then rest else elim cs [
      | [] ↦ (c ∷ []) ∷ []
      | d ∷ ds ↦ if is_space d then (c ∷ []) ∷ rest else onto_first c rest
    ]

-- `nameTokens`
unfoldable pub name_tokens : Text → List Text
unfolding words take_while trim
name_tokens name = words (trim (take_while (λ c. not (c == b',')) name))

-- `replace(/\.$/, '')`
unfoldable pub without_dot : Text → Text
without_dot [] = []
without_dot (c ∷ cs) =
    let rest = without_dot cs in
    elim cs [ [] ↦ if c == b'.' then [] else c ∷ [] | d ∷ ds ↦ c ∷ rest ]

abbrev pub first_of : List Text → Text
first_of [] = []
first_of (w ∷ ws) = w

unfoldable pub last_of : List Text → Text
last_of [] = []
last_of (w ∷ ws) = let rest = last_of ws in elim ws [ [] ↦ w | v ∷ vs ↦ rest ]

abbrev pub is_one_letter : Text → Bool
is_one_letter [] = false
is_one_letter (c ∷ []) = is_ascii_letter c
is_one_letter (c ∷ d ∷ ds) = false

-- `firstNameIsInitial`
unfoldable pub first_name_is_initial : Text → Bool
unfolding name_tokens without_dot trim is_ascii_letter
first_name_is_initial name = is_one_letter (without_dot (first_of (name_tokens (trim name))))

-- `expandsInitialFirstName`
unfoldable pub expands_initial_first_name : Unicode → Text → Text → Bool
unfolding name_tokens without_dot to_lower starts_with last_of
expands_initial_first_name unicode stored full =
    let s = name_tokens stored in
    let f = name_tokens full in
    let initial = without_dot (first_of s) in
    not (ltb (length s) 2)
    && not (ltb (length f) 2)
    && length initial == 1
    && eq_text (to_lower unicode (last_of s)) (to_lower unicode (last_of f))
    && not (ltb (length (first_of f)) 2)
    && starts_with (to_lower unicode (first_of f)) (to_lower unicode initial)
