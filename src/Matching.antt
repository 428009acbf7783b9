-- ===== src/Matching.antt =====
-- `match-target.ts` of runtime/src/dispatch: whether a person of LinkedIn is a target.
pub mod Laws
use text.Mathlib.Text.{◌==◌ as ◌=s◌}
use linkedin_outreach_agent.Prelude.{
  ℕ, String, Bool, true, false, ◌&&◌, ◌||◌, not, Option, none, some, List, [], ◌∷◌, ◌==◌, keep_if,
  if◌then◌else◌, eq_text, get_or,
}
use linkedin_outreach_agent.Domain.{Text, TargetRow, Json, json_text, json_flag, json_other}
use linkedin_outreach_agent.Profile.{is_id_char}
use linkedin_outreach_agent.Texts.{
  codes, Unicode, trim, to_lower, lower_ascii, is_filled, contains, take_while, strip_prefix,
  after_last_colon,
}
use linkedin_outreach_agent.Texts.Uri.{decode_uri_component}

-- A prefix of the pattern with the flag `i`: both sides in lower case.
unfoldable pub after_any_case : Text → Text → Option Text
unfolding lower_ascii
after_any_case [] xs = some xs
after_any_case (p ∷ ps) [] = none
after_any_case (p ∷ ps) (x ∷ xs) = if lower_ascii x == p then after_any_case ps xs else none

-- The alternatives of the pattern, each with the colon behind it, in lower case.
abbrev pub id_kinds : List Text
id_kinds =
    codes "fsd_profile:"
    ∷ codes "fs_miniprofile:"
    ∷ codes "miniprofile:"
    ∷ codes "member:"
    ∷ codes "person:"
    ∷ []

-- The id behind the first alternative that matches at the head.
unfoldable pub token_here : List Text → Text → Option Text
unfolding after_any_case take_while is_id_char
token_here [] t = none
token_here (k ∷ ks) t =
    let rest = token_here ks t in
    elim (after_any_case k t) [
      | none ↦ rest
      | some u ↦ elim (take_while is_id_char u) [ [] ↦ rest | c ∷ cs ↦ some (c ∷ cs) ]
    ]

unfoldable pub first_token : Text → Option Text
unfolding token_here
first_token [] = none
first_token (c ∷ cs) = elim (token_here id_kinds (c ∷ cs)) [
  | some t ↦ some t
  | none ↦ first_token cs
]

-- `[()"]`
unfoldable pub is_bracket : ℕ → Bool
is_bracket c = c == b'(' || c == b')' || c == b'"'

unfoldable pub is_slug_char : ℕ → Bool
is_slug_char c = not (c == b'/' || c == b'?' || c == b'#')

-- The slug of `/\/in\/([^/?#]+)/`.
unfoldable pub first_slug : Text → Option Text
unfolding strip_prefix take_while is_slug_char
first_slug [] = none
first_slug (c ∷ cs) =
    let rest = first_slug cs in
    elim (strip_prefix (codes "/in/") (c ∷ cs)) [
      | none ↦ rest
      | some u ↦ elim (take_while is_slug_char u) [ [] ↦ rest | d ∷ ds ↦ some (d ∷ ds) ]
    ]

-- A property of the external context, and its text if it is one.
unfoldable pub context_value : String → List (String × Json) → Option Json
context_value k [] = none
context_value k ((j, v) ∷ m) = if j =s k then some v else context_value k m

unfoldable pub context_text : String → List (String × Json) → Option Text
unfolding context_value
context_text k m = elim (context_value k m) [
  | none ↦ none
  | some v ↦ elim v [ json_text t ↦ some t | json_flag b ↦ none | json_other ↦ none ]
]

-- `targetProfileUrl`
unfoldable pub target_profile_url : TargetRow → Option Text
unfolding context_text
target_profile_url t = context_text "profileUrl" t.external_context

-- A text that is there and not empty.
abbrev pub filled : Option Text → Option Text
filled none = none
filled (some []) = none
filled (some (c ∷ cs)) = some (c ∷ cs)

-- `a && b && a === b`
unfoldable pub same_filled : Option Text → Option Text → Bool
same_filled a b = elim (filled a) [
  | none ↦ false
  | some x ↦ elim (filled b) [ none ↦ false | some y ↦ eq_text x y ]
]

module _ (unicode : Unicode) where
  -- `urnTail`
  unfoldable pub urn_tail : Text → Text
  unfolding first_token to_lower after_last_colon is_bracket
  urn_tail urn = elim (first_token urn) [
    | some t ↦ to_lower unicode t
    | none ↦
        to_lower unicode (keep_if (λ c. not (is_bracket c)) (get_or (after_last_colon urn) urn))
  ]

  -- `vanityOf`: the outer `none` is the error that a malformed escape throws.
  unfoldable pub vanity_of : Text → Option (Option Text)
  unfolding first_slug decode_uri_component to_lower
  vanity_of url = elim (first_slug url) [
    | none ↦ some none
    | some slug ↦ elim (decode_uri_component slug) [
      | none ↦ none
      | some t ↦ some (some (to_lower unicode t))
    ]
  ]

  -- `url ? vanityOf(url) : undefined`
  unfoldable pub vanity_if : Option Text → Option (Option Text)
  unfolding vanity_of
  vanity_if url = elim (filled url) [ none ↦ some none | some u ↦ vanity_of u ]

  -- The url that the target's reference is, or that its context holds.
  unfoldable pub ref_url : TargetRow → Option Text
  unfolding trim contains target_profile_url
  ref_url target =
      let ref = trim target.linkedin_urn in
      if contains (codes "/in/") ref then some ref else target_profile_url target

  unfoldable pub same_identity : Text → Text → Option Text → Option Text → Bool
  unfolding same_filled
  same_identity id_tail ref_tail id_vanity ref_vanity =
      same_filled ref_vanity id_vanity
      || same_filled id_vanity (some ref_tail)
      || same_filled ref_vanity (some id_tail)

  -- `matchesIdentity`; `none` is the error of a malformed escape.
  unfoldable pub matches_identity : Text → Option Text → TargetRow → Option Bool
  matches_identity urn profile_url target =
      let id_tail = urn_tail urn in
      let ref_tail = urn_tail (trim target.linkedin_urn) in
      elim (same_filled (some id_tail) (some ref_tail)) [
        | true ↦ some true
        | false ↦ elim (vanity_if (ref_url target)) [
          | none ↦ none
          | some ref_vanity ↦ elim (vanity_if profile_url) [
            | none ↦ none
            | some id_vanity ↦ some (same_identity id_tail ref_tail id_vanity ref_vanity)
          ]
        ]
      ]
