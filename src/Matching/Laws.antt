-- ===== src/Matching/Laws.antt =====
-- The matcher on the shapes of urn that LinkedIn stamps for a person.
use linkedin_outreach_agent.Prelude.{
  ℕ, Bool, true, ◌≡◌, refl, ap, ◌∙◌, Option, some, [], ◌∷◌, ◌++◌, map, arith, eq_text_refl,
}
use linkedin_outreach_agent.Domain.{Text, TargetRow}
use linkedin_outreach_agent.Profile.{is_id_char}
use linkedin_outreach_agent.Texts.{
  codes, Unicode, trim, trim_end, to_lower, lower_ascii, all_ascii, take_while, is_space,
}
use linkedin_outreach_agent.Matching.{
  urn_tail, first_token, token_here, matches_identity, same_filled,
}

-- The urns that carry a person's id, and the wrapper that a search result has around one.
pub data UrnShape : Type 0 where
  profile mini_profile bare_mini_profile member person search_result : UrnShape

unfoldable pub urn_of : UrnShape → Text → Text
urn_of UrnShape.profile id = codes "urn:li:fsd_profile:" ++ id
urn_of UrnShape.mini_profile id = codes "urn:li:fs_miniProfile:" ++ id
urn_of UrnShape.bare_mini_profile id = codes "urn:li:miniProfile:" ++ id
urn_of UrnShape.member id = codes "urn:li:member:" ++ id
urn_of UrnShape.person id = codes "urn:li:person:" ++ id
urn_of UrnShape.search_result id =
    codes "urn:li:fsd_entityResultViewModel:(urn:li:fsd_profile:"
    ++ id
    ++ codes ",SEARCH_SRP,DEFAULT)"

-- An id is made of the characters of the pattern, and ends where another begins.
take_while-append :
    (p : ℕ → Bool) (id rest : Text)
    → take_while p id ≡ id
    → take_while p rest ≡ []
    → take_while p (id ++ rest) ≡ id
unfolding take_while
take_while-append p [] rest h k = k
take_while-append p (c ∷ cs) rest h k = ground (arith, h, k, take_while-append p cs rest)

id_ascii : (id : Text) → take_while is_id_char id ≡ id → all_ascii id ≡ true
unfolding take_while is_id_char all_ascii
id_ascii [] h = refl
id_ascii (c ∷ cs) h = ground (arith, h, id_ascii cs)

-- A text that ends in no space keeps its end under every prefix.
trim_end-append :
    (xs : Text) (y : ℕ) (ys : Text)
    → trim_end (y ∷ ys) ≡ y ∷ ys
    → trim_end (xs ++ y ∷ ys) ≡ xs ++ y ∷ ys
unfolding trim_end
trim_end-append [] y ys h = h
trim_end-append (x ∷ []) y ys h = rw h
trim_end-append (x ∷ x' ∷ xs) y ys h = rw (trim_end-append (x' ∷ xs) y ys h)

trim_end_id :
    (c : ℕ) (cs : Text) → take_while is_id_char (c ∷ cs) ≡ c ∷ cs → trim_end (c ∷ cs) ≡ c ∷ cs
unfolding trim_end take_while is_id_char is_space
trim_end_id c [] h = ground (arith, h)
trim_end_id c (d ∷ ds) h = ground (arith, h, trim_end_id d ds)

module _ (unicode : Unicode) (urn : Text) (url : Option Text) (target : TargetRow) where
  tail_match :
      same_filled (some (urn_tail unicode urn)) (some (urn_tail unicode (trim target.linkedin_urn)))
        ≡ true
      → matches_identity unicode urn url target ≡ some true
  unfolding matches_identity
  tail_match h = rw (matches_identity, h)

  same_tails :
      (c : ℕ) (cs x y : Text) → x ≡ c ∷ cs → y ≡ c ∷ cs → same_filled (some x) (some y) ≡ true
  unfolding same_filled
  same_tails c cs x y h k =
      ap (λ x. same_filled (some x) (some y)) h
      ∙ ap (λ y. same_filled (some (c ∷ cs)) (some y)) k
      ∙ eq_text_refl (c ∷ cs)

  tails_match :
      (c : ℕ) (cs : Text)
      → urn_tail unicode urn ≡ c ∷ cs
      → urn_tail unicode (trim target.linkedin_urn) ≡ c ∷ cs
      → matches_identity unicode urn url target ≡ some true
  tails_match c cs h k =
      tail_match
        (same_tails c cs (urn_tail unicode urn) (urn_tail unicode (trim target.linkedin_urn)) h k)

module _ (unicode : Unicode) (c : ℕ) (cs : Text)
    (is_id : take_while is_id_char (c ∷ cs) ≡ c ∷ cs) where
  first_token-urn_of : (shape : UrnShape) → first_token (urn_of shape (c ∷ cs)) ≡ some (c ∷ cs)
  unfolding urn_of first_token token_here
  first_token-urn_of UrnShape.profile = rw (first_token, token_here, is_id)
  first_token-urn_of UrnShape.mini_profile = rw (first_token, token_here, is_id)
  first_token-urn_of UrnShape.bare_mini_profile = rw (first_token, token_here, is_id)
  first_token-urn_of UrnShape.member = rw (first_token, token_here, is_id)
  first_token-urn_of UrnShape.person = rw (first_token, token_here, is_id)
  first_token-urn_of UrnShape.search_result = rw (
    first_token,
    token_here,
    take_while-append is_id_char (c ∷ cs) (codes ",SEARCH_SRP,DEFAULT)") is_id refl,
  )

  trim-urn_of : (shape : UrnShape) → trim (urn_of shape (c ∷ cs)) ≡ urn_of shape (c ∷ cs)
  unfolding urn_of trim
  trim-urn_of UrnShape.profile =
      trim_end-append (codes "urn:li:fsd_profile:") c cs (trim_end_id c cs is_id)
  trim-urn_of UrnShape.mini_profile =
      trim_end-append (codes "urn:li:fs_miniProfile:") c cs (trim_end_id c cs is_id)
  trim-urn_of UrnShape.bare_mini_profile =
      trim_end-append (codes "urn:li:miniProfile:") c cs (trim_end_id c cs is_id)
  trim-urn_of UrnShape.member =
      trim_end-append (codes "urn:li:member:") c cs (trim_end_id c cs is_id)
  trim-urn_of UrnShape.person =
      trim_end-append (codes "urn:li:person:") c cs (trim_end_id c cs is_id)
  trim-urn_of UrnShape.search_result =
      trim_end-append (codes "urn:li:fsd_entityResultViewModel:(urn:li:fsd_profile:" ++ c ∷ cs) b','
        (codes "SEARCH_SRP,DEFAULT)") refl

  urn_tail-urn_of :
      (shape : UrnShape) → urn_tail unicode (urn_of shape (c ∷ cs)) ≡ map lower_ascii (c ∷ cs)
  unfolding urn_tail to_lower
  urn_tail-urn_of shape = rw (urn_tail, to_lower, first_token-urn_of shape, id_ascii (c ∷ cs) is_id)

  -- Two urns of whatever shapes that carry the same id are the same person: a target that was
  -- sourced from a search result is found again by the bare urn of a connection or of a sender,
  -- whatever else the two carry.
  pub matches_identity-urn_of :
      (a b : UrnShape) (url : Option Text) (target : TargetRow)
      → target.linkedin_urn ≡ urn_of b (c ∷ cs)
      → matches_identity unicode (urn_of a (c ∷ cs)) url target ≡ some true
  unfolding urn_of
  matches_identity-urn_of a b url target h =
      tails_match unicode (urn_of a (c ∷ cs)) url target (lower_ascii c) (map lower_ascii cs)
        (urn_tail-urn_of a)
        (ap (λ t. urn_tail unicode (trim t)) h
          ∙ ap (urn_tail unicode) (trim-urn_of b)
          ∙ urn_tail-urn_of b)
