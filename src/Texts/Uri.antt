-- ===== src/Texts/Uri.antt =====
-- `decodeURIComponent`: the octets of a run of `%XX` are UTF-8, and `none` is the URIError that it
-- throws on any other text.
use linkedin_outreach_agent.Prelude.{
  ℕ, zero, suc, Bool, true, false, ◌&&◌, ◌||◌, Option, none, some, [], ◌∷◌, ◌++◌, leb, ltb, ◌==◌,
  if◌then◌else◌, ◌+◌, ◌-◌, ◌*◌, ◌/◌, ◌%◌, length,
}
use linkedin_outreach_agent.Domain.{Text}

unfoldable hex_digit : ℕ → Option ℕ
hex_digit c =
    if leb b'0' c && leb c b'9'
    then some (c - 48)
    else if leb b'A' c && leb c b'F'
    then some (c - 55)
    else if leb b'a' c && leb c b'f'
    then some (c - 87)
    else none

-- The octet of `%XX` at the head, and the text behind it.
unfoldable octet : Text → Option (ℕ × Text)
unfolding hex_digit
octet (p ∷ a ∷ b ∷ rest) =
    if p == b'%'
    then elim (hex_digit a) [
      | none ↦ none
      | some h ↦ elim (hex_digit b) [ none ↦ none | some l ↦ some (h * 16 + l, rest) ]
    ]
    else none
octet _ = none

-- The number of octets that a first octet asks for.
unfoldable octets_of : ℕ → Option ℕ
octets_of b =
    if ltb b 128
    then some 1
    else if ltb b 192
    then none
    else if ltb b 224
    then some 2
    else if ltb b 240
    then some 3
    else if ltb b 248
    then some 4
    else none

unfoldable first_bits : ℕ → ℕ → ℕ
first_bits n b = if n == 1 then b else if n == 2 then b % 32 else if n == 3 then b % 16 else b % 8

-- `n` continuation octets onto the bits so far.
unfoldable continued : ℕ → ℕ → Text → Option (ℕ × Text)
unfolding octet
continued zero v t = some (v, t)
continued (suc n) v t = elim (octet t) [
  | none ↦ none
  | some o ↦ elim (leb 128 o.0 && ltb o.0 192) [
    | true ↦ continued n (v * 64 + o.0 % 64) o.1
    | false ↦ none
  ]
]

-- No overlong form, no surrogate, nothing above U+10FFFF.
unfoldable is_valid_point : ℕ → ℕ → Bool
is_valid_point n v =
    (n == 1
      || (n == 2 && leb 128 v)
      || (n == 3 && leb 2_048 v && (ltb v 55_296 || leb 57_344 v))
      || (n == 4 && leb 65_536 v && leb v 1_114_111))

-- A code point as code units.
unfoldable utf16 : ℕ → Text
utf16 v =
    if ltb v 65_536
    then v ∷ []
    else (55_296 + (v - 65_536) / 1_024) ∷ (56_320 + (v - 65_536) % 1_024) ∷ []

-- One character from its escapes.
unfoldable escaped : Text → Option (Text × Text)
unfolding octet octets_of first_bits continued is_valid_point utf16
escaped t = elim (octet t) [
  | none ↦ none
  | some o ↦ elim (octets_of o.0) [
    | none ↦ none
    | some n ↦ elim (continued (n - 1) (first_bits n o.0) o.1) [
      | none ↦ none
      | some v ↦ if is_valid_point n v.0 then some (utf16 v.0, v.1) else none
    ]
  ]
]

-- Every round takes one unit at least, so the length of the text is enough fuel.
unfoldable decode_on : ℕ → Text → Option Text
unfolding escaped
decode_on fuel [] = some []
decode_on zero (c ∷ cs) = none
decode_on (suc fuel) (c ∷ cs) = elim (c == b'%') [
  | false ↦ elim (decode_on fuel cs) [ none ↦ none | some t ↦ some (c ∷ t) ]
  | true ↦ elim (escaped (c ∷ cs)) [
    | none ↦ none
    | some r ↦ elim (decode_on fuel r.1) [ none ↦ none | some t ↦ some (r.0 ++ t) ]
  ]
]

unfoldable pub decode_uri_component : Text → Option Text
unfolding decode_on
decode_uri_component t = decode_on (length t) t
