-- ===== src/Texts.antt =====
-- The methods of the language's strings that the code calls, on lists of UTF-16 code units.
-- Beyond ASCII, lower case is a table of the Unicode standard: a parameter, `Unicode`.
pub mod Uri
use Prim.Native.Char.{code}
use linkedin_outreach_agent.Prelude.{
  ℕ, String, Bool, true, false, ◌&&◌, ◌||◌, not, Option, none, some, [], ◌∷◌, ◌++◌, map, leb, ltb,
  ◌==◌, if◌then◌else◌, ◌+◌, ◌-◌, ◌*◌, ◌/◌, ◌%◌, List,
}
use linkedin_outreach_agent.Domain.{Text}

-- The code units of an ASCII literal.
abbrev pub codes : String → Text
codes String.[] = []
codes (String.◌∷◌ c s) = code c ∷ codes s

abbrev pub Unicode : Type 0
Unicode = Text → Text

-- `\s`, which is also what `trim` removes.
unfoldable pub is_space : ℕ → Bool
is_space c =
    (leb 9 c && leb c 13)
    || c == 32
    || c == 160
    || c == 5_760
    || (leb 8_192 c && leb c 8_202)
    || c == 8_232
    || c == 8_233
    || c == 8_239
    || c == 8_287
    || c == 12_288
    || c == 65_279

unfoldable pub is_ascii_letter : ℕ → Bool
is_ascii_letter c = (leb b'A' c && leb c b'Z') || (leb b'a' c && leb c b'z')

unfoldable pub trim_start : Text → Text
unfolding is_space
trim_start [] = []
trim_start (c ∷ cs) = if is_space c then trim_start cs else c ∷ cs

-- A space is dropped when nothing but spaces follows.
unfoldable pub trim_end : Text → Text
unfolding is_space
trim_end [] = []
trim_end (c ∷ cs) = elim (trim_end cs) [
  | [] ↦ if is_space c then [] else c ∷ []
  | d ∷ ds ↦ c ∷ d ∷ ds
]

unfoldable pub trim : Text → Text
unfolding trim_start trim_end
trim t = trim_end (trim_start t)

unfoldable pub lower_ascii : ℕ → ℕ
lower_ascii c = if leb b'A' c && leb c b'Z' then c + 32 else c

unfoldable pub all_ascii : Text → Bool
all_ascii [] = true
all_ascii (c ∷ cs) = ltb c 128 && all_ascii cs

-- `toLowerCase`
unfoldable pub to_lower : Unicode → Text → Text
unfolding lower_ascii all_ascii
to_lower unicode t = if all_ascii t then map lower_ascii t else unicode t

-- `length > 0`: what makes a text a true condition.
abbrev pub is_filled : Text → Bool
is_filled [] = false
is_filled (c ∷ cs) = true

-- The text behind a prefix.
unfoldable pub strip_prefix : Text → Text → Option Text
strip_prefix [] xs = some xs
strip_prefix (p ∷ ps) [] = none
strip_prefix (p ∷ ps) (x ∷ xs) = if p == x then strip_prefix ps xs else none

abbrev pub is_some {ℓ} : {A : Type ℓ} → Option A → Bool
is_some none = false
is_some (some a) = true

-- `startsWith`, `includes`
unfoldable pub starts_with : Text → Text → Bool
unfolding strip_prefix
starts_with xs prefix = is_some (strip_prefix prefix xs)

unfoldable pub contains : Text → Text → Bool
unfolding starts_with
contains prefix [] = starts_with [] prefix
contains prefix (x ∷ xs) = starts_with (x ∷ xs) prefix || contains prefix xs

-- The longest prefix of units that pass a test: a greedy `[...]*`.
unfoldable pub take_while : (ℕ → Bool) → Text → Text
take_while p [] = []
take_while p (c ∷ cs) = let rest = take_while p cs in if p c then c ∷ rest else []

-- The text behind the last `:`, or the whole: `slice(lastIndexOf(':') + 1)`.
unfoldable pub after_last_colon : Text → Option Text
after_last_colon [] = none
after_last_colon (c ∷ cs) = elim (after_last_colon cs) [
  | some t ↦ some t
  | none ↦ if c == b':' then some cs else none
]
