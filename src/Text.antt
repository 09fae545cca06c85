-- ===== src/Text.antt =====
-- Text: the splits of `str` that the program uses, `format!` of numbers, and `str::parse`.
-- A text is a native string, walked by its characters.
pub mod Decimal
pub mod Bytes
use Prim.Native.Char.{Char, code}
use gum.Prelude.Lists.{filter}
use gum.Prelude.{
  ℕ, ◌≡◌, refl, Bool, true, false, not, ◌&&◌, ◌||◌, leb, List, [], ◌∷◌, Option, none, some, String,
  str_eq, eq_iff, arith, ◌==◌, if◌then◌else◌,
}

-- `text.split_once(sep)`, for a separator of one character
unfoldable pub split_once : ℕ → String → Option (String × String)
split_once sep String.[] = none
split_once sep (String.◌∷◌ c s) =
    let rest : Option (String × String) = elim (split_once sep s) [
      | none ↦ none
      | some (a, b) ↦ some (String.◌∷◌ c a, b)
    ] in
    if code c == sep then some ("", s) else rest

-- `text.rsplit_once(sep)`: the last occurrence splits
unfoldable pub rsplit_once : ℕ → String → Option (String × String)
rsplit_once sep String.[] = none
rsplit_once sep (String.◌∷◌ c s) = elim (rsplit_once sep s) [
  | some (a, b) ↦ some (String.◌∷◌ c a, b)
  | none ↦ if code c == sep then some ("", s) else none
]

abbrev after_head : Char → Option (String × Char) → String × Char
after_head c none = ("", c)
after_head c (some (s, d)) = (String.◌∷◌ c s, d)

-- The text before its last character, and that character.
unfoldable pub split_last : String → Option (String × Char)
split_last String.[] = none
split_last (String.◌∷◌ c s) = some (after_head c (split_last s))

-- `text.strip_prefix(prefix)`
unfoldable pub strip_prefix : String → String → Option String
strip_prefix String.[] s = some s
strip_prefix (String.◌∷◌ p ps) String.[] = none
strip_prefix (String.◌∷◌ p ps) (String.◌∷◌ c s) =
    let rest = strip_prefix ps s in if code p == code c then rest else none

-- `char::is_whitespace`, of a code point
is_whitespace : ℕ → Bool
is_whitespace c =
    (leb 9 c && leb c 13)
    || c == 0x20
    || c == 0x85
    || c == 0xA0
    || c == 0x1680
    || (leb 0x2000 c && leb c 0x200A)
    || c == 0x2028
    || c == 0x2029
    || c == 0x202F
    || c == 0x205F
    || c == 0x3000

trim_start : String → String
trim_start String.[] = ""
trim_start (String.◌∷◌ c s) =
    let rest = trim_start s in if is_whitespace (code c) then rest else String.◌∷◌ c s

cons_trimmed : Char → String → String
cons_trimmed c String.[] = if is_whitespace (code c) then "" else String.◌∷◌ c ""
cons_trimmed c (String.◌∷◌ d s) = String.◌∷◌ c (String.◌∷◌ d s)

trim_end : String → String
unfolding cons_trimmed
trim_end String.[] = ""
trim_end (String.◌∷◌ c s) = cons_trimmed c (trim_end s)

-- `text.trim()`
unfoldable pub trim : String → String
unfolding trim_start trim_end is_whitespace
trim s = trim_end (trim_start s)

cons_first : Char → List String → List String
cons_first c [] = String.◌∷◌ c "" ∷ []
cons_first c (s ∷ rest) = String.◌∷◌ c s ∷ rest

-- `text.split(sep)`, by a test on characters
unfoldable pub split : (ℕ → Bool) → String → List String
unfolding cons_first
split sep String.[] = "" ∷ []
split sep (String.◌∷◌ c s) =
    let rest = split sep s in if sep (code c) then "" ∷ rest else cons_first c rest

-- `text.split_whitespace()`
unfoldable pub split_whitespace : String → List String
unfolding split is_whitespace
split_whitespace s = filter (λ part. not (str_eq part "")) (split is_whitespace s)

words : split_whitespace "  0 9\t* " ≡ "0" ∷ "9" ∷ "*" ∷ []
unfolding split_whitespace
words = refl

-- A text that equals one of two distinct texts is not the other.
pub str_eq_distinct : (s a b : String) → str_eq a b ≡ false → str_eq s a ≡ true → str_eq s b ≡ false
str_eq_distinct s a b h e = ground (arith, eq_iff s a, eq_iff s b, eq_iff a b)
