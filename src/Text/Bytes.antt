-- ===== src/Text/Bytes.antt =====
-- `text.as_bytes()`: the UTF-8 of a text.
use Prim.Native.Char.{Char, code, len_utf8, len_utf8_def}
use Prim.Native.String.{len}
use Prim.Native.String.len
use gum.Prelude.Lists.{length, length-append}
use text.Mathlib.TextEquality.{codes_equal}
use gum.Prelude.{
  ℕ, ◌+◌, ◌/◌, ◌%◌, ◌≡◌, ◌∙◌, refl, List, [], ◌∷◌, ◌++◌, String, arith, ltb, if◌then◌else◌,
}

-- The bytes of a character in UTF-8.
unfoldable pub utf8 : ℕ → List ℕ
utf8 c =
    if ltb c 0x80
    then c ∷ []
    else if ltb c 0x800
    then (0xC0 + c / 64) ∷ (0x80 + c % 64) ∷ []
    else if ltb c 0x10000
    then (0xE0 + c / 4096) ∷ (0x80 + c / 64 % 64) ∷ (0x80 + c % 64) ∷ []
    else (0xF0 + c / 262144) ∷ (0x80 + c / 4096 % 64) ∷ (0x80 + c / 64 % 64) ∷ (0x80 + c % 64) ∷ []

unfoldable pub as_bytes : String → List ℕ
unfolding utf8
as_bytes String.[] = []
as_bytes (String.◌∷◌ c s) = utf8 (code c) ++ as_bytes s

utf8-prefix : (c d : ℕ) (xs ys : List ℕ) → utf8 c ++ xs ≡ utf8 d ++ ys → (c ≡ d) × (xs ≡ ys)
unfolding utf8
utf8-prefix c d xs ys h = ground arith

pub code_inj : (c d : Char) → code c ≡ code d → c ≡ d
code_inj c d h = codes_equal c d (ground arith)

-- Two texts with the same bytes are the same.
pub as_bytes_inj : (s t : String) → as_bytes s ≡ as_bytes t → s ≡ t
unfolding as_bytes utf8
as_bytes_inj String.[] String.[] h = refl
as_bytes_inj String.[] (String.◌∷◌ d t) h = ground arith
as_bytes_inj (String.◌∷◌ c s) String.[] h = ground arith
as_bytes_inj (String.◌∷◌ c s) (String.◌∷◌ d t) h =
    let (here, rest) = utf8-prefix (code c) (code d) (as_bytes s) (as_bytes t) h in
    λ i. String.◌∷◌ (code_inj c d here i) (as_bytes_inj s t rest i)

length-utf8 : (c : Char) → len_utf8 c ≡ length (utf8 (code c))
unfolding utf8
length-utf8 c = rw (len_utf8_def c) (ground arith)

-- `len` counts the bytes.
pub len_lem : (s : String) → len s ≡ length (as_bytes s)
unfolding as_bytes
len_lem String.[] = len.nil
len_lem (String.◌∷◌ c s) =
    len.cons c s
    ∙ omega (arith, length-utf8 c, len_lem s, length-append (utf8 (code c)) (as_bytes s))
