-- ===== src/Api/Secrets/Hex.antt =====
-- crates/gum-api/src/secret_store.rs: a master key written in hexadecimal.
use Prim.Native.Char.{Char, code}
use gum.Prelude.{
  ℕ, zero, suc, ◌-◌, subst, ap, true, ◌&&◌, inl, inr, Bool-cases, ltb, ◌+◌, ◌*◌, ◌/◌, ◌%◌, ◌<◌, ◌≡◌,
  refl, Bool, some, List, [], ◌∷◌, String, arith, ◌==◌, if◌then◌else◌,
}
use gum.Prelude.Bits.{bit_or-nibbles}
use gum.Prelude.Lists.{length, All}
use gum.Text.Bytes.{as_bytes, utf8, len_lem}
use gum.Api.Secrets.MasterKey.{hex_nibble, decode_pairs, decode_hex_32}

-- The digit of a nibble.
abbrev hex_char : ℕ → Char
hex_char d =
    if d == 0
    then "0"
    else if d == 1
    then "1"
    else if d == 2
    then "2"
    else if d == 3
    then "3"
    else if d == 4
    then "4"
    else if d == 5
    then "5"
    else if d == 6
    then "6"
    else if d == 7
    then "7"
    else if d == 8
    then "8"
    else if d == 9
    then "9"
    else if d == 10
    then "a"
    else if d == 11
    then "b"
    else if d == 12
    then "c"
    else if d == 13
    then "d"
    else if d == 14
    then "e"
    else "f"

-- A key written as two digits for each byte.
unfoldable pub encode_hex : List ℕ → String
encode_hex [] = ""
encode_hex (b ∷ bs) =
    String.◌∷◌ (hex_char (b / 16)) (String.◌∷◌ (hex_char (b % 16)) (encode_hex bs))

-- Each number below a bound passes the test.
each_below : ℕ → (ℕ → Bool) → Bool
each_below zero p = true
each_below (suc n) p = p n && each_below n p

each_below-at : (n : ℕ) (p : ℕ → Bool) → each_below n p ≡ true → (d : ℕ) → d < n → p d ≡ true
unfolding each_below
each_below-at zero p h d less = absurd (omega arith)
each_below-at (suc n) p h d less = elim (Bool-cases (d == n)) [
  | inl e ↦
      let same : n ≡ d = ground arith in
      let yes : p n ≡ true = ground arith in subst (λ m. p m ≡ true) same yes
  | inr e ↦ each_below-at n p (ground arith) d (ground arith)
]

-- The number of a digit, in ASCII.
abbrev hex_code : ℕ → ℕ
hex_code d = if ltb d 10 then b'0' + d else b'a' + (d - 10)

code-hex_char : (d : ℕ) → d < 16 → code (hex_char d) ≡ hex_code d
unfolding each_below
code-hex_char d h =
    let same = each_below-at 16 (λ d. code (hex_char d) == hex_code d) refl d h in ground arith

hex_nibble-hex_char : (d : ℕ) → d < 16 → hex_nibble (code (hex_char d)) ≡ some d
unfolding hex_nibble
hex_nibble-hex_char d h = rw (code-hex_char d h) (ground arith)

utf8-hex_char : (d : ℕ) → d < 16 → utf8 (code (hex_char d)) ≡ code (hex_char d) ∷ []
unfolding utf8
utf8-hex_char d h = rw (code-hex_char d h) (ground arith)

as_bytes-encode_hex :
    (b : ℕ) (bs : List ℕ)
    → b < 256
    → as_bytes (encode_hex (b ∷ bs))
      ≡ code (hex_char (b / 16)) ∷ code (hex_char (b % 16)) ∷ as_bytes (encode_hex bs)
unfolding as_bytes encode_hex
as_bytes-encode_hex b bs h =
    rw (utf8-hex_char (b / 16) (omega arith), utf8-hex_char (b % 16) (omega arith)) refl

decode_pairs-encode_hex :
    (bs : List ℕ) → All (λ b. b < 256) bs → decode_pairs (as_bytes (encode_hex bs)) ≡ some bs
unfolding decode_pairs encode_hex as_bytes
decode_pairs-encode_hex [] h = refl
decode_pairs-encode_hex (b ∷ bs) h =
    rw
      (
        utf8-hex_char (b / 16) (omega (arith, h.0)),
        utf8-hex_char (b % 16) (omega arith),
        hex_nibble-hex_char (b / 16) (omega (arith, h.0)),
        hex_nibble-hex_char (b % 16) (omega arith),
        decode_pairs-encode_hex bs h.1,
        bit_or-nibbles (b / 16) (b % 16) (omega arith),
      )
      (ap (λ n. some (n ∷ bs)) (omega arith))

length-encode_hex :
    (bs : List ℕ) → All (λ b. b < 256) bs → length (as_bytes (encode_hex bs)) ≡ 2 * length bs
unfolding encode_hex as_bytes
length-encode_hex [] h = refl
length-encode_hex (b ∷ bs) h =
    rw (utf8-hex_char (b / 16) (omega (arith, h.0)), utf8-hex_char (b % 16) (omega arith))
      (omega (arith, length-encode_hex bs h.1))

-- A key of 32 bytes that is written in hexadecimal is read back.
pub decode_hex_32-encode_hex :
    (bytes : List ℕ)
    → All (λ b. b < 256) bytes
    → length bytes ≡ 32
    → decode_hex_32 (encode_hex bytes) ≡ some bytes
unfolding decode_hex_32
decode_hex_32-encode_hex bytes h long =
    rw (len_lem (encode_hex bytes), length-encode_hex bytes h, long)
      (decode_pairs-encode_hex bytes h)
