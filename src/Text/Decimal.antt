-- ===== src/Text/Decimal.antt =====
-- `format!("{n}")` of an unsigned number, and `str::parse` back into one. `parse` takes the largest
-- value of the target type, and accepts a sign `+`, as Rust's does.
use Prim.Native.Char.{Char, code}
use gum.Prelude.Int.{ℤ, pos, negsuc}
use gum.Prelude.{
  ℕ, zero, suc, ◌+◌, ◌-◌, ◌*◌, ◌/◌, ◌%◌, ◌^◌, ◌≤◌, ◌<◌, ◌≡◌, refl, ◌||◌, Option, none, some, String,
  arith, ltb, ◌==◌, if◌then◌else◌, sym, ◌∙◌, ap, inl, inr, Bool-cases,
}

abbrev pub digit_char : ℕ → Char
digit_char d =
    if d == 0
    then "0"
    else if d == 1
    then "1"
    else if d == 2
    then "2"
    else if d == 3
    then "3"
    else if d == 4
    then "4"
    else if d == 5
    then "5"
    else if d == 6
    then "6"
    else if d == 7
    then "7"
    else if d == 8
    then "8"
    else "9"

-- A number has at most as many digits as its value, so `n` rounds are enough for `n`.
emit : ℕ → ℕ → String → String
emit zero n out = out
emit (suc fuel) n out =
    let rest = emit fuel (n / 10) (String.◌∷◌ (digit_char (n % 10)) out) in
    if n == 0 then out else rest

unfoldable pub format : ℕ → String
unfolding emit
format n = if n == 0 then "0" else emit n n ""

-- `checked_mul(10)` and `checked_add(d)` fail where the exact value passes the largest one.
unfoldable pub scan : ℕ → ℕ → String → Option ℕ
scan largest n String.[] = some n
scan largest n (String.◌∷◌ c s) =
    let value = n * 10 + (code c - b'0') in
    let rest = scan largest value s in
    if ltb (code c) b'0' || ltb b'9' (code c)
    then none
    else if ltb largest value
    then none
    else rest

scan_digits : ℕ → String → Option ℕ
scan_digits largest String.[] = none
scan_digits largest (String.◌∷◌ c s) = scan largest 0 (String.◌∷◌ c s)

unfoldable pub parse : ℕ → String → Option ℕ
unfolding scan scan_digits
parse largest String.[] = none
parse largest (String.◌∷◌ c s) =
    if code c == b'+' then scan_digits largest s else scan largest 0 (String.◌∷◌ c s)

-- `text.parse::<i64>()`
negated : ℕ → ℤ
negated zero = pos 0
negated (suc n) = negsuc n

sign : (ℕ → ℤ) → Option ℕ → Option ℤ
sign f none = none
sign f (some n) = some (f n)

unfoldable pub parse_i64 : String → Option ℤ
unfolding parse negated sign
parse_i64 String.[] = none
parse_i64 (String.◌∷◌ c s) =
    if code c == b'-'
    then sign negated (scan_digits (2 ^ 63) s)
    else sign pos (parse (2 ^ 63 - 1) (String.◌∷◌ c s))

parses_i64 : parse_i64 "-12" ≡ some (negsuc 11)
unfolding parse_i64
parses_i64 = refl

parses : (parse 255 "0042" ≡ some 42) × (parse 255 "256" ≡ none) × (parse 255 "+" ≡ none)
unfolding parse
parses = (refl, refl, refl)

formats : format 4207 ≡ "4207"
unfolding format
formats = refl

code-digit_char : (d : ℕ) → d < 10 → code (digit_char d) ≡ b'0' + d
code-digit_char zero h = refl
code-digit_char (suc zero) h = refl
code-digit_char (suc (suc zero)) h = refl
code-digit_char (suc (suc (suc zero))) h = refl
code-digit_char (suc (suc (suc (suc zero)))) h = refl
code-digit_char (suc (suc (suc (suc (suc zero))))) h = refl
code-digit_char (suc (suc (suc (suc (suc (suc zero)))))) h = refl
code-digit_char (suc (suc (suc (suc (suc (suc (suc zero))))))) h = refl
code-digit_char (suc (suc (suc (suc (suc (suc (suc (suc zero)))))))) h = refl
code-digit_char (suc (suc (suc (suc (suc (suc (suc (suc (suc zero))))))))) h = refl
code-digit_char (suc (suc (suc (suc (suc (suc (suc (suc (suc (suc n)))))))))) h =
    absurd (omega arith)

-- One digit of a scan.
scan_step : ℕ → ℕ → ℕ → Option ℕ → Option ℕ
scan_step largest code value rest =
    if ltb code b'0' || ltb b'9' code then none else if ltb largest value then none else rest

scan-cons :
    (largest n : ℕ) (c : Char) (s : String)
    → scan largest n (String.◌∷◌ c s)
      ≡ scan_step largest
          (code c)
          (n * 10 + (code c - b'0'))
          (scan largest (n * 10 + (code c - b'0')) s)
unfolding scan scan_step
scan-cons largest n c s = refl

scan_step_digit :
    (largest d value : ℕ) (rest : Option ℕ)
    → d < 10
    → value ≤ largest
    → scan_step largest (b'0' + d) value rest ≡ rest
unfolding scan_step
scan_step_digit largest d value rest h fits = ground arith

scan_last :
    (largest n : ℕ) (out : String)
    → n ≤ largest
    → scan largest (n / 10) (String.◌∷◌ (digit_char (n % 10)) out) ≡ scan largest n out
scan_last largest n out h =
    let value : n / 10 * 10 + (b'0' + n % 10 - b'0') ≡ n = omega arith in
    rw (scan-cons largest (n / 10) (digit_char (n % 10)) out) (
      rw (code-digit_char (n % 10) (omega arith))
        (rw value (scan_step_digit largest (n % 10) n (scan largest n out) (omega arith) h)))

scan-emit :
    (fuel largest n : ℕ) (out : String)
    → n ≤ fuel
    → n ≤ largest
    → scan largest 0 (emit fuel n out) ≡ scan largest n out
unfolding emit
scan-emit zero largest n out h fits =
    let none_left : n ≡ 0 = omega arith in ap (λ m. scan largest m out) (sym none_left)
scan-emit (suc fuel) largest n out h fits = elim (Bool-cases (n == 0)) [
  | inl done ↦
      let none_left : n ≡ 0 = ground arith in rw done (ap (λ m. scan largest m out) (sym none_left))
  | inr more ↦ rw more (
      scan-emit fuel largest (n / 10) (String.◌∷◌ (digit_char (n % 10)) out) (ground arith)
        (omega arith)
      ∙ scan_last largest n out fits)
]

scan-format : (largest n : ℕ) → n ≤ largest → scan largest 0 (format n) ≡ some n
unfolding format scan
scan-format largest n h = elim (Bool-cases (n == 0)) [
  | inl zero_value ↦ rw zero_value (ground arith)
  | inr more ↦ rw more (scan-emit n largest n "" (omega arith) h)
]

-- Two numbers with one print are equal.
pub format_inj : (m n : ℕ) → format m ≡ format n → m ≡ n
format_inj m n e =
    ground (arith, scan-format (m + n) m, scan-format (m + n) n, ap (scan (m + n) 0) e)
