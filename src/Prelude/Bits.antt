-- ===== src/Prelude/Bits.antt =====
-- `|` and `^` of two numbers: when they give zero, and two nibbles joined to a byte.
use Prim.Native.Nat.{
  ℕ, zero, suc, ◌+◌, ◌*◌, ◌<◌, ◌/◌, ◌%◌, ◌≤◌, max, bit_or, bit_or-bitwise, bit_xor, bit_xor-bitwise,
  digits, differ,
}
use mathlib.Core.Path.{◌≡◌, refl, ◌∙◌, sym}
use native.Mathlib.Omega.{arith}

differ-zero : (x y : ℕ) → differ x y ≡ 0 → x ≡ y
differ-zero zero y h = sym h
differ-zero (suc x) zero h = h
differ-zero (suc x) (suc y) h = omega (arith, differ-zero x y h)

differ_self : (x : ℕ) → differ x x ≡ 0
differ_self zero = refl
differ_self (suc x) = differ_self x

or_digits-zero : (n a b : ℕ) → a ≤ n → digits (λ c. c) max n a b ≡ 0 → (a ≡ 0) × (b ≡ 0)
or_digits-zero zero a b h e = (omega arith, e)
or_digits-zero (suc n) zero b h e = (refl, e)
or_digits-zero (suc n) (suc a) b h e =
    let (low, high) = or_digits-zero n (suc a / 2) (b / 2) (omega arith) (omega arith) in
    omega arith

xor_digits-zero : (n a b : ℕ) → a ≤ n → digits (λ c. c) differ n a b ≡ 0 → a ≡ b
xor_digits-zero zero a b h e = omega arith
xor_digits-zero (suc n) zero b h e = sym e
xor_digits-zero (suc n) (suc a) b h e =
    let high = xor_digits-zero n (suc a / 2) (b / 2) (omega arith) (omega arith) in
    let low = differ-zero (suc a % 2) (b % 2) (omega arith) in omega arith

xor_digits_self : (n a : ℕ) → a ≤ n → digits (λ c. c) differ n a a ≡ 0
xor_digits_self zero a h = omega arith
xor_digits_self (suc n) zero h = refl
xor_digits_self (suc n) (suc a) h =
    omega (arith, xor_digits_self n (suc a / 2) (omega arith), differ_self (suc a % 2))

pub bit_or-zero : (a b : ℕ) → bit_or a b ≡ 0 → (a ≡ 0) × (b ≡ 0)
bit_or-zero a b e = or_digits-zero a a b (omega arith) (sym (bit_or-bitwise a b) ∙ e)

pub bit_xor-zero : (a b : ℕ) → bit_xor a b ≡ 0 → a ≡ b
bit_xor-zero a b e = xor_digits-zero a a b (omega arith) (sym (bit_xor-bitwise a b) ∙ e)

pub bit_xor_self : (a : ℕ) → bit_xor a a ≡ 0
bit_xor_self a = bit_xor-bitwise a a ∙ xor_digits_self a a (omega arith)

or_digits-right : (n a : ℕ) → a ≤ n → digits (λ c. c) max n a 0 ≡ a
or_digits-right zero a h = omega arith
or_digits-right (suc n) zero h = refl
or_digits-right (suc n) (suc a) h = omega (arith, or_digits-right n (suc a / 2) (omega arith))

-- a shifted left by a number of bits
abbrev shifted : ℕ → ℕ → ℕ
shifted zero a = a
shifted (suc k) a = shifted k a * 2

or_digits-shifted :
    (k n a h b : ℕ) → a ≤ n → a ≡ shifted k h → b < shifted k 1 → digits (λ c. c) max n a b ≡ a + b
or_digits-shifted zero n a h b bound e less =
    let none_set : b ≡ 0 = omega arith in rw none_set (or_digits-right n a bound ∙ omega arith)
or_digits-shifted (suc k) zero a h b bound e less = omega arith
or_digits-shifted (suc k) (suc n) zero h b bound e less = omega arith
or_digits-shifted (suc k) (suc n) (suc a) h b bound e less =
    omega
      (arith, or_digits-shifted k n (suc a / 2) h (b / 2) (omega arith) (omega arith) (omega arith))

-- `(hi << 4) | lo`, of two nibbles
pub bit_or-nibbles : (hi lo : ℕ) → lo < 16 → bit_or (hi * 16) lo ≡ hi * 16 + lo
bit_or-nibbles hi lo h =
    bit_or-bitwise (hi * 16) lo
    ∙ or_digits-shifted 4 (hi * 16) (hi * 16) hi lo (omega arith) (omega arith) (omega arith)
