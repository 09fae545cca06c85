-- ===== src/Prelude/Int.antt =====
-- Signed integers, and the 64-bit arithmetic that the program does on times in milliseconds.
-- `+` wraps (the workspace sets no `overflow-checks`), `saturating_add` and the like clamp.
use Prim.Native.Nat.{ℕ, suc, ◌+◌, ◌-◌, ◌*◌, ◌^◌, ◌%◌, ◌≤◌}
use mathlib.Core.Path.{◌≡◌, refl}
use mathlib.Core.Bool.{Bool}
use native.Mathlib.Omega.{arith}
use gum.Prelude.Tests.{ltb, leb, ◌==◌, if◌then◌else◌}

-- `negsuc n` is -(n + 1).
pub data ℤ : Type 0 where
  pos : ℕ → ℤ
  negsuc : ℕ → ℤ

abbrev pub pos_part : ℤ → ℕ
pos_part (pos n) = n
pos_part (negsuc n) = 0

abbrev pub neg_part : ℤ → ℕ
neg_part (pos n) = 0
neg_part (negsuc n) = suc n

-- a - b, as an integer.
abbrev pub sub_ℕ : ℕ → ℕ → ℤ
sub_ℕ a b = if leb b a then pos (a - b) else negsuc (b - a - 1)

infixl 65 ◌+ℤ◌ ◌-ℤ◌
infix 50 ◌≤ℤ◌
unfoldable pub ◌+ℤ◌ : ℤ → ℤ → ℤ
a +ℤ b = sub_ℕ (pos_part a + pos_part b) (neg_part a + neg_part b)

unfoldable pub ◌-ℤ◌ : ℤ → ℤ → ℤ
a -ℤ b = sub_ℕ (pos_part a + neg_part b) (neg_part a + pos_part b)

abbrev pub ◌≤ℤ◌ : ℤ → ℤ → Type 0
a ≤ℤ b = pos_part a + neg_part b ≤ pos_part b + neg_part a

abbrev pub ltb_ℤ : ℤ → ℤ → Bool
ltb_ℤ a b = ltb (pos_part a + neg_part b) (pos_part b + neg_part a)

abbrev pub leb_ℤ : ℤ → ℤ → Bool
leb_ℤ a b = leb (pos_part a + neg_part b) (pos_part b + neg_part a)

abbrev pub eqb_ℤ : ℤ → ℤ → Bool
eqb_ℤ a b = (pos_part a + neg_part b) == (pos_part b + neg_part a)

pub +ℤ_parts :
    (a b : ℤ)
    → pos_part (a +ℤ b) + neg_part a + neg_part b ≡ neg_part (a +ℤ b) + pos_part a + pos_part b
unfolding ◌+ℤ◌
+ℤ_parts a b = ground arith

pub -ℤ_parts :
    (a b : ℤ)
    → pos_part (a -ℤ b) + neg_part a + pos_part b ≡ neg_part (a -ℤ b) + pos_part a + neg_part b
unfolding ◌-ℤ◌
-ℤ_parts a b = ground arith

pub eq_of_parts : (a b : ℤ) → pos_part a + neg_part b ≡ pos_part b + neg_part a → a ≡ b
eq_of_parts a b h = ground arith

-- i64::MAX
abbrev pub max_i64 : ℕ
max_i64 = 2 ^ 63 - 1

-- The integer of the range of i64 that is congruent to `a` modulo 2 ^ 64.
unfoldable pub wrap_i64 : ℤ → ℤ
wrap_i64 (pos n) = let m = n % 2 ^ 64 in if leb m max_i64 then pos m else negsuc (2 ^ 64 - m - 1)
wrap_i64 (negsuc n) = let m = n % 2 ^ 64 in if leb m max_i64 then negsuc m else pos (2 ^ 64 - m - 1)

-- The nearest integer in the range of i64.
unfoldable pub clamp_i64 : ℤ → ℤ
clamp_i64 (pos n) = if leb n max_i64 then pos n else pos max_i64
clamp_i64 (negsuc n) = if leb n max_i64 then negsuc n else negsuc max_i64

-- a + b
unfoldable pub add_i64 : ℤ → ℤ → ℤ
add_i64 a b = wrap_i64 (a +ℤ b)

-- a.saturating_add(b)
unfoldable pub saturating_add : ℤ → ℤ → ℤ
saturating_add a b = clamp_i64 (a +ℤ b)

-- a.saturating_sub(b)
unfoldable pub saturating_sub : ℤ → ℤ → ℤ
saturating_sub a b = clamp_i64 (a -ℤ b)

-- (secs as i64) * 1000, of a u64 number of seconds
unfoldable pub secs_to_ms : ℕ → ℤ
secs_to_ms secs = wrap_i64 (pos (secs * 1000))

-- The same over i32, for the scores.
unfoldable pub wrap_i32 : ℤ → ℤ
wrap_i32 (pos n) =
    let m = n % 2 ^ 32 in if leb m (2 ^ 31 - 1) then pos m else negsuc (2 ^ 32 - m - 1)
wrap_i32 (negsuc n) =
    let m = n % 2 ^ 32 in if leb m (2 ^ 31 - 1) then negsuc m else pos (2 ^ 32 - m - 1)

unfoldable pub clamp_i32 : ℤ → ℤ
clamp_i32 (pos n) = if leb n (2 ^ 31 - 1) then pos n else pos (2 ^ 31 - 1)
clamp_i32 (negsuc n) = if leb n (2 ^ 31 - 1) then negsuc n else negsuc (2 ^ 31 - 1)

-- value.clamp(0, top)
unfoldable pub clamp_to : ℕ → ℤ → ℤ
clamp_to top (pos n) = if leb n top then pos n else pos top
clamp_to top (negsuc n) = pos 0

pub saturating_add_lem : (a b : ℕ) → a + b ≤ max_i64 → saturating_add (pos a) (pos b) ≡ pos (a + b)
unfolding saturating_add clamp_i64 ◌+ℤ◌
saturating_add_lem a b h = ground arith

pub add_i64_lem : (a b : ℕ) → a + b ≤ max_i64 → add_i64 (pos a) (pos b) ≡ pos (a + b)
unfolding add_i64 wrap_i64 ◌+ℤ◌
add_i64_lem a b h = ground arith

pub secs_to_ms_lem : (s : ℕ) → s * 1000 ≤ max_i64 → secs_to_ms s ≡ pos (s * 1000)
unfolding secs_to_ms wrap_i64
secs_to_ms_lem s h = ground arith

wraps : add_i64 (pos max_i64) (pos 1) ≡ negsuc max_i64
unfolding add_i64 wrap_i64 ◌+ℤ◌
wraps = refl
