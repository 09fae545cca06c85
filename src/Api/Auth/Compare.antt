-- ===== src/Api/Auth/Compare.antt =====
-- crates/gum-api/src/handlers.rs: `constant_time_eq`, which compares two keys byte by byte.
use Prim.Native.Nat.{max, bit_xor, bit_or}
use gum.Prelude.{
  ℕ, zero, suc, ◌+◌, ◌<◌, ◌≡◌, subst, ◌↔◌, refl, Bool, true, List, [], ◌∷◌, String, arith, ◌==◌,
}
use gum.Prelude.Bits.{bit_or-zero, bit_xor-zero, bit_xor_self}
use gum.Prelude.Lists.{length}
use gum.Text.Bytes.{as_bytes, as_bytes_inj}

-- `bytes.get(index).copied().unwrap_or(0)`
unfoldable pub byte_at : List ℕ → ℕ → ℕ
byte_at [] index = 0
byte_at (b ∷ bs) zero = b
byte_at (b ∷ bs) (suc index) = byte_at bs index

-- The rounds that are left of the loop, from an index on.
unfoldable pub rounds : List ℕ → List ℕ → ℕ → ℕ → ℕ → ℕ
unfolding byte_at
rounds left right zero index diff = diff
rounds left right (suc left_over) index diff =
    rounds left right left_over (suc index)
      (bit_or diff (bit_xor (byte_at left index) (byte_at right index)))

unfoldable pub constant_time_eq : String → String → Bool
unfolding rounds
constant_time_eq left right =
    let left_bytes = as_bytes left in
    let right_bytes = as_bytes right in
    let max_len = max (length left_bytes) (length right_bytes) in
    rounds left_bytes right_bytes max_len 0 (bit_xor (length left_bytes) (length right_bytes)) == 0

-- The difference stays zero only if it was, and no byte from the index on differs.
rounds-zero :
    (left right : List ℕ) (n index diff : ℕ)
    → rounds left right n index diff ≡ 0
    → (diff ≡ 0) × ((k : ℕ) → k < n → byte_at left (index + k) ≡ byte_at right (index + k))
unfolding rounds
rounds-zero left right zero index diff h = (h, λ k less. omega arith)
rounds-zero left right (suc n) index diff h =
    let (before, after) =
      rounds-zero left right n (suc index)
        (bit_or diff (bit_xor (byte_at left index) (byte_at right index))) h in
    let (old, here) =
      bit_or-zero diff (bit_xor (byte_at left index) (byte_at right index)) before in
    (old, same (bit_xor-zero (byte_at left index) (byte_at right index) here) after)
  where
    same :
        byte_at left index ≡ byte_at right index
        → ((k : ℕ) → k < n → byte_at left (suc index + k) ≡ byte_at right (suc index + k))
        → (k : ℕ) → k < suc n
        → byte_at left (index + k) ≡ byte_at right (index + k)
    same here after zero less = subst (λ i. byte_at left i ≡ byte_at right i) (omega arith) here
    same here after (suc k) less =
        subst (λ i. byte_at left i ≡ byte_at right i) (omega arith) (after k (omega arith))

rounds-same : (bytes : List ℕ) (n index : ℕ) → rounds bytes bytes n index 0 ≡ 0
unfolding rounds
rounds-same bytes zero index = refl
rounds-same bytes (suc n) index =
    rw (bit_xor_self (byte_at bytes index)) (rounds-same bytes n (suc index))

same_bytes :
    (left right : List ℕ)
    → length left ≡ length right
    → ((k : ℕ) → k < length left → byte_at left k ≡ byte_at right k)
    → left ≡ right
unfolding byte_at
same_bytes [] [] e h = refl
same_bytes [] (r ∷ rs) e h = ground arith
same_bytes (l ∷ ls) [] e h = ground arith
same_bytes (l ∷ ls) (r ∷ rs) e h =
    let here = h 0 (omega arith) in
    let rest = same_bytes ls rs (omega arith) (λ k less. h (suc k) (omega arith)) in cc

-- The comparison without an early exit tells exactly whether the two texts are the same.
pub constant_time_eq_iff :
    (left right : String) → (constant_time_eq left right ≡ true) ↔ (left ≡ right)
unfolding constant_time_eq
constant_time_eq_iff left right = (forward, backward)
  where
    forward : constant_time_eq left right ≡ true → left ≡ right
    forward h =
        let l = as_bytes left in
        let r = as_bytes right in
        let (lens, bytes) =
          rounds-zero l r (max (length l) (length r)) 0 (bit_xor (length l) (length r))
            (ground arith) in
        let long = bit_xor-zero (length l) (length r) lens in
        as_bytes_inj left right (
          same_bytes l r long (λ k less.
            subst (λ i. byte_at l i ≡ byte_at r i) (omega arith) (bytes k (omega arith))))

    backward : left ≡ right → constant_time_eq left right ≡ true
    backward h =
        rw
          (
            h,
            bit_xor_self (length (as_bytes right)),
            rounds-same (as_bytes right) (max (length (as_bytes right)) (length (as_bytes right)))
                0,
          )
          refl
