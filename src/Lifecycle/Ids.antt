-- ===== src/Lifecycle/Ids.antt =====
-- The identifiers that `next_id` of crates/gum-store/src/memory.rs makes, and which of them a map
-- holds.
use Prim.Native.String.{◌++◌ as append}
use text.Mathlib.TextLemmas.{append_cancel_left}
use gum.Prelude.{
  sym, ◌∙◌, ℕ, ◌+◌, ◌^◌, ◌≤◌, ◌<◌, ◌≡◌, none, some, String, str_eq, eq_iff, arith, Bool-cases, inl,
  inr,
}
use gum.Map.{Map, get, insert, get-insert}
use gum.Text.Decimal.{format, format_inj}
use gum.Store.{identifier, next_number}

-- Two identifiers with one prefix are equal only if their numbers are.
pub identifier_inj : (prefix : String) (m n : ℕ) → identifier prefix m ≡ identifier prefix n → m ≡ n
unfolding identifier
identifier_inj prefix m n e = format_inj m n (
    append_cancel_left "_" (format m) (format n)
      (append_cancel_left prefix (append "_" (format m)) (append "_" (format n)) e))

pub next_number_lem : (ids : ℕ) → ids + 1 < 2 ^ 64 → next_number ids ≡ ids + 1
unfolding next_number
next_number_lem ids h = omega arith

module _ {V : Type 0} where
  -- No key of the map has a number above `ids`.
  abbrev pub FreshAbove : String → ℕ → Map V → Type 0
  FreshAbove prefix ids m = (n : ℕ) → ids < n → get (identifier prefix n) m ≡ none

  -- An insert under an identifier with the number `k`.
  pub insert-FreshAbove :
      (prefix key : String) (ids k : ℕ) (v : V) (m : Map V)
      → key ≡ identifier prefix k
      → ids ≤ k
      → FreshAbove prefix ids m
      → FreshAbove prefix k (insert key v m)
  insert-FreshAbove prefix key ids k v m named le h n above =
      elim (Bool-cases (str_eq key (identifier prefix n))) [
        | inl same ↦
            let equal = identifier_inj prefix k n (sym named ∙ (eq_iff _ _).0 same) in
            absurd (omega arith)
        | inr other ↦ ground (arith, h n, get-insert key (identifier prefix n) v m)
      ]

  -- A write under a key that is there.
  pub write-FreshAbove :
      (prefix : String) (ids : ℕ) (key : String) (v v' : V) (m : Map V)
      → get key m ≡ some v
      → FreshAbove prefix ids m
      → FreshAbove prefix ids (insert key v' m)
  write-FreshAbove prefix ids key v v' m found h n above =
      ground
        (arith, h n, eq_iff key (identifier prefix n), get-insert key (identifier prefix n) v' m)

  pub later-FreshAbove :
      (prefix : String) (ids k : ℕ) (m : Map V)
      → ids ≤ k
      → FreshAbove prefix ids m
      → FreshAbove prefix k m
  later-FreshAbove prefix ids k m le h n above = h n (omega arith)
