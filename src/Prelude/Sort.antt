-- ===== src/Prelude/Sort.antt =====
-- `sort_by`, which is stable, and `truncate`.
use Prim.Native.Nat.{min, ℕ, zero, suc, ◌+◌}
use mathlib.Core.Path.{◌≡◌, refl}
use mathlib.Core.Logic.{inl, inr}
use mathlib.Core.Bool.{Bool, true, false}
use mathlib.Core.List.{List, [], ◌∷◌}
use native.Mathlib.Omega.{arith}
use gum.Prelude.Tests.{bit, Bool-cases, if◌then◌else◌}
use gum.Prelude.Lists.{length, take, All, count}

module _ {ℓ} {A : Type ℓ} where
  unfoldable pub insert_sorted : (A → A → Bool) → A → List A → List A
  insert_sorted le x [] = x ∷ []
  insert_sorted le x (y ∷ ys) =
      let rest = insert_sorted le x ys in if le x y then x ∷ y ∷ ys else y ∷ rest

  unfoldable pub sort_by : (A → A → Bool) → List A → List A
  unfolding insert_sorted
  sort_by le [] = []
  sort_by le (x ∷ xs) = insert_sorted le x (sort_by le xs)

  unfoldable pub drop : ℕ → List A → List A
  drop zero xs = xs
  drop (suc n) [] = []
  drop (suc n) (x ∷ xs) = drop n xs

  -- Every member is related to those that come after it.
  abbrev pub Sorted : (A → A → Bool) → List A → Type ℓ
  Sorted le [] = Unit
  Sorted le (x ∷ xs) = All (λ y. le x y ≡ true) xs × Sorted le xs

  All-take {κ} : (P : A → Type κ) (n : ℕ) (xs : List A) → All P xs → All P (take n xs)
  All-take P zero xs h = tt
  All-take P (suc n) [] h = tt
  All-take P (suc n) (x ∷ xs) h = (h.0, All-take P n xs h.1)

  All-drop {κ} : (P : A → Type κ) (n : ℕ) (xs : List A) → All P xs → All P (drop n xs)
  unfolding drop
  All-drop P zero xs h = h
  All-drop P (suc n) [] h = tt
  All-drop P (suc n) (x ∷ xs) h = All-drop P n xs h.1

  All-insert_sorted {κ} :
      (le : A → A → Bool) (P : A → Type κ) (x : A) (xs : List A)
      → P x
      → All P xs
      → All P (insert_sorted le x xs)
  unfolding insert_sorted
  All-insert_sorted le P x [] p h = (p, tt)
  All-insert_sorted le P x (y ∷ ys) p h = elim (Bool-cases (le x y)) [
    | inl e ↦ rw (e, insert_sorted) (p, h)
    | inr e ↦ rw (e, insert_sorted) (h.0, All-insert_sorted le P x ys p h.1)
  ]

  pub All-sort_by {κ} :
      (le : A → A → Bool) (P : A → Type κ) (xs : List A) → All P xs → All P (sort_by le xs)
  unfolding sort_by
  All-sort_by le P [] h = tt
  All-sort_by le P (x ∷ xs) h =
      All-insert_sorted le P x (sort_by le xs) h.0 (All-sort_by le P xs h.1)

  -- In a sorted list the members that are taken come before those that are dropped.
  pub take-Sorted : (le : A → A → Bool) (n : ℕ) (xs : List A) → Sorted le xs → Sorted le (take n xs)
  take-Sorted le zero xs h = tt
  take-Sorted le (suc n) [] h = tt
  take-Sorted le (suc n) (x ∷ xs) h =
      (All-take (λ z. le x z ≡ true) n xs h.0, take-Sorted le n xs h.1)

  pub take_before_drop :
      (le : A → A → Bool) (n : ℕ) (xs : List A)
      → Sorted le xs
      → All (λ x. All (λ y. le x y ≡ true) (drop n xs)) (take n xs)
  unfolding drop
  take_before_drop le zero xs h = tt
  take_before_drop le (suc n) [] h = tt
  take_before_drop le (suc n) (x ∷ xs) h =
      (All-drop (λ z. le x z ≡ true) n xs h.0, take_before_drop le n xs h.1)

  module _ (le : A → A → Bool) (total : (x y : A) → le x y ≡ false → le y x ≡ true)
      (trans : (x y z : A) → le x y ≡ true → le y z ≡ true → le x z ≡ true) where
    All-trans :
        (x y : A) (xs : List A)
        → le x y ≡ true
        → All (λ z. le y z ≡ true) xs
        → All (λ z. le x z ≡ true) xs
    All-trans x y [] h t = tt
    All-trans x y (z ∷ zs) h t = (trans x y z h t.0, All-trans x y zs h t.1)

    insert_sorted-Sorted : (x : A) (xs : List A) → Sorted le xs → Sorted le (insert_sorted le x xs)
    unfolding insert_sorted
    insert_sorted-Sorted x [] h = (tt, tt)
    insert_sorted-Sorted x (y ∷ ys) h = elim (Bool-cases (le x y)) [
      | inl e ↦ rw (e, insert_sorted) ((e, All-trans x y ys e h.0), h)
      | inr e ↦
          rw (e, insert_sorted)
            (
              All-insert_sorted le (λ z. le y z ≡ true) x ys (total x y e) h.0,
              insert_sorted-Sorted x ys h.1,
            )
    ]

    pub sort_by-Sorted : (xs : List A) → Sorted le (sort_by le xs)
    unfolding sort_by
    sort_by-Sorted [] = tt
    sort_by-Sorted (x ∷ xs) = insert_sorted-Sorted x (sort_by le xs) (sort_by-Sorted xs)

  count-insert_sorted :
      (le : A → A → Bool) (p : A → Bool) (x : A) (xs : List A)
      → count p (insert_sorted le x xs) ≡ bit (p x) + count p xs
  unfolding insert_sorted count
  count-insert_sorted le p x [] = refl
  count-insert_sorted le p x (y ∷ ys) = ground (arith, count-insert_sorted le p x ys)

  pub count-sort_by :
      (le : A → A → Bool) (p : A → Bool) (xs : List A) → count p (sort_by le xs) ≡ count p xs
  unfolding sort_by count
  count-sort_by le p [] = refl
  count-sort_by le p (x ∷ xs) =
      ground (arith, count-insert_sorted le p x (sort_by le xs), count-sort_by le p xs)

  pub count-take-drop :
      (p : A → Bool) (n : ℕ) (xs : List A) → count p (take n xs) + count p (drop n xs) ≡ count p xs
  unfolding drop count
  count-take-drop p zero xs = omega arith
  count-take-drop p (suc n) [] = omega arith
  count-take-drop p (suc n) (x ∷ xs) = omega (arith, count-take-drop p n xs)

  length-insert_sorted :
      (le : A → A → Bool) (x : A) (xs : List A) → length (insert_sorted le x xs) ≡ suc (length xs)
  unfolding insert_sorted
  length-insert_sorted le x [] = refl
  length-insert_sorted le x (y ∷ ys) = ground (arith, length-insert_sorted le x ys)

  pub length-sort_by : (le : A → A → Bool) (xs : List A) → length (sort_by le xs) ≡ length xs
  unfolding sort_by
  length-sort_by le [] = refl
  length-sort_by le (x ∷ xs) =
      ground (arith, length-insert_sorted le x (sort_by le xs), length-sort_by le xs)

  pub length-take : (n : ℕ) (xs : List A) → length (take n xs) ≡ min n (length xs)
  length-take zero xs = ground arith
  length-take (suc n) [] = ground arith
  length-take (suc n) (x ∷ xs) = ground (arith, length-take n xs)
