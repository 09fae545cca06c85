-- ===== src/Prelude/Order.antt =====
-- The comparisons of `Ord`: of integers and texts, by a key, in reverse, and by a second key.
pub use Prim.Native.Nat.{Ordering}
use Prim.Native.Nat.{◌+◌, compare as compare_ℕ}
use Prim.Native.String.{String, compare as compare_text}
use Prim.Native.String.compare
use text.Mathlib.TextEquality.{path_by_compare}
use mathlib.Core.Path.{◌≡◌, refl, ap}
use mathlib.Core.Bool.{Bool, true, false}
use native.Mathlib.Omega.{arith}
use gum.Prelude.Int.{ℤ, pos_part, neg_part}

abbrev pub reverse : Ordering → Ordering
reverse Ordering.lt = Ordering.gt
reverse Ordering.eq = Ordering.eq
reverse Ordering.gt = Ordering.lt

-- `a.cmp(&b).then_with(|| c)`
abbrev pub then_with : Ordering → Ordering → Ordering
then_with Ordering.lt o = Ordering.lt
then_with Ordering.eq o = o
then_with Ordering.gt o = Ordering.gt

-- `left <= right`
abbrev pub not_after : Ordering → Bool
not_after Ordering.gt = false
not_after _ = true

abbrev pub cmp_ℤ : ℤ → ℤ → Ordering
cmp_ℤ a b = compare_ℕ (pos_part a + neg_part b) (pos_part b + neg_part a)

unfoldable pub cmp_text : String → String → Ordering
cmp_text s t = compare_text s t

-- What makes a comparison that of an order.
pub record IsOrder {ℓ} {A : Type ℓ} (cmp : A → A → Ordering) : Type ℓ where
  pub flip : (x y : A) → cmp y x ≡ reverse (cmp x y)
  pub same : (x y z : A) → cmp x y ≡ Ordering.eq → cmp x z ≡ cmp y z
  pub trans : (x y z : A) → cmp x y ≡ Ordering.lt → cmp y z ≡ Ordering.lt → cmp x z ≡ Ordering.lt

pub cmp_ℤ-IsOrder : IsOrder cmp_ℤ
cmp_ℤ-IsOrder = record {
  flip = λ x y. ground arith;
  same = λ x y z h. ground arith;
  trans = λ x y z h k. ground arith;
}

text_flip : (s t : String) → compare_text t s ≡ reverse (compare_text s t)
text_flip String.[] String.[] = rw compare.nil-nil refl
text_flip String.[] (String.◌∷◌ d t) = rw (compare.nil-cons d t, compare.cons-nil d t) refl
text_flip (String.◌∷◌ c s) String.[] = rw (compare.nil-cons c s, compare.cons-nil c s) refl
text_flip (String.◌∷◌ c s) (String.◌∷◌ d t) =
    rw (compare.cons-cons c d s t, compare.cons-cons d c t s) (ground (arith, text_flip s t))

text_trans :
    (s t u : String)
    → compare_text s t ≡ Ordering.lt
    → compare_text t u ≡ Ordering.lt
    → compare_text s u ≡ Ordering.lt
text_trans String.[] String.[] u h k = ground (arith, compare.nil-nil)
text_trans String.[] (String.◌∷◌ d t) String.[] h k = ground (arith, compare.cons-nil d t)
text_trans String.[] (String.◌∷◌ d t) (String.◌∷◌ e u) h k = compare.nil-cons e u
text_trans (String.◌∷◌ c s) String.[] u h k = ground (arith, compare.cons-nil c s)
text_trans (String.◌∷◌ c s) (String.◌∷◌ d t) String.[] h k = ground (arith, compare.cons-nil d t)
text_trans (String.◌∷◌ c s) (String.◌∷◌ d t) (String.◌∷◌ e u) h k = rw (compare.cons-cons c e s u) (
    ground (
      arith,
      text_trans s t u,
      compare.cons-cons c d s t,
      compare.cons-cons d e t u,
      path_by_compare s t,
    ))

pub cmp_text-IsOrder : IsOrder cmp_text
unfolding cmp_text
cmp_text-IsOrder = record {
  flip = text_flip;
  same = λ s t u h. ap (λ x. compare_text x u) (path_by_compare s t h);
  trans = text_trans;
}

module _ {ℓ} {A : Type ℓ} where
  pub reverse-IsOrder : {cmp : A → A → Ordering} → IsOrder cmp → IsOrder (λ x y. cmp y x)
  reverse-IsOrder {cmp} o = record {
    flip = λ x y. o.flip y x;
    same = λ x y z h. ground (arith, o.flip y z, o.flip x z, o.same x y z, o.flip y x);
    trans = λ x y z h k. o.trans z y x k h;
  }

  pub on-IsOrder {κ} :
      {B : Type κ} {cmp : B → B → Ordering}
      → IsOrder cmp
      → (f : A → B) → IsOrder (λ x y. cmp (f x) (f y))
  on-IsOrder o f = record {
    flip = λ x y. o.flip (f x) (f y);
    same = λ x y z. o.same (f x) (f y) (f z);
    trans = λ x y z. o.trans (f x) (f y) (f z);
  }

  pub then_with-IsOrder :
      {cmp next : A → A → Ordering}
      → IsOrder cmp
      → IsOrder next
      → IsOrder (λ x y. then_with (cmp x y) (next x y))
  then_with-IsOrder {cmp} {next} o p = record {
    flip = λ x y. ground (arith, o.flip x y, p.flip x y);
    same = λ x y z h. ground (arith, o.same x y z, p.same x y z);
    trans = λ x y z h k. ground (
      arith,
      o.same x y z,
      o.trans x y z,
      o.flip y z,
      o.flip x y,
      o.flip x z,
      o.same y z x,
      p.trans x y z,
    );
  }

  pub not_after-total :
      {cmp : A → A → Ordering}
      → IsOrder cmp
      → (x y : A) → not_after (cmp x y) ≡ false
      → not_after (cmp y x) ≡ true
  not_after-total o x y h = ground (arith, o.flip x y)

  pub not_after_trans :
      {cmp : A → A → Ordering}
      → IsOrder cmp
      → (x y z : A) → not_after (cmp x y) ≡ true
      → not_after (cmp y z) ≡ true
      → not_after (cmp x z) ≡ true
  not_after_trans o x y z h k =
      ground (arith, o.same x y z, o.trans x y z, o.same y z x, o.flip x y, o.flip x z, o.flip y z)
