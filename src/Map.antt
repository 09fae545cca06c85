-- ===== src/Map.antt =====
-- `std::collections::HashMap<String, V>` as an association list. The order of a HashMap's
-- iteration is unspecified; here it is the order of the list.
pub mod Keyed
use gum.Prelude.{
  ℕ, ◌+◌, ◌≤◌, ◌≡◌, refl, inl, inr, Bool, true, Option, none, some, List, [], ◌∷◌, String, str_eq,
  eq_iff, arith, if◌then◌else◌, is_some, bit, Bool-cases, ap, subst,
}
use gum.Prelude.Lists.{count, All}

abbrev pub Map {ℓ} : Type ℓ → Type ℓ
Map V = List (String × V)

module _ {ℓ} {V : Type ℓ} where
  -- `m.get(k).cloned()`
  unfoldable pub get : String → Map V → Option V
  get k [] = none
  get k ((j, v) ∷ m) = if str_eq j k then some v else get k m

  -- `m.insert(k, v)`
  unfoldable pub insert : String → V → Map V → Map V
  insert k v [] = (k, v) ∷ []
  insert k v ((j, w) ∷ m) = if str_eq j k then (k, v) ∷ m else (j, w) ∷ insert k v m

  -- `m.remove(k)`
  unfoldable pub remove : String → Map V → Map V
  remove k [] = []
  remove k ((j, v) ∷ m) = let rest = remove k m in if str_eq j k then rest else (j, v) ∷ rest

  unfoldable pub write_back : String → (V → V) → Map V → Option V → Map V
  write_back k f m none = m
  write_back k f m (some v) = insert k (f v) m

  -- `if let Some(v) = m.get_mut(k) { *v = f(*v) }`
  unfoldable pub modify : String → (V → V) → Map V → Map V
  unfolding write_back
  modify k f m = write_back k f m (get k m)

  -- `m.contains_key(k)`
  abbrev pub contains_key : String → Map V → Bool
  contains_key k m = is_some (get k m)

  -- `m.values()`
  unfoldable pub values : Map V → List V
  values [] = []
  values ((k, v) ∷ m) = v ∷ values m

  pub get-empty : (k : String) → get k [] ≡ none
  unfolding get
  get-empty k = refl

  pub get-insert :
      (k j : String) (v : V) (m : Map V)
      → get j (insert k v m) ≡ (if str_eq k j then some v else get j m)
  unfolding get insert
  get-insert k j v [] = refl
  get-insert k j v ((i, w) ∷ m) =
      ground (arith, eq_iff k j, eq_iff i k, eq_iff i j, get-insert k j v m)

  pub get-remove :
      (k j : String) (m : Map V) → get j (remove k m) ≡ (if str_eq k j then none else get j m)
  unfolding get remove
  get-remove k j [] = ground arith
  get-remove k j ((i, w) ∷ m) = ground (arith, eq_iff k j, eq_iff i k, eq_iff i j, get-remove k j m)

  pub modify-some :
      (k : String) (f : V → V) (m : Map V) {v : V}
      → get k m ≡ some v
      → modify k f m ≡ insert k (f v) m
  unfolding modify
  modify-some k f m h = ap (write_back k f m) h

  pub modify-none : (k : String) (f : V → V) (m : Map V) → get k m ≡ none → modify k f m ≡ m
  unfolding modify
  modify-none k f m h = ap (write_back k f m) h

  abbrev mapped : (V → V) → Option V → Option V
  mapped f none = none
  mapped f (some v) = some (f v)

  get-write_back :
      (k j : String) (f : V → V) (m : Map V) (o : Option V)
      → get k m ≡ o
      → get j (write_back k f m o) ≡ (if str_eq k j then mapped f (get j m) else get j m)
  unfolding write_back
  get-write_back k j f m none h = ground (arith, eq_iff k j)
  get-write_back k j f m (some v) h = ground (arith, eq_iff k j, get-insert k j (f v) m)

  pub get-modify :
      (k j : String) (f : V → V) (m : Map V)
      → get j (modify k f m) ≡ (if str_eq k j then mapped f (get j m) else get j m)
  unfolding modify
  get-modify k j f m = get-write_back k j f m (get k m) refl

  -- What a test counts of the values is what it counted, less the value that the key had, and
  -- the new value.
  abbrev pub bit_of : (V → Bool) → Option V → ℕ
  bit_of p none = 0
  bit_of p (some v) = bit (p v)

  pub count-insert :
      (p : V → Bool) (k : String) (v : V) (m : Map V)
      → count p (values (insert k v m)) + bit_of p (get k m) ≡ count p (values m) + bit (p v)
  unfolding get insert values count
  count-insert p k v [] = ground arith
  count-insert p k v ((j, w) ∷ m) = ground (arith, count-insert p k v m)

  -- A value that is found is counted.
  pub count-pos :
      (p : V → Bool) (k : String) (m : Map V) {v : V}
      → get k m ≡ some v
      → p v ≡ true
      → 1 ≤ count p (values m)
  unfolding get values count
  count-pos p k [] e h = cc
  count-pos p k ((j, w) ∷ m) {v = v} e h = ground (arith, count-pos p k m {v = v})

  pub count-modify :
      (p : V → Bool) (k : String) (f : V → V) (m : Map V) {v : V}
      → get k m ≡ some v
      → count p (values (modify k f m)) + bit (p v) ≡ count p (values m) + bit (p (f v))
  count-modify p k f m {v = v} h = ground (arith, modify-some k f m h, count-insert p k (f v) m)

module _ {ℓ κ} {V : Type ℓ} (P : V → Type κ) where
  pub All-insert :
      (k : String) (v : V) (m : Map V) → All P (values m) → P v → All P (values (insert k v m))
  unfolding insert values
  All-insert k v [] h p = (p, tt)
  All-insert k v ((j, w) ∷ m) h p = elim (Bool-cases (str_eq j k)) [
    | inl e ↦ rw (e, values) (p, h.1)
    | inr e ↦ rw (e, values) (h.0, All-insert k v m h.1 p)
  ]

  pub All-get : (k : String) (m : Map V) {v : V} → All P (values m) → get k m ≡ some v → P v
  unfolding get values
  All-get k [] h e = cc
  All-get k ((j, w) ∷ m) {v} h e = elim (Bool-cases (str_eq j k)) [
    | inl t ↦ let same : w ≡ v = ground arith in subst P same h.0
    | inr t ↦ All-get k m h.1 (rw t at e)
  ]
