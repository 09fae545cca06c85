-- ===== src/Map/Keyed.antt =====
-- Maps whose records hold their own key, such as `runs.insert(run.id.clone(), run)`.
use gum.Prelude.{◌≡◌, inl, inr, none, some, [], ◌∷◌, String, str_eq, eq_iff, arith, Bool-cases}
use gum.Prelude.Lists.{All, All-map}
use gum.Map.{Map, get, insert, values, get-insert, get-empty}

module _ {ℓ} {V : Type ℓ} (id : V → String) where
  -- Every record stands under its own key, and no key stands twice.
  abbrev pub Keyed : Map V → Type ℓ
  Keyed [] = Unit
  Keyed ((k, v) ∷ m) = (k ≡ id v) × (get k m ≡ none) × Keyed m

  pub insert-Keyed : (k : String) (v : V) (m : Map V) → k ≡ id v → Keyed m → Keyed (insert k v m)
  unfolding insert
  insert-Keyed k v [] e h = (e, get-empty k, tt)
  insert-Keyed k v ((j, w) ∷ m) e (jw, fresh, rest) = elim (Bool-cases (str_eq j k)) [
    | inl t ↦ rw (t, insert) (e, ground (arith, eq_iff j k), rest)
    | inr t ↦
        rw (t, insert)
          (
            jw,
            ground (arith, get-insert k j v m, eq_iff j k, eq_iff k j),
            insert-Keyed k v m e rest,
          )
  ]

  pub get-Keyed : (k : String) (m : Map V) {v : V} → Keyed m → get k m ≡ some v → id v ≡ k
  unfolding get
  get-Keyed k [] h e = cc
  get-Keyed k ((j, w) ∷ m) {v} (jw, fresh, rest) e = elim (Bool-cases (str_eq j k)) [
    | inl t ↦ ground (arith, eq_iff j k)
    | inr t ↦ get-Keyed k m rest (ground arith)
  ]

  -- What an iteration over the values yields is what a lookup by its key finds.
  pub values-Keyed : (m : Map V) → Keyed m → All (λ v. get (id v) m ≡ some v) (values m)
  unfolding get values
  values-Keyed [] h = tt
  values-Keyed ((k, v) ∷ m) (kv, fresh, rest) = (
    ground (arith, eq_iff k (id v)),
    All-map (λ w. get (id w) m ≡ some w) (λ w. get (id w) ((k, v) ∷ m) ≡ some w) (values m)
        (λ w e. ground (arith, eq_iff k (id w))) (values-Keyed m rest),
  )
