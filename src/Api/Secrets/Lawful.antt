-- ===== src/Api/Secrets/Lawful.antt =====
-- crates/gum-api/src/secret_store.rs: `InMemorySecretStore` keeps the values of secrets.
use gum.Prelude.{
  ◌≡◌, ◌↔◌, refl, inl, inr, true, Option, none, some, [], ◌∷◌, String, eq_iff, arith, if◌then◌else◌,
  Option-cases,
}
use gum.Prelude.Int.{ℤ}
use gum.Types.{ok}
use gum.Api.Secrets.{ResolveSecretParams, SetSecretParams, same_secret, secret_of, IsLawful}
use gum.Api.Secrets.Memory.{
  InMemorySecretStore, StoredSecret, memory_secret_store, find_secret, insert_secret, remove_secret,
  set_secret, delete_secret, resolve_secret, mark_used,
}

same_secret_iff : (a b : ResolveSecretParams) → (same_secret a b ≡ true) ↔ (a ≡ b)
unfolding same_secret
same_secret_iff a b = ground (
  arith,
  eq_iff a.project_id b.project_id,
  eq_iff a.environment b.environment,
  eq_iff a.name b.name,
)

find-insert_secret :
    (k r : ResolveSecretParams) (v : StoredSecret) (s : InMemorySecretStore)
    → find_secret r (insert_secret k v s) ≡ (if same_secret k r then some v else find_secret r s)
unfolding find_secret insert_secret
find-insert_secret k r v [] = refl
find-insert_secret k r v ((o, w) ∷ s) = ground (
  arith,
  same_secret_iff k r,
  same_secret_iff o k,
  same_secret_iff o r,
  find-insert_secret k r v s,
)

find-remove_secret :
    (k r : ResolveSecretParams) (s : InMemorySecretStore)
    → find_secret r (remove_secret k s) ≡ (if same_secret k r then none else find_secret r s)
unfolding find_secret remove_secret
find-remove_secret k r [] = ground arith
find-remove_secret k r ((o, w) ∷ s) =
    ground (
      arith,
      same_secret_iff k r,
      same_secret_iff o k,
      same_secret_iff o r,
      find-remove_secret k r s,
    )

abbrev stored_value : Option StoredSecret → Option String
stored_value none = none
stored_value (some entry) = some entry.value

unfoldable pub memory_value : InMemorySecretStore → ResolveSecretParams → Option String
memory_value s q = stored_value (find_secret q s)

resolve-value :
    (s : InMemorySecretStore) (q : ResolveSecretParams) (now : ℤ)
    → (resolve_secret s q now).0 ≡ ok (memory_value s q)
unfolding resolve_secret memory_value
resolve-value s q now = ground arith

resolve-keeps :
    (s : InMemorySecretStore) (q r : ResolveSecretParams) (now : ℤ)
    → memory_value (resolve_secret s q now).1 r ≡ memory_value s r
unfolding resolve_secret memory_value
resolve-keeps s q r now = elim (Option-cases (find_secret q s)) [
  | inl gone ↦ ground arith
  | inr (entry, found) ↦
      ground (arith, find-insert_secret q r (mark_used entry now) s, same_secret_iff q r)
]

insert_value :
    (k r : ResolveSecretParams) (v : StoredSecret) (s : InMemorySecretStore)
    → memory_value (insert_secret k v s) r
      ≡ (if same_secret k r then some v.value else memory_value s r)
unfolding memory_value
insert_value k r v s = ground (arith, find-insert_secret k r v s)

set-value :
    (s : InMemorySecretStore) (params : SetSecretParams) (now : ℤ) (r : ResolveSecretParams)
    → memory_value (set_secret s params now).1 r
      ≡ (if same_secret (secret_of params) r then some params.value else memory_value s r)
unfolding set_secret memory_value
set-value s params now r =
    insert_value (secret_of params) r
      (record {
        value = params.value;
        metadata = record {
          project_id = params.project_id;
          environment = params.environment;
          name = params.name;
          backend = "memory";
          updated_at_epoch_ms = now;
          last_used_at_epoch_ms = none;
        };
      })
      s

delete-value :
    (s : InMemorySecretStore) (q r : ResolveSecretParams)
    → memory_value (delete_secret s q.project_id q.environment q.name).1 r
      ≡ (if same_secret q r then none else memory_value s r)
unfolding delete_secret memory_value
delete-value s q r = ground (arith, find-remove_secret q r s)

-- The store in memory is lawful: resolving a secret gives the value that was set last for its project,
-- environment and name, or none if it was deleted since or never set, and changes no value; setting
-- and deleting a secret leave the values of all others.
pub memory_secret_store-IsLawful : IsLawful memory_secret_store
unfolding memory_value delete_secret
memory_secret_store-IsLawful = record {
  value_of = memory_value;
  resolve_value = resolve-value;
  resolve_keeps = resolve-keeps;
  set_value = set-value;
  delete_value = delete-value;
  delete_result = λ s q. ground arith;
}
