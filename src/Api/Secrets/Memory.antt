-- ===== src/Api/Secrets/Memory.antt =====
-- crates/gum-api/src/secret_store.rs: `InMemorySecretStore`. The HashMap is an association list by
-- project, environment and name.
use gum.Prelude.{
  Bool, ◌&&◌, Option, none, some, List, [], ◌∷◌, String, str_eq, map, is_some, if◌then◌else◌,
}
use gum.Prelude.Int.{ℤ}
use gum.Prelude.Lists.{filter}
use gum.Prelude.Order.{not_after, cmp_text}
use gum.Prelude.Sort.{sort_by}
use gum.Types.{Result, ok}
use gum.Api.Secrets.{
  SecretMetadata, SetSecretParams, ResolveSecretParams, SecretStore, same_secret, secret_of,
}

-- `SecretKey` has the fields of `ResolveSecretParams`.
abbrev SecretKey : Type 0
SecretKey = ResolveSecretParams

pub record StoredSecret : Type 0 where
  pub value : String
  pub metadata : SecretMetadata

abbrev pub InMemorySecretStore : Type 0
InMemorySecretStore = List (SecretKey × StoredSecret)

unfoldable pub find_secret : SecretKey → InMemorySecretStore → Option StoredSecret
unfolding same_secret
find_secret key [] = none
find_secret key ((other, stored) ∷ rest) =
    let found = find_secret key rest in if same_secret other key then some stored else found

unfoldable pub insert_secret : SecretKey → StoredSecret → InMemorySecretStore → InMemorySecretStore
unfolding same_secret
insert_secret key stored [] = (key, stored) ∷ []
insert_secret key stored ((other, old) ∷ rest) =
    let inserted = insert_secret key stored rest in
    if same_secret other key then (key, stored) ∷ rest else (other, old) ∷ inserted

unfoldable pub remove_secret : SecretKey → InMemorySecretStore → InMemorySecretStore
unfolding same_secret
remove_secret key [] = []
remove_secret key ((other, stored) ∷ rest) =
    let removed = remove_secret key rest in
    if same_secret other key then removed else (other, stored) ∷ removed

unfoldable pub set_secret :
    InMemorySecretStore → SetSecretParams → ℤ → Result SecretMetadata × InMemorySecretStore
set_secret s params now =
    let metadata : SecretMetadata = record {
      project_id = params.project_id;
      environment = params.environment;
      name = params.name;
      backend = "memory";
      updated_at_epoch_ms = now;
      last_used_at_epoch_ms = none;
    } in
    (
      ok metadata,
      insert_secret (secret_of params) (record { value = params.value; metadata = metadata }) s,
    )

in_environment : String → String → StoredSecret → Bool
in_environment project_id environment entry =
    str_eq entry.metadata.project_id project_id && str_eq entry.metadata.environment environment

unfoldable pub list_secrets : InMemorySecretStore → String → String → Result (List SecretMetadata)
unfolding in_environment
list_secrets s project_id environment = ok (
    sort_by (λ left right. not_after (cmp_text left.name right.name))
      (map (λ entry. entry.metadata)
        (filter (in_environment project_id environment) (map (λ entry. entry.1) s))))

unfoldable pub delete_secret :
    InMemorySecretStore → String → String → String → Result Bool × InMemorySecretStore
delete_secret s project_id environment name =
    let key : SecretKey = record {
      project_id = project_id;
      environment = environment;
      name = name;
    } in
    (ok (is_some (find_secret key s)), remove_secret key s)

unfoldable pub mark_used : StoredSecret → ℤ → StoredSecret
mark_used entry now = record entry {
  metadata = record entry.metadata { last_used_at_epoch_ms = some now };
}

unfoldable pub resolve_found :
    InMemorySecretStore
    → SecretKey
    → ℤ
    → Option StoredSecret
    → Result (Option String) × InMemorySecretStore
unfolding mark_used
resolve_found s key now none = (ok none, s)
resolve_found s key now (some entry) =
    (ok (some entry.value), insert_secret key (mark_used entry now) s)

unfoldable pub resolve_secret :
    InMemorySecretStore → ResolveSecretParams → ℤ → Result (Option String) × InMemorySecretStore
unfolding resolve_found
resolve_secret s params now = resolve_found s params now (find_secret params s)

abbrev pub memory_secret_store : SecretStore
memory_secret_store = record {
  State = InMemorySecretStore;
  set_secret = set_secret;
  list_secrets = list_secrets;
  delete_secret = delete_secret;
  resolve_secret = resolve_secret;
}
