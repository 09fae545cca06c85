-- ===== src/Api/Secrets.antt =====
-- crates/gum-api/src/secret_store.rs: the trait `SecretStore`, over an unknown state, and what the
-- handlers rely on. The time of a call is an argument.
pub mod Memory
pub mod Lawful
pub mod MasterKey
pub mod Hex
use gum.Prelude.{
  ◌≡◌, Bool, true, false, ◌&&◌, Option, none, some, List, String, str_eq, if◌then◌else◌, is_some,
}
use gum.Prelude.Int.{ℤ}
use gum.Types.{Result, ok}

pub record SecretMetadata : Type 0 where
  pub project_id : String
  pub environment : String
  pub name : String
  pub backend : String
  pub updated_at_epoch_ms : ℤ
  pub last_used_at_epoch_ms : Option ℤ

pub record SetSecretParams : Type 0 where
  pub project_id : String
  pub environment : String
  pub name : String
  pub value : String

pub record ResolveSecretParams : Type 0 where
  pub project_id : String
  pub environment : String
  pub name : String

pub record SecretStore : Type 1 where
  pub State : Type 0
  pub set_secret : State → SetSecretParams → ℤ → Result SecretMetadata × State
  pub list_secrets : State → String → String → Result (List SecretMetadata)
  pub delete_secret : State → String → String → String → Result Bool × State
  pub resolve_secret : State → ResolveSecretParams → ℤ → Result (Option String) × State

-- The secret that a call sets is the one that another asks for.
unfoldable pub same_secret : ResolveSecretParams → ResolveSecretParams → Bool
same_secret a b =
    str_eq a.project_id b.project_id && str_eq a.environment b.environment && str_eq a.name b.name

abbrev pub secret_of : SetSecretParams → ResolveSecretParams
secret_of params = record {
  project_id = params.project_id;
  environment = params.environment;
  name = params.name;
}

-- The values of secrets, by project, environment and name: each is what was set last.
pub record IsLawful (K : SecretStore) : Type 0 where
  -- The value of a secret in a state.
  pub value_of : K.State → ResolveSecretParams → Option String
  pub resolve_value :
      (s : K.State) (q : ResolveSecretParams) (now : ℤ)
      → (K.resolve_secret s q now).0 ≡ ok (value_of s q)
  pub resolve_keeps :
      (s : K.State) (q r : ResolveSecretParams) (now : ℤ)
      → value_of (K.resolve_secret s q now).1 r ≡ value_of s r
  pub set_value :
      (s : K.State) (params : SetSecretParams) (now : ℤ) (r : ResolveSecretParams)
      → value_of (K.set_secret s params now).1 r
        ≡ (if same_secret (secret_of params) r then some params.value else value_of s r)
  pub delete_value :
      (s : K.State) (q r : ResolveSecretParams)
      → value_of (K.delete_secret s q.project_id q.environment q.name).1 r
        ≡ (if same_secret q r then none else value_of s r)
  pub delete_result :
      (s : K.State) (q : ResolveSecretParams)
      → (K.delete_secret s q.project_id q.environment q.name).0 ≡ ok (is_some (value_of s q))
