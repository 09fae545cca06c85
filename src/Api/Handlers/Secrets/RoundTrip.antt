-- ===== src/Api/Handlers/Secrets/RoundTrip.antt =====
-- crates/gum-api/src/handlers.rs: a secret from the handler that sets it to the one that leases runs.
use gum.Prelude.{◌≡◌, ◌∙◌, refl, ap, true, some, [], ◌∷◌, eq_refl, arith}
use gum.Prelude.Int.{ℤ}
use gum.Text.{trim}
use gum.Map.{insert}
use gum.Types.{ok}
use gum.Queries.GumStore.{GumStore}
use gum.Api.Auth.{Answer, HeaderValue}
use gum.Api.Secrets.{SecretStore, ResolveSecretParams, IsLawful, same_secret}
use gum.Api.Routes.{SetSecretRequest, SecretMetadataResponse}
use gum.Api.Handlers.{AppState, for_api}
use gum.Api.Handlers.Secrets.{normalize_environment, set_secret, store_secret}
use gum.Api.Handlers.Internal.{resolve_secrets, add_resolved}

same_secret_refl : (q : ResolveSecretParams) → same_secret q q ≡ true
unfolding same_secret
same_secret_refl q = ground (arith, eq_refl q.project_id, eq_refl q.environment, eq_refl q.name)

module _ {Json : Type 0} (S : GumStore Json) (K : SecretStore) (laws : IsLawful K)
    (authorization : HeaderValue) (payload : SetSecretRequest) (now : ℤ) (app : AppState S K) where
  -- The secret that the payload names, of the server's project.
  abbrev named : ResolveSecretParams
  named = record {
    project_id = app.project_id;
    environment = normalize_environment payload.environment;
    name = trim payload.name;
  }

  stored_value :
      laws.value_of (store_secret S K authorization payload now app).1.secrets named
      ≡ some payload.value
  unfolding store_secret
  stored_value =
      laws.set_value app.secrets
        (record {
          project_id = app.project_id;
          environment = normalize_environment payload.environment;
          name = trim payload.name;
          value = payload.value;
        })
        now named
      ∙ rw (same_secret_refl named) refl

  accepted_store :
      (metadata : SecretMetadataResponse) (app' : AppState S K)
      → set_secret S K authorization payload now app ≡ (Answer.accepted metadata, app')
      → app' ≡ (store_secret S K authorization payload now app).1
  unfolding set_secret for_api
  accepted_store metadata app' h = ground arith

  -- Over every lawful secret store: once the API has accepted a secret, resolving its trimmed name for the
  -- server's project in the same environment gives the value that was set.
  pub set_secret-resolves :
      (metadata : SecretMetadataResponse) (app' : AppState S K) (later : ℤ)
      → set_secret S K authorization payload now app ≡ (Answer.accepted metadata, app')
      → (resolve_secrets K app.project_id
          (normalize_environment payload.environment)
          (trim payload.name ∷ [])
          []
          later
          app'.secrets).0
        ≡ ok ((trim payload.name, payload.value) ∷ [])
  unfolding resolve_secrets add_resolved insert
  set_secret-resolves metadata app' later h =
      let there : laws.value_of app'.secrets named ≡ some payload.value =
        ap (λ u. laws.value_of u.secrets named) (accepted_store metadata app' h) ∙ stored_value in
      let answered = laws.resolve_value app'.secrets named later ∙ ap ok there in
      rw (answered, resolve_secrets) refl
