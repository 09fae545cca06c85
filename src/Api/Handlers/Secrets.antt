-- ===== src/Api/Handlers/Secrets.antt =====
-- crates/gum-api/src/handlers.rs: the handlers for secrets, which the API key opens.
pub mod RoundTrip
use gum.Prelude.{
  Bool, true, false, Option, none, some, List, String, str_eq, map, if◌then◌else◌, unwrap_or,
}
use gum.Prelude.Int.{ℤ}
use gum.Text.{trim}
use gum.Types.{Result, ok, err}
use gum.Queries.GumStore.{GumStore}
use gum.Api.Auth.{HeaderValue, StatusCode, Answer, answer_of, from_message, is_blank}
use gum.Api.Secrets.{SecretStore, SecretMetadata}
use gum.Api.Routes.{SetSecretRequest, SecretMetadataResponse, SecretsListResponse}
use gum.Api.Handlers.{AppState, Handler, for_api}

unfoldable pub normalize_environment : Option String → String
normalize_environment environment =
    let normalized = trim (unwrap_or environment "prod") in
    if str_eq normalized "" then "prod" else normalized

unfoldable pub secret_metadata_response : SecretMetadata → SecretMetadataResponse
secret_metadata_response metadata = record {
  project_id = metadata.project_id;
  environment = metadata.environment;
  name = metadata.name;
  backend = metadata.backend;
  updated_at_epoch_ms = metadata.updated_at_epoch_ms;
  last_used_at_epoch_ms = metadata.last_used_at_epoch_ms;
}

unfoldable pub map_result : {A B : Type 0} → (A → B) → Result A → Result B
map_result f (ok a) = ok (f a)
map_result f (err e) = err e

delete_answer : Result Bool → Answer (Unit {0})
delete_answer (err e) = Answer.refused (from_message e)
delete_answer (ok true) = Answer.accepted tt
delete_answer (ok false) =
    Answer.refused (record { status = StatusCode.not_found; message = "secret not found" })

module _ {Json : Type 0} (S : GumStore Json) (K : SecretStore) (authorization : HeaderValue) where
  unfoldable pub store_secret : SetSecretRequest → ℤ → Handler S K SecretMetadataResponse
  unfolding map_result secret_metadata_response
  store_secret payload now app =
      let (result, secrets) =
        K.set_secret app.secrets
          (record {
            project_id = app.project_id;
            environment = normalize_environment payload.environment;
            name = trim payload.name;
            value = payload.value;
          })
          now in
      (answer_of (map_result secret_metadata_response result), record app { secrets = secrets })

  unfoldable pub set_secret : SetSecretRequest → ℤ → Handler S K SecretMetadataResponse
  unfolding store_secret
  set_secret payload now = for_api S K authorization (λ app.
      if is_blank payload.name
      then (Answer.refused (from_message "secret name cannot be empty"), app)
      else if str_eq payload.value ""
      then (Answer.refused (from_message "secret value cannot be empty"), app)
      else store_secret payload now app)

  unfoldable pub list_secrets : Option String → Handler S K SecretsListResponse
  unfolding map_result secret_metadata_response
  list_secrets environment = for_api S K authorization (λ app. (
    answer_of (
        map_result (λ secrets. record { secrets = map secret_metadata_response secrets })
          (K.list_secrets app.secrets app.project_id (normalize_environment environment))),
    app,
  ))

  remove_secret : String → Option String → Handler S K (Unit {0})
  unfolding delete_answer
  remove_secret name environment app =
      let (deleted, secrets) =
        K.delete_secret app.secrets app.project_id (normalize_environment environment)
          (trim name) in
      (delete_answer deleted, record app { secrets = secrets })

  unfoldable pub delete_secret : String → Option String → Handler S K (Unit {0})
  unfolding remove_secret
  delete_secret name environment = for_api S K authorization (λ app.
      if is_blank name
      then (Answer.refused (from_message "secret name cannot be empty"), app)
      else remove_secret name environment app)
