-- ===== src/Api/Handlers/Access.antt =====
-- crates/gum-api/src/handlers.rs: the calls of the API, and callers without a key.
use gum.Prelude.{◌≡◌, ◌⊎◌, inl, inr, refl, Option, none, some, String}
use gum.Prelude.Int.{ℤ}
use gum.Queries.GumStore.{GumStore}
use gum.Queries.Schedule.Cron.{Calendar}
use gum.Api.Json.{JsonLibrary}
use gum.Api.Routes.{RegisterDeployRequest, CancelRunRequest, SetSecretRequest}
use gum.Api.Auth.{ApiError, Answer, HeaderValue, require_api_or_admin}
use gum.Api.Auth.Access.{Holds, Answer-cases, require_api_or_admin_iff}
use gum.Api.Secrets.{SecretStore}
use gum.Api.Handlers.{AppState, Handler, for_api}
use gum.Api.Handlers.Runs.{
  EnqueueRunPayload, register_deploy, enqueue_run, prepare_runtime, get_run, replay_run, cancel_run,
  get_logs, list_project_runs,
}
use gum.Api.Handlers.Secrets.{set_secret, list_secrets, delete_secret}

-- The calls that the router gives to the handlers for the users of the API, with what the request
-- holds and the readings of the clock.
pub data ApiCall (Json : Type 0) : Type 1 where
  register_deploy_call : Calendar → RegisterDeployRequest → ℤ → ApiCall Json
  enqueue_run_call : String → EnqueueRunPayload Json → ℤ → ApiCall Json
  prepare_runtime_call : String → ApiCall Json
  get_run_call : String → ℤ → ApiCall Json
  replay_run_call : String → ℤ → ApiCall Json
  cancel_run_call : String → CancelRunRequest → ℤ → ℤ → ApiCall Json
  get_logs_call : String → ApiCall Json
  list_project_runs_call : ℤ → ApiCall Json
  set_secret_call : SetSecretRequest → ℤ → ApiCall Json
  list_secrets_call : Option String → ApiCall Json
  delete_secret_call : String → Option String → ApiCall Json

module _ {Json : Type 0} (S : GumStore Json) (K : SecretStore) (json : JsonLibrary Json)
    (join_error : String) (authorization : HeaderValue) where
  -- The error that is answered, if any, and the state that is left.
  abbrev outcome : {A : Type 0} → Answer A × AppState S K → Option ApiError × AppState S K
  outcome (Answer.accepted _, app) = (none, app)
  outcome (Answer.refused e, app) = (some e, app)

  unfoldable pub handle : ApiCall Json → AppState S K → Option ApiError × AppState S K
  handle (ApiCall.register_deploy_call calendar payload now) app =
      outcome (register_deploy S K json join_error authorization calendar payload now app)
  handle (ApiCall.enqueue_run_call job_id payload now) app =
      outcome (enqueue_run S K json join_error authorization job_id payload now app)
  handle (ApiCall.prepare_runtime_call deploy_id) app =
      outcome (prepare_runtime S K json join_error authorization deploy_id app)
  handle (ApiCall.get_run_call run_id now) app =
      outcome (get_run S K json join_error authorization run_id now app)
  handle (ApiCall.replay_run_call run_id now) app =
      outcome (replay_run S K json join_error authorization run_id now app)
  handle (ApiCall.cancel_run_call run_id payload now listed_at) app =
      outcome (cancel_run S K json join_error authorization run_id payload now listed_at app)
  handle (ApiCall.get_logs_call run_id) app =
      outcome (get_logs S K json join_error authorization run_id app)
  handle (ApiCall.list_project_runs_call now) app =
      outcome (list_project_runs S K json join_error authorization now app)
  handle (ApiCall.set_secret_call payload now) app =
      outcome (set_secret S K authorization payload now app)
  handle (ApiCall.list_secrets_call environment) app =
      outcome (list_secrets S K authorization environment app)
  handle (ApiCall.delete_secret_call name environment) app =
      outcome (delete_secret S K authorization name environment app)

  for_api_refused :
      {A : Type 0} (handler : Handler S K A) (app : AppState S K)
      → ¬ (Holds authorization app.api_key ⊎ Holds authorization app.admin_key)
      → (e : ApiError) × (outcome (for_api S K authorization handler app) ≡ (some e, app))
  unfolding for_api
  for_api_refused handler app stranger =
      elim (Answer-cases (require_api_or_admin app.api_key app.admin_key authorization)) [
        | inl (_, accepted) ↦ absurd (
            stranger
              ((require_api_or_admin_iff app.api_key app.admin_key authorization).0 accepted))
        | inr (e, refused) ↦ (e, rw refused refl)
      ]

  -- Whatever call of the API it is, for deploys, runs, logs or secrets: a caller whose header gives
  -- neither of the keys that are set is answered with an error, and the server's state stays as it is.
  pub strangers_refused :
      (call : ApiCall Json) (app : AppState S K)
      → ¬ (Holds authorization app.api_key ⊎ Holds authorization app.admin_key)
      → (e : ApiError) × (handle call app ≡ (some e, app))
  unfolding handle register_deploy enqueue_run prepare_runtime get_run replay_run cancel_run
      get_logs list_project_runs set_secret list_secrets delete_secret
  strangers_refused (ApiCall.register_deploy_call calendar payload now) app stranger =
      for_api_refused _ app stranger
  strangers_refused (ApiCall.enqueue_run_call job_id payload now) app stranger =
      for_api_refused _ app stranger
  strangers_refused (ApiCall.prepare_runtime_call deploy_id) app stranger =
      for_api_refused _ app stranger
  strangers_refused (ApiCall.get_run_call run_id now) app stranger = for_api_refused _ app stranger
  strangers_refused (ApiCall.replay_run_call run_id now) app stranger =
      for_api_refused _ app stranger
  strangers_refused (ApiCall.cancel_run_call run_id payload now listed_at) app stranger =
      for_api_refused _ app stranger
  strangers_refused (ApiCall.get_logs_call run_id) app stranger = for_api_refused _ app stranger
  strangers_refused (ApiCall.list_project_runs_call now) app stranger =
      for_api_refused _ app stranger
  strangers_refused (ApiCall.set_secret_call payload now) app stranger =
      for_api_refused _ app stranger
  strangers_refused (ApiCall.list_secrets_call environment) app stranger =
      for_api_refused _ app stranger
  strangers_refused (ApiCall.delete_secret_call name environment) app stranger =
      for_api_refused _ app stranger
