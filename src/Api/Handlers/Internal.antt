-- ===== src/Api/Handlers/Internal.antt =====
-- crates/gum-api/src/handlers.rs: the handlers that runners call, which the internal key opens. An
-- answer without content is `none` or the unit.
use gum.Prelude.{Option, none, some, List, [], ◌∷◌, String}
use gum.Prelude.Int.{ℤ}
use gum.Map.{Map, insert}
use gum.Types.{Result, ok, err}
use gum.Queries.GumStore.{GumStore}
use gum.Api.Json.{JsonLibrary}
use gum.Api.Auth.{HeaderValue, Answer, answer_of}
use gum.Api.Secrets.{SecretStore}
use gum.Api.Routes.{
  LeaseRunRequest, LeaseRunResponse, LeaseRuntimePrepareRequest, LeaseRuntimePrepareResponse,
  RegisterRunnerRequest, RunnerHeartbeatRequest, LeaseStateResponse, CompleteRuntimePrepareRequest,
  PrepareDeployRuntimeResponse, CompleteAttemptRequest, RunResponse, AppendLogRequest,
}
use gum.Api.Handlers.{AppState, Handler, for_runners, on_store, read_store, found_or}
use gum.Api.Handlers.Secrets.{normalize_environment}
use gum.Api.Service.Deploys as deploys_service
use gum.Api.Service.Runs as runs_service
use gum.Api.Service.Runners as runners_service
use gum.Api.Service.Views as views_service

module _ (K : SecretStore) where
  unfoldable pub add_resolved : Map String → String → Option String → Map String
  add_resolved resolved name none = resolved
  add_resolved resolved name (some value) = insert name value resolved

  -- The values of the required secrets, for those that are there.
  unfoldable pub resolve_secrets :
      String → String → List String → Map String → ℤ → K.State → Result (Map String) × K.State
  unfolding add_resolved
  resolve_secrets project_id environment [] resolved now s = (ok resolved, s)
  resolve_secrets project_id environment (name ∷ names) resolved now s =
      let (value, s') =
        K.resolve_secret s
          (record { project_id = project_id; environment = environment; name = name }) now in
      elim value [
        | err e ↦ (err e, s')
        | ok found ↦
            resolve_secrets project_id environment names (add_resolved resolved name found) now s'
      ]

module _ {Json : Type 0} (S : GumStore Json) (K : SecretStore) (json : JsonLibrary Json)
    (authorization : HeaderValue) where
  -- `secret_env` is the server's variable GUM_SECRET_ENV, where it is set.
  give_secrets :
      Option String
      → ℤ
      → Answer (Option (LeaseRunResponse Json)) × AppState S K
      → Answer (Option (LeaseRunResponse Json)) × AppState S K
  give_secrets secret_env now (Answer.refused e, app) = (Answer.refused e, app)
  give_secrets secret_env now (Answer.accepted none, app) = (Answer.accepted none, app)
  give_secrets secret_env now (Answer.accepted (some run), app) =
      let (resolved, secrets) =
        resolve_secrets K app.project_id (normalize_environment secret_env)
          run.required_secret_names [] now app.secrets in
      let app' = record app { secrets = secrets } in
      elim resolved [
        | err e ↦ (answer_of (err e), app')
        | ok values ↦ (Answer.accepted (some (record run { resolved_secrets = values })), app')
      ]

  unfoldable pub lease_run :
      LeaseRunRequest → S.Clock → Option String → ℤ → Handler S K (Option (LeaseRunResponse Json))
  unfolding give_secrets
  lease_run payload clock secret_env now = for_runners S K authorization (λ app.
      give_secrets secret_env now
        (on_store S K (runners_service.lease_run S json payload clock) app))

  pub lease_runtime_prepare :
      LeaseRuntimePrepareRequest → (String → ℤ) → Handler S K (Option LeaseRuntimePrepareResponse)
  lease_runtime_prepare payload clock =
      for_runners S K authorization
        (on_store S K (deploys_service.lease_runtime_prepare S payload clock))

  pub complete_runtime_prepare :
      String → CompleteRuntimePrepareRequest → Handler S K PrepareDeployRuntimeResponse
  complete_runtime_prepare deploy_id payload =
      for_runners S K authorization
        (on_store S K (deploys_service.complete_runtime_prepare S deploy_id payload.success))

  pub register_runner : RegisterRunnerRequest → ℤ → Handler S K (Unit {0})
  register_runner payload now =
      for_runners S K authorization
        (on_store S K (runners_service.register_runner S json payload now))

  pub heartbeat_runner : RunnerHeartbeatRequest → ℤ → Handler S K (Unit {0})
  heartbeat_runner payload now =
      for_runners S K authorization
        (on_store S K (runners_service.heartbeat_runner S json payload now))

  pub get_lease_state : String → Handler S K LeaseStateResponse
  get_lease_state lease_id = for_runners S K authorization (λ app.
      found_or S K "lease not found"
        (read_store S K (λ s. views_service.get_lease_state S s lease_id) app))

  pub complete_attempt : String → CompleteAttemptRequest → ℤ → ℤ → Handler S K RunResponse
  complete_attempt attempt_id payload now listed_at =
      for_runners S K authorization
        (on_store S K (runs_service.complete_attempt S json attempt_id payload now listed_at))

  pub append_log : String → String → AppendLogRequest → Handler S K (Unit {0})
  append_log run_id attempt_id payload =
      for_runners S K authorization
        (on_store S K (runs_service.append_log S json run_id attempt_id payload))
