-- ===== src/Api/Handlers/Runs.antt =====
-- crates/gum-api/src/handlers.rs: the handlers for deploys and runs, which the API key opens.
use Prim.Native.String.{◌++◌ as append}
use gum.Prelude.{Option, List, String}
use gum.Prelude.Int.{ℤ}
use gum.Queries.Schedule.Cron.{Calendar}
use gum.Queries.GumStore.{GumStore}
use gum.Api.Json.{JsonLibrary}
use gum.Api.Auth.{HeaderValue}
use gum.Api.Secrets.{SecretStore}
use gum.Api.Routes.{
  RegisterDeployRequest, RegisterDeployResponse, PrepareDeployRuntimeResponse, EnqueueRunResponse,
  RunResponse, RunsListResponse, ReplayRunResponse, CancelRunRequest, LogLine,
}
use gum.Api.Handlers.{Handler, for_api, on_store, read_store, run_task, found_or}
use gum.Api.Service.Deploys as deploys_service
use gum.Api.Service.Runs as runs_service
use gum.Api.Service.Views as views_service

pub record EnqueueRunPayload (Json : Type 0) : Type 0 where
  pub input : Json
  pub delay : Option String

module _ {Json : Type 0} (S : GumStore Json) (K : SecretStore) (json : JsonLibrary Json)
    (join_error : String) (authorization : HeaderValue) where
  unfoldable pub register_deploy :
      Calendar → RegisterDeployRequest → ℤ → Handler S K RegisterDeployResponse
  register_deploy calendar payload now = for_api S K authorization (
      run_task S K (append "register deploy task failed: " join_error)
        (λ s. deploys_service.register_deploy S calendar s payload now))

  unfoldable pub enqueue_run : String → EnqueueRunPayload Json → ℤ → Handler S K EnqueueRunResponse
  enqueue_run job_id payload now = for_api S K authorization (λ app.
      run_task S K (append "enqueue task failed: " join_error)
        (λ s.
          runs_service.enqueue_run_with_delay S json s app.project_id job_id
            (record { input = payload.input }) payload.delay now)
        app)

  unfoldable pub prepare_runtime : String → Handler S K PrepareDeployRuntimeResponse
  prepare_runtime deploy_id =
      for_api S K authorization (on_store S K (deploys_service.request_runtime_prepare S deploy_id))

  unfoldable pub get_run : String → ℤ → Handler S K RunResponse
  get_run run_id now = for_api S K authorization (λ app.
      found_or S K "run not found" (read_store S K (λ s. views_service.get_run S s run_id now) app))

  unfoldable pub replay_run : String → ℤ → Handler S K ReplayRunResponse
  replay_run run_id now =
      for_api S K authorization (on_store S K (runs_service.replay_run S json run_id now))

  unfoldable pub cancel_run : String → CancelRunRequest → ℤ → ℤ → Handler S K RunResponse
  cancel_run run_id payload now listed_at =
      for_api S K authorization
        (on_store S K (runs_service.cancel_run S json run_id payload now listed_at))

  unfoldable pub get_logs : String → Handler S K (List LogLine)
  get_logs run_id =
      for_api S K authorization (read_store S K (λ s. views_service.get_logs S s run_id))

  unfoldable pub list_project_runs : ℤ → Handler S K RunsListResponse
  list_project_runs now =
      for_api S K authorization
        (λ app. read_store S K (λ s. views_service.list_project_runs S s app.project_id 50 now) app)
