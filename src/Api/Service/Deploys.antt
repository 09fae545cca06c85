-- ===== src/Api/Service/Deploys.antt =====
-- crates/gum-api/src/service.rs: registering deploys and preparing their runtimes.
pub mod Refused
use Prim.Native.String.{◌++◌ as append}
use gum.Prelude.{
  Bool, ◌&&◌, not, Option, none, some, List, [], ◌∷◌, String, is_some, map, if◌then◌else◌,
}
use gum.Prelude.Int.{ℤ}
use gum.Prelude.Lists.{length}
use gum.Types.{DeployStatus, Result, ok, err}
use gum.Models.{DeployRecord}
use gum.Queries.Params.{RegisterDeployParams, RegisterJobParams}
use gum.Queries.Schedule.Cron.{Calendar}
use gum.Queries.Schedule.Due.{validate_recurring_schedule_expr}
use gum.Queries.GumStore.{GumStore}
use gum.Api.Routes.{
  RegisteredJob, RegisterDeployRequest, RegisterDeployResponse, PrepareDeployRuntimeResponse,
  LeaseRuntimePrepareRequest, LeaseRuntimePrepareResponse,
}
use gum.Api.Action.{Action, ◌>>=◌, return, query, required}
use gum.Api.Service.Pools.{validate_rate_limit_pools}

-- The schedules of all jobs, in order; `none` is a panic of the parser.
unfoldable pub check_schedules : Calendar → List RegisteredJob → Option (Result (Unit {0}))
check_schedules calendar [] = some (ok tt)
check_schedules calendar (job ∷ jobs) = elim job.schedule_expr [
  | none ↦ check_schedules calendar jobs
  | some schedule_expr ↦
      let rest = check_schedules calendar jobs in
      elim (validate_recurring_schedule_expr calendar schedule_expr) [
        | none ↦ none
        | some (err e) ↦ some (err e)
        | some (ok _) ↦ rest
      ]
]

job_params : RegisteredJob → RegisterJobParams
job_params job = record {
  id = job.id;
  name = job.name;
  handler_ref = job.handler_ref;
  trigger_mode = job.trigger_mode;
  schedule_expr = job.schedule_expr;
  retries = job.retries;
  timeout_secs = job.timeout_secs;
  rate_limit_spec = job.rate_limit_spec;
  concurrency_limit = job.concurrency_limit;
  cpu_cores = job.cpu_cores;
  memory_mb = job.memory_mb;
  key_field = job.key_field;
  compute_class = job.compute_class;
  required_secret_names = job.required_secret_names;
}

unfoldable pub deploy_params : RegisterDeployRequest → RegisterDeployParams
unfolding job_params
deploy_params request = record {
  project_id = request.project_id;
  version = request.version;
  bundle_url = request.bundle_url;
  bundle_sha256 = request.bundle_sha256;
  sdk_language = request.sdk_language;
  entrypoint = request.entrypoint;
  python_version = request.python_version;
  deps_mode = request.deps_mode;
  deps_hash = request.deps_hash;
  jobs = map job_params request.jobs;
}

unfoldable pub runtime_prepare_lease_name : String → String
runtime_prepare_lease_name deploy_id = append "runtime_prepare:" deploy_id

-- The deploy has dependencies that a runner can prepare.
unfoldable pub has_deps : DeployRecord → Bool
has_deps deploy = is_some deploy.deps_mode && is_some deploy.deps_hash

prepare_response : DeployRecord → LeaseRuntimePrepareResponse
prepare_response deploy = record {
  deploy_id = deploy.id;
  bundle_url = deploy.bundle_url;
  entrypoint = deploy.entrypoint;
  python_version = deploy.python_version;
  deps_mode = deploy.deps_mode;
  deps_hash = deploy.deps_hash;
}

module _ {Json : Type 0} (S : GumStore Json) where
  unfoldable pub store_deploy : RegisterDeployRequest → ℤ → Action S.State RegisterDeployResponse
  unfolding deploy_params
  store_deploy request now = do
    (deploy, jobs) ← λ s. S.register_deploy s (deploy_params request) now
    return (record { id = deploy.id; registered_jobs = length jobs })

  -- `none` is a panic of the schedule parser.
  unfoldable pub register_deploy :
      Calendar
      → S.State
      → RegisterDeployRequest
      → ℤ
      → Option (Result RegisterDeployResponse × S.State)
  unfolding store_deploy
  register_deploy calendar s request now = elim (validate_rate_limit_pools request.jobs) [
    | err e ↦ some (err e, s)
    | ok _ ↦ elim (check_schedules calendar request.jobs) [
      | none ↦ none
      | some (err e) ↦ some (err e, s)
      | some (ok _) ↦ some (store_deploy request now s)
    ]
  ]

  write_status : String → DeployStatus → Action S.State PrepareDeployRuntimeResponse
  write_status deploy_id status = do
    updated ← λ s. S.set_deploy_status s (record { deploy_id = deploy_id; status = status })
    return (record { id = updated.id; status = updated.status })

  unfoldable pub request_runtime_prepare : String → Action S.State PrepareDeployRuntimeResponse
  unfolding write_status
  request_runtime_prepare deploy_id = do
    found ← query (λ s. S.get_deploy s deploy_id)
    deploy ← required "deploy not found" found
    write_status deploy_id (if has_deps deploy then DeployStatus.warming else DeployStatus.ready)

  unfoldable pub complete_runtime_prepare :
      String → Bool → Action S.State PrepareDeployRuntimeResponse
  unfolding write_status
  complete_runtime_prepare deploy_id success =
      write_status deploy_id (if success then DeployStatus.ready else DeployStatus.warmup_failed)

  acquire : LeaseRuntimePrepareRequest → DeployRecord → ℤ → Action S.State Bool
  acquire request deploy now s = S.try_acquire_control_lease s (record {
    lease_name = runtime_prepare_lease_name deploy.id;
    holder_id = request.runner_id;
    ttl_secs = request.lease_ttl_secs;
    now_epoch_ms = now;
  })

  -- `let _ = store.set_deploy_status(…)`: an error is dropped.
  mark_ready : DeployRecord → S.State → S.State
  mark_ready deploy s =
      (S.set_deploy_status s (record { deploy_id = deploy.id; status = DeployStatus.ready })).1

  -- The first candidate whose lease is free; the clock is read for each, by its identifier.
  lease_first :
      LeaseRuntimePrepareRequest
      → (String → ℤ)
      → List DeployRecord
      → Action S.State (Option LeaseRuntimePrepareResponse)
  unfolding acquire mark_ready prepare_response
  lease_first request clock [] s = (ok none, s)
  lease_first request clock (deploy ∷ deploys) s =
      if not (has_deps deploy)
      then lease_first request clock deploys (mark_ready deploy s)
      else (let (result, s') = acquire request deploy (clock deploy.id) s in
          elim result [
            | err e ↦ (err e, s')
            | ok acquired ↦
                if acquired
                then (ok (some (prepare_response deploy)), s')
                else lease_first request clock deploys s'
          ])

  unfoldable pub lease_runtime_prepare :
      LeaseRuntimePrepareRequest
      → (String → ℤ)
      → Action S.State (Option LeaseRuntimePrepareResponse)
  unfolding lease_first
  lease_runtime_prepare request clock = do
    candidates ← query (λ s. S.list_deploys_by_status s DeployStatus.warming 20)
    lease_first request clock candidates
