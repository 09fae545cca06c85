-- ===== src/Store/Deploys.antt =====
-- crates/gum-store/src/memory.rs: projects, deploys with their jobs, provider targets, health records
-- that are set from outside, and logs. `now` is the reading of the clock.
pub mod Refine
pub mod Leases
use gum.Prelude.{true, not, Option, none, some, List, [], ◌∷◌, ◌++◌, String, str_eq, if◌then◌else◌}
use gum.Prelude.Int.{ℤ}
use gum.Prelude.Lists.{filter}
use gum.Map.{Map, get, insert, contains_key}
use gum.Types.{DeployStatus, Result, ok, err}
use gum.Models.{
  ProjectRecord, DeployRecord, JobRecord, ProviderTargetRecord, ProviderCheckRecord,
  ProviderHealthRecord, FunctionHealthRecord, RunRecord, LogRecord,
}
use gum.Queries.Params.{
  RegisterDeployParams, RegisterJobParams, UpsertProviderTargetParams, RecordProviderCheckParams,
  SetProviderHealthParams, SetFunctionHealthParams, SetDeployStatusParams,
}
use gum.Store.{MemoryStore, next_id}

new_deploy : RegisterDeployParams → String → DeployRecord
new_deploy params id = record {
  id = id;
  project_id = params.project_id;
  version = params.version;
  bundle_url = params.bundle_url;
  bundle_sha256 = params.bundle_sha256;
  sdk_language = params.sdk_language;
  entrypoint = params.entrypoint;
  python_version = params.python_version;
  deps_mode = params.deps_mode;
  deps_hash = params.deps_hash;
  status = DeployStatus.ready;
}

new_job : String → String → ℤ → RegisterJobParams → JobRecord
new_job project_id deploy_id now job = record {
  id = job.id;
  project_id = project_id;
  deploy_id = deploy_id;
  name = job.name;
  handler_ref = job.handler_ref;
  trigger_mode = job.trigger_mode;
  schedule_expr = job.schedule_expr;
  retries = job.retries;
  timeout_secs = job.timeout_secs;
  rate_limit_spec = job.rate_limit_spec;
  concurrency_limit = job.concurrency_limit;
  cpu_cores = job.cpu_cores;
  memory_mb = job.memory_mb;
  key_field = job.key_field;
  compute_class = job.compute_class;
  required_secret_names = job.required_secret_names;
  enabled = true;
  created_at_epoch_ms = now;
}

insert_jobs :
    String → String → ℤ → List RegisterJobParams → Map JobRecord → Map JobRecord × List JobRecord
unfolding new_job
insert_jobs project_id deploy_id now [] jobs = (jobs, [])
insert_jobs project_id deploy_id now (job ∷ rest) jobs =
    let added = new_job project_id deploy_id now job in
    let (jobs', records) = insert_jobs project_id deploy_id now rest (insert added.id added jobs) in
    (jobs', added ∷ records)

module _ {Json : Type 0} where
  unfoldable pub insert_project :
      MemoryStore Json → ProjectRecord → Result (Unit {0}) × MemoryStore Json
  insert_project s project = (
    ok tt,
    record s { state = record s.state { projects = insert project.id project s.state.projects } },
  )

  unfoldable pub register_deploy :
      MemoryStore Json
      → RegisterDeployParams
      → ℤ
      → Result (DeployRecord × List JobRecord) × MemoryStore Json
  unfolding new_deploy insert_jobs
  register_deploy s params now =
      let (id, ids) = next_id s "dep" in
      let deploy = new_deploy params id in
      let (jobs, records) = insert_jobs params.project_id id now params.jobs s.state.jobs in
      if not (contains_key params.project_id s.state.projects)
      then (err "project not found", s)
      else (
        ok (deploy, records),
        record {
          ids = ids;
          state = record s.state { jobs = jobs; deploys = insert deploy.id deploy s.state.deploys };
        },
      )

  created_or : Option (ProviderTargetRecord Json) → ℤ → ℤ
  created_or none now = now
  created_or (some target) now = target.created_at_epoch_ms

  -- A target keeps the moment of its creation.
  pub upsert_provider_target :
      MemoryStore Json
      → UpsertProviderTargetParams Json
      → ℤ
      → Result (ProviderTargetRecord Json) × MemoryStore Json
  unfolding created_or
  upsert_provider_target s params now =
      let target : ProviderTargetRecord Json = record {
        id = params.id;
        name = params.name;
        slug = params.slug;
        probe_kind = params.probe_kind;
        probe_config_json = params.probe_config_json;
        enabled = params.enabled;
        created_at_epoch_ms = created_or (get params.id s.state.provider_targets) now;
      } in
      (
        ok target,
        record s {
          state = record s.state {
            provider_targets = insert params.id target s.state.provider_targets;
          };
        },
      )

  pub record_provider_check :
      MemoryStore Json → RecordProviderCheckParams → Result ProviderCheckRecord × MemoryStore Json
  record_provider_check s params =
      let (id, ids) = next_id s "pch" in
      let check : ProviderCheckRecord = record {
        id = id;
        provider_target_id = params.provider_target_id;
        status = params.status;
        latency_ms = params.latency_ms;
        error_class = params.error_class;
        status_code = params.status_code;
        checked_at_epoch_ms = params.checked_at_epoch_ms;
      } in
      if not (contains_key params.provider_target_id s.state.provider_targets)
      then (err "provider target not found", s)
      else (
        ok check,
        record {
          ids = ids;
          state = record s.state { provider_checks = s.state.provider_checks ++ (check ∷ []) };
        },
      )

  set_health_of :
      MemoryStore Json
      → SetProviderHealthParams
      → Option (ProviderTargetRecord Json)
      → Result ProviderHealthRecord × MemoryStore Json
  set_health_of s params none = (err "provider target not found", s)
  set_health_of s params (some target) =
      let health : ProviderHealthRecord = record {
        provider_target_id = params.provider_target_id;
        provider_name = target.name;
        provider_slug = target.slug;
        state = params.state;
        reason = params.reason;
        last_changed_at_epoch_ms = params.last_changed_at_epoch_ms;
        last_success_at_epoch_ms = params.last_success_at_epoch_ms;
        last_failure_at_epoch_ms = params.last_failure_at_epoch_ms;
        degraded_score = params.degraded_score;
        down_score = params.down_score;
      } in
      (
        ok health,
        record s {
          state = record s.state {
            provider_health = insert params.provider_target_id health s.state.provider_health;
          };
        },
      )

  pub set_provider_health :
      MemoryStore Json → SetProviderHealthParams → Result ProviderHealthRecord × MemoryStore Json
  unfolding set_health_of
  set_provider_health s params =
      set_health_of s params (get params.provider_target_id s.state.provider_targets)

  pub set_function_health :
      MemoryStore Json → SetFunctionHealthParams → Result FunctionHealthRecord × MemoryStore Json
  set_function_health s params =
      let health : FunctionHealthRecord = record {
        job_id = params.job_id;
        state = params.state;
        consecutive_infra_failures = params.consecutive_infra_failures;
        reason = params.reason;
        hold_until_epoch_ms = params.hold_until_epoch_ms;
        last_changed_at_epoch_ms = params.last_changed_at_epoch_ms;
        last_success_at_epoch_ms = params.last_success_at_epoch_ms;
        last_failure_at_epoch_ms = params.last_failure_at_epoch_ms;
      } in
      (
        ok health,
        record s {
          state = record s.state {
            function_health = insert params.job_id health s.state.function_health;
          };
        },
      )

  set_status_of :
      MemoryStore Json
      → SetDeployStatusParams
      → Option DeployRecord
      → Result DeployRecord × MemoryStore Json
  set_status_of s params none = (err "deploy not found", s)
  set_status_of s params (some deploy) =
      let updated = record deploy { status = params.status } in
      (
        ok updated,
        record s {
          state = record s.state { deploys = insert params.deploy_id updated s.state.deploys };
        },
      )

  pub set_deploy_status :
      MemoryStore Json → SetDeployStatusParams → Result DeployRecord × MemoryStore Json
  unfolding set_status_of
  set_deploy_status s params = set_status_of s params (get params.deploy_id s.state.deploys)

  pub append_log : MemoryStore Json → LogRecord → Result (Unit {0}) × MemoryStore Json
  append_log s log =
      (ok tt, record s { state = record s.state { logs = s.state.logs ++ (log ∷ []) } })

  pub list_run_logs : MemoryStore Json → String → Result (List LogRecord)
  list_run_logs s run_id = ok (filter (λ log. str_eq log.run_id run_id) s.state.logs)

  unfoldable pub get_job : MemoryStore Json → String → Result (Option JobRecord)
  get_job s job_id = ok (get job_id s.state.jobs)

  unfoldable pub get_run : MemoryStore Json → String → Result (Option (RunRecord Json))
  get_run s run_id = ok (get run_id s.state.runs)

  unfoldable pub get_deploy : MemoryStore Json → String → Result (Option DeployRecord)
  get_deploy s deploy_id = ok (get deploy_id s.state.deploys)

  pub get_function_health : MemoryStore Json → String → Result (Option FunctionHealthRecord)
  get_function_health s job_id = ok (get job_id s.state.function_health)
