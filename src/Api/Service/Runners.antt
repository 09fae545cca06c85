-- ===== src/Api/Service/Runners.antt =====
-- crates/gum-api/src/service.rs: the functions that the runners call.
use gum.Prelude.{Option, none, some, []}
use gum.Prelude.Int.{ℤ}
use gum.Models.{RunRecord, AttemptRecord, LeaseRecord}
use gum.Queries.GumStore.{GumStore}
use gum.Api.Routes.{
  LeaseRunRequest, LeaseRunResponse, RegisterRunnerRequest, RunnerHeartbeatRequest,
}
use gum.Api.Action.{Action, ◌>>=◌, return, query, lift, required}
use gum.Api.Json.{JsonLibrary}
use gum.Api.Service.Key.{resolve_key_value}

module _ {Json : Type 0} (S : GumStore Json) (json : JsonLibrary Json) where
  -- What a runner is told of the attempt that it has leased.
  unfoldable pub describe_lease :
      LeaseRunRequest
      → Option (RunRecord Json × AttemptRecord × LeaseRecord)
      → Action S.State (Option (LeaseRunResponse Json))
  describe_lease request none = return none
  describe_lease request (some (run, attempt, lease)) = do
    found_deploy ← query (λ s. S.get_deploy s run.deploy_id)
    deploy ← required "deploy not found" found_deploy
    found_job ← query (λ s. S.get_job s run.job_id)
    job ← required "job not found" found_job
    key ← lift (resolve_key_value json job.key_field run.input_json)
    return (
        some (record {
          lease_id = lease.id;
          attempt_id = attempt.id;
          run_id = run.id;
          job_id = run.job_id;
          key = key;
          replay_of = run.replay_of_run_id;
          deploy_id = run.deploy_id;
          input = run.input_json;
          bundle_url = deploy.bundle_url;
          entrypoint = deploy.entrypoint;
          python_version = deploy.python_version;
          deps_mode = deploy.deps_mode;
          deps_hash = deploy.deps_hash;
          handler_ref = job.handler_ref;
          timeout_secs = job.timeout_secs;
          cpu_cores = job.cpu_cores;
          memory_mb = job.memory_mb;
          required_secret_names = job.required_secret_names;
          resolved_secrets = [];
          lease_ttl_secs = request.lease_ttl_secs;
        }))

  unfoldable pub lease_run :
      LeaseRunRequest → S.Clock → Action S.State (Option (LeaseRunResponse Json))
  unfolding describe_lease
  lease_run request clock = do
    leased ← λ s.
        S.lease_next_attempt s
          (record { runner_id = request.runner_id; lease_ttl_secs = request.lease_ttl_secs }) clock
    describe_lease request leased

  unfoldable pub register_runner : RegisterRunnerRequest → ℤ → Action S.State (Unit {0})
  register_runner request now = do
    _ ← λ s.
        S.register_runner s
          (record {
            runner_id = request.runner_id;
            compute_class = request.compute_class;
            cpu_cores = request.cpu_cores;
            memory_mb = request.memory_mb;
            max_concurrent_leases = request.max_concurrent_leases;
            heartbeat_timeout_secs = request.heartbeat_timeout_secs;
          })
          now
    return tt

  unfoldable pub heartbeat_runner : RunnerHeartbeatRequest → ℤ → Action S.State (Unit {0})
  heartbeat_runner request now = do
    _ ← λ s.
        S.heartbeat_runner s
          (record {
            runner_id = request.runner_id;
            compute_class = request.compute_class;
            cpu_cores = request.cpu_cores;
            memory_mb = request.memory_mb;
            max_concurrent_leases = request.max_concurrent_leases;
            heartbeat_timeout_secs = request.heartbeat_timeout_secs;
            lease_ttl_secs = request.lease_ttl_secs;
            active_lease_ids = request.active_lease_ids;
          })
          now
    return tt
