-- ===== src/Api/Service/Views.antt =====
-- crates/gum-api/src/service.rs: the listings of the API.
pub mod Concurrency
use gum.Prelude.{ℕ, ◌%◌, ◌^◌, Option, none, some, List, [], ◌∷◌, ◌++◌, String, str_eq, map}
use gum.Prelude.Int.{ℤ}
use gum.Prelude.Lists.{length, any}
use gum.Map.{Map, get, insert}
use gum.Types.{Result, ok, ◌>>=◌}
use gum.Models.{
  RunRecord, ConcurrencyStatusRecord, RateLimitStatusRecord, ProviderHealthState,
  ProviderHealthRecord, RunnerStatusRecord, LeaseStatusRecord,
}
use gum.Queries.GumStore.{GumStore}
use gum.Api.Routes.{
  RunResponse, RunsListResponse, RunnerStatusResponse, RunnersListResponse, LeaseStatusResponse,
  LeasesListResponse, ConcurrencyStatusResponse, ConcurrencyListResponse, RateLimitStatusResponse,
  RateLimitListResponse, ProviderHealthResponse, ProviderHealthListResponse, LogLine,
  LeaseStateResponse,
}
use gum.Api.Service.Waiting.{run_response}

-- `statuses.map(|status| (status.job_id, status)).collect()`
unfoldable pub collect_by_job :
    Map ConcurrencyStatusRecord → List ConcurrencyStatusRecord → Map ConcurrencyStatusRecord
collect_by_job m [] = m
collect_by_job m (status ∷ rest) = collect_by_job (insert status.job_id status m) rest

waiting_ids : List RateLimitStatusRecord → List String
waiting_ids [] = []
waiting_ids (status ∷ rest) = status.waiting_run_ids ++ waiting_ids rest

unfoldable pub provider_health_state_to_str : ProviderHealthState → String
provider_health_state_to_str ProviderHealthState.healthy = "healthy"
provider_health_state_to_str ProviderHealthState.degraded = "degraded"
provider_health_state_to_str ProviderHealthState.down = "down"

runner_response : RunnerStatusRecord → RunnerStatusResponse
runner_response runner = record {
  id = runner.id;
  compute_class = runner.compute_class;
  cpu_cores = runner.cpu_cores;
  memory_mb = runner.memory_mb;
  active_cpu_cores = runner.active_cpu_cores;
  active_memory_mb = runner.active_memory_mb;
  max_concurrent_leases = runner.max_concurrent_leases;
  last_heartbeat_at_epoch_ms = runner.last_heartbeat_at_epoch_ms;
  active_lease_count = runner.active_lease_count;
}

lease_response : LeaseStatusRecord → LeaseStatusResponse
lease_response lease = record {
  lease_id = lease.lease_id;
  run_id = lease.run_id;
  attempt_id = lease.attempt_id;
  runner_id = lease.runner_id;
  expires_at_epoch_ms = lease.expires_at_epoch_ms;
  cancel_requested = lease.cancel_requested;
}

concurrency_response : ConcurrencyStatusRecord → ConcurrencyStatusResponse
concurrency_response status = record {
  job_id = status.job_id;
  job_name = status.job_name;
  concurrency_limit = status.concurrency_limit;
  active_count = length status.active_run_ids % 2 ^ 32;
  queued_count = length status.queued_run_ids % 2 ^ 32;
  active_run_ids = status.active_run_ids;
  queued_run_ids = status.queued_run_ids;
}

rate_limit_response : RateLimitStatusRecord → RateLimitStatusResponse
rate_limit_response status = record {
  scope_key = status.scope_key;
  scope_kind = status.scope_kind;
  pool_name = status.pool_name;
  limit = status.limit;
  window_ms = status.window_ms;
  recent_start_count = status.recent_start_count;
  waiting_count = length status.waiting_run_ids % 2 ^ 32;
  job_ids = status.job_ids;
  job_names = status.job_names;
  waiting_run_ids = status.waiting_run_ids;
}

provider_response : ProviderHealthRecord → ProviderHealthResponse
provider_response provider = record {
  provider_target_id = provider.provider_target_id;
  provider_name = provider.provider_name;
  provider_slug = provider.provider_slug;
  state = provider_health_state_to_str provider.state;
  reason = provider.reason;
  last_changed_at_epoch_ms = provider.last_changed_at_epoch_ms;
  last_success_at_epoch_ms = provider.last_success_at_epoch_ms;
  last_failure_at_epoch_ms = provider.last_failure_at_epoch_ms;
  degraded_score = provider.degraded_score;
  down_score = provider.down_score;
}

module _ {Json : Type 0} (S : GumStore Json) where
  unfoldable pub concurrency_status_map : S.State → Result (Map ConcurrencyStatusRecord)
  unfolding collect_by_job
  concurrency_status_map s = do
    statuses ← S.list_concurrency_status s
    ok (collect_by_job [] statuses)

  unfoldable pub rate_limit_waiting_run_ids : S.State → ℤ → Result (List String)
  unfolding waiting_ids
  rate_limit_waiting_run_ids s now = do
    statuses ← S.list_rate_limit_status s now
    ok (waiting_ids statuses)

  -- The response for a run, with what the two listings say of its job.
  unfoldable pub respond : Map ConcurrencyStatusRecord → List String → RunRecord Json → RunResponse
  respond concurrency waiting run =
      run_response run (get run.job_id concurrency) (any (λ id. str_eq id run.id) waiting)

  -- The two listings, which many functions read first.
  unfoldable pub read_limits : S.State → ℤ → Result (Map ConcurrencyStatusRecord × List String)
  unfolding concurrency_status_map rate_limit_waiting_run_ids
  read_limits s now = do
    concurrency ← concurrency_status_map s
    waiting ← rate_limit_waiting_run_ids s now
    ok (concurrency, waiting)

  unfoldable pub respond_option :
      Map ConcurrencyStatusRecord → List String → Option (RunRecord Json) → Option RunResponse
  respond_option concurrency waiting none = none
  respond_option concurrency waiting (some run) = some (respond concurrency waiting run)

  unfoldable pub get_run : S.State → String → ℤ → Result (Option RunResponse)
  unfolding read_limits respond_option respond
  get_run s run_id now = do
    (concurrency, waiting) ← read_limits s now
    run ← S.get_run s run_id
    ok (respond_option concurrency waiting run)

  unfoldable pub list_runs : S.State → ℕ → ℤ → Result RunsListResponse
  unfolding read_limits respond
  list_runs s limit now = do
    (concurrency, waiting) ← read_limits s now
    runs ← S.list_recent_runs s limit
    ok (record { runs = map (respond concurrency waiting) runs })

  unfoldable pub list_project_runs : S.State → String → ℕ → ℤ → Result RunsListResponse
  unfolding read_limits respond
  list_project_runs s project_id limit now = do
    (concurrency, waiting) ← read_limits s now
    runs ← S.list_recent_runs_for_project s project_id limit
    ok (record { runs = map (respond concurrency waiting) runs })

  unfoldable pub get_logs : S.State → String → Result (List LogLine)
  get_logs s run_id = do
    logs ← S.list_run_logs s run_id
    ok (
        map
          (λ entry. record {
            attempt_id = entry.attempt_id;
            stream = entry.stream;
            message = entry.message;
          })
          logs)

  unfoldable pub list_runners : S.State → Result RunnersListResponse
  unfolding runner_response
  list_runners s = do
    runners ← S.list_runners s
    ok (record { runners = map runner_response runners })

  unfoldable pub list_leases : S.State → Result LeasesListResponse
  unfolding lease_response
  list_leases s = do
    leases ← S.list_active_leases s
    ok (record { leases = map lease_response leases })

  unfoldable pub list_concurrency : S.State → Result ConcurrencyListResponse
  unfolding concurrency_response
  list_concurrency s = do
    statuses ← S.list_concurrency_status s
    ok (record { concurrency = map concurrency_response statuses })

  unfoldable pub list_rate_limits : S.State → ℤ → Result RateLimitListResponse
  unfolding rate_limit_response
  list_rate_limits s now = do
    statuses ← S.list_rate_limit_status s now
    ok (record { rate_limits = map rate_limit_response statuses })

  unfoldable pub list_provider_health : S.State → Result ProviderHealthListResponse
  unfolding provider_response
  list_provider_health s = do
    providers ← S.list_provider_health s
    ok (record { providers = map provider_response providers })

  unfoldable pub get_lease_state : S.State → String → Result (Option LeaseStateResponse)
  get_lease_state s lease_id = do
    state ← S.get_lease_state s lease_id
    ok (elim state [
      | none ↦ none
      | some found ↦ some (record {
        lease_id = found.lease_id;
        run_id = found.run_id;
        attempt_id = found.attempt_id;
        cancel_requested = found.cancel_requested;
      })
    ])
