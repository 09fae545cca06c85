-- ===== src/Store/Instance.antt =====
-- crates/gum-store/src/memory.rs: `impl GumStore for MemoryStore`.
use gum.Queries.Schedule.Cron.{Calendar}
use gum.Queries.GumStore.{GumStore}
use gum.Store.{MemoryStore}
use gum.Store.Deploys.{
  register_deploy, upsert_provider_target, record_provider_check, set_provider_health,
  set_function_health, get_function_health, set_deploy_status, append_log, list_run_logs, get_job,
  get_run, get_deploy,
}
use gum.Store.Runners.{
  register_runner, heartbeat_runner, try_acquire_control_lease, get_lease_state,
}
use gum.Store.Enqueue.{enqueue_run, replay_run}
use gum.Store.Lease.{LeaseClock, lease_next_attempt}
use gum.Store.Complete.{complete_attempt}
use gum.Store.Cancel.{cancel_run}
use gum.Store.Recover.{recover_lost_attempts}
use gum.Store.Tick.{tick_schedules}
use gum.Store.Listings.{
  list_provider_targets, list_provider_health, list_deploys_by_status, list_recent_runs,
  list_recent_runs_for_project, list_runners, list_active_leases,
}
use gum.Store.Listings.Limits.{list_concurrency_status, list_rate_limit_status}

module _ {Json : Type 0} where
  abbrev pub memory_store : Json → Calendar → GumStore Json
  memory_store empty_object calendar = record {
    State = MemoryStore Json;
    Clock = LeaseClock;
    register_deploy = register_deploy;
    upsert_provider_target = upsert_provider_target;
    record_provider_check = record_provider_check;
    set_provider_health = set_provider_health;
    set_function_health = set_function_health;
    get_function_health = get_function_health;
    list_provider_targets = list_provider_targets;
    list_provider_health = list_provider_health;
    register_runner = register_runner;
    heartbeat_runner = heartbeat_runner;
    try_acquire_control_lease = try_acquire_control_lease;
    get_job = get_job;
    get_run = get_run;
    get_deploy = get_deploy;
    set_deploy_status = set_deploy_status;
    get_lease_state = get_lease_state;
    list_deploys_by_status = list_deploys_by_status;
    list_recent_runs = list_recent_runs;
    list_recent_runs_for_project = list_recent_runs_for_project;
    list_runners = list_runners;
    list_active_leases = list_active_leases;
    list_concurrency_status = list_concurrency_status;
    list_rate_limit_status = list_rate_limit_status;
    enqueue_run = enqueue_run;
    replay_run = replay_run;
    lease_next_attempt = lease_next_attempt;
    complete_attempt = complete_attempt;
    cancel_run = cancel_run;
    recover_lost_attempts = recover_lost_attempts;
    tick_schedules = λ s now. tick_schedules empty_object calendar now s;
    append_log = append_log;
    list_run_logs = list_run_logs;
  }
