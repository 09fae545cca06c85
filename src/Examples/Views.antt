-- ===== src/Examples/Views.antt =====
-- The theorems on listings and on leasing, at the small run.
use gum.Prelude.{◌%◌, ◌^◌, ◌≡◌, refl, true, false, some, none, List, arith, leb}
use gum.Prelude.Int.{pos, add_i64, secs_to_ms, wrap_i64, ◌+ℤ◌}
use gum.Prelude.Lists.{count, find, All}
use gum.Map.{get, insert, values, modify}
use gum.Text.Decimal.{format}
use gum.Types.{TriggerType, RunStatus, ok, run_status_eq, attempt_status_eq}
use gum.Models.{RunRecord, RunnerRecord, ConcurrencyStatusRecord}
use gum.Store.{identifier, next_number, next_id}
use gum.Store.Deploys.{insert_project, register_deploy}
use gum.Store.Runners.{register_runner}
use gum.Store.Recover.{recover_lost_attempts_locked, is_running, is_closed}
use gum.Store.Enqueue.{enqueue_run, attempts_allowed}
use gum.Store.Lease.{
  Leased, lease_next_attempt, class_fits, fits_runner, below_limit, is_after, eligible, recovered,
}
use gum.Store.Lease.Progress.{Readable, lease_next_attempt-leases}
use gum.Store.Scope.{
  active_cpu_cores, active_memory_mb, active_on_runner, active_for_job, job_cpu_cores,
  job_memory_mb, opt_str_eq,
}
use gum.Store.Listings.{list_recent_runs}
use gum.Store.Listings.Recent.{IsNewest, list_recent_runs-IsNewest}
use gum.Store.Listings.Limits.{list_concurrency_status}
use gum.Store.Listings.Active.{ShowsActive}
use gum.History.Invariant.{DeploysFit}
use gum.History.Views.{concurrency_listing_exact}
use gum.Examples.{Plain, lease_params, at_once, waiting, busy}
use gum.Examples.Histories.{past_ready, past_busy}
use gum.Examples.Operations.{waiting_past}

concurrency_listing_exact_example :
    (statuses : List ConcurrencyStatusRecord) × (list_concurrency_status busy ≡ ok statuses)
    × All (ShowsActive busy.state) statuses
unfolding DeploysFit past_busy past_ready
concurrency_listing_exact_example =
    concurrency_listing_exact past_busy (omega arith) ((omega arith, tt), tt)

list_recent_runs-IsNewest_example :
    (listed : List (RunRecord Plain)) × (list_recent_runs busy 1 ≡ ok listed)
    × IsNewest 1 (values busy.state.runs) listed
list_recent_runs-IsNewest_example = list_recent_runs-IsNewest busy 1

abbrev runner_record : RunnerRecord
runner_record = record {
  id = "r";
  compute_class = "standard";
  cpu_cores = 4;
  memory_mb = 4096;
  max_concurrent_leases = 2;
  heartbeat_timeout_secs = 30;
  last_heartbeat_at_epoch_ms = pos 1000;
}

abbrev waiting_run : RunRecord Plain
waiting_run = record {
  id = "run_2";
  project_id = "p";
  job_id = "mail";
  deploy_id = "dep_1";
  trigger_type = TriggerType.enqueue;
  status = RunStatus.queued;
  input_json = tt;
  attempt_count = 0;
  max_attempts = 2;
  scheduled_at_epoch_ms = pos 1500;
  failure_reason = none;
  failure_class = none;
  retry_after_epoch_ms = none;
  waiting_for_provider_slug = none;
  replay_of_run_id = none;
}

-- The runner has room for the run that waits.
record Ready : Type 0 where
  registered : get "r" (recovered waiting at_once).state.runners ≡ some runner_record
  free : leb 2 (active_on_runner (recovered waiting at_once).state.attempts "r" % 2 ^ 32) ≡ false
  found : get "run_2" (recovered waiting at_once).state.runs ≡ some waiting_run
  fits : eligible (recovered waiting at_once).state runner_record "r" at_once waiting_run ≡ ok true
  readable :
      All
        (Readable (recovered waiting at_once).state runner_record "r" at_once)
        (values (recovered waiting at_once).state.runs)

waiting_ready : Ready
unfolding insert_project register_deploy register_runner enqueue_run lease_next_attempt get insert
    values identifier next_number next_id format recover_lost_attempts_locked class_fits
    active_cpu_cores active_memory_mb active_on_runner active_for_job count run_status_eq
    attempt_status_eq job_cpu_cores job_memory_mb fits_runner below_limit is_running find modify
    opt_str_eq is_after add_i64 secs_to_ms is_closed wrap_i64 ◌+ℤ◌ attempts_allowed eligible
    recovered
waiting_ready = record {
  registered = refl;
  free = refl;
  found = refl;
  fits = refl;
  readable = (refl, tt);
}

lease_next_attempt-leases_example :
    (leased : Leased Plain) × ((lease_next_attempt waiting lease_params at_once).0
      ≡ ok (some leased))
lease_next_attempt-leases_example =
    lease_next_attempt-leases waiting waiting_past.sound.inv lease_params at_once runner_record
      "run_2" waiting_run waiting_ready.registered waiting_ready.free waiting_ready.found
      waiting_ready.fits waiting_ready.readable
