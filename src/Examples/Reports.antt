-- ===== src/Examples/Reports.antt =====
-- The theorem on repeated reports, at the small run.
use gum.Prelude.{true, false, none, refl, ◌≡◌, some, arith}
use gum.Prelude.Int.{pos, add_i64, secs_to_ms, wrap_i64, ◌+ℤ◌}
use gum.Map.{get, insert, values, modify}
use gum.Text.Decimal.{format}
use gum.Store.Recover.{recover_lost_attempts_locked, is_running, is_closed}
use gum.Models.{RunRecord}
use gum.Types.{TriggerType, RunStatus, run_status_eq, attempt_status_eq}
use gum.Store.{default, identifier, next_number, next_id}
use gum.Store.Deploys.{insert_project, register_deploy}
use gum.Store.Runners.{register_runner}
use gum.Store.Enqueue.{enqueue_run, attempts_allowed}
use gum.Store.Lease.{lease_next_attempt, class_fits, fits_runner, below_limit, is_after}
use gum.Store.Scope.{
  active_cpu_cores, active_memory_mb, active_on_runner, active_for_job, job_cpu_cores,
  job_memory_mb, opt_str_eq,
}
use gum.Prelude.Lists.{count, find}
use gum.Store.Signals.{apply_function_signal_locked, function_health_for_job}
use gum.Queries.Disposition.{is_terminal_attempt, compute_retry_disposition}
use gum.Queries.RateLimit.{provider_slug_from_job}
use gum.Store.Complete.{complete_attempt}
use gum.History.Invariant.{DeploysFit}
use gum.Store.Enqueue.Dedupe.{enqueue_dedupes}
use gum.Examples.Operations.{mail_run, mail_made}
use gum.Examples.{Plain, success, ready, waiting, mail, busy, done}
use gum.Store.Complete.Twice.{reported_once}
use gum.Models.{AttemptRecord}
use gum.Types.{AttemptStatus, ok, err}
use gum.History.Invariant.{Lasting, History-Lasting}
use gum.History.Guarantees.{default-Sound}
use gum.Examples.Histories.{past_ready, past_busy}

abbrev done_attempt : AttemptRecord
done_attempt = record {
  id = "att_3";
  run_id = "run_2";
  attempt_number = 1;
  status = AttemptStatus.succeeded;
  lease_id = some "lease_4";
  runner_id = some "r";
  started_at_epoch_ms = pos 2000;
  finished_at_epoch_ms = some (pos 3000);
  failure_reason = none;
  failure_class = none;
  cancel_requested_at_epoch_ms = none;
}

abbrev done_run : RunRecord Plain
done_run = record {
  id = "run_2";
  project_id = "p";
  job_id = "mail";
  deploy_id = "dep_1";
  trigger_type = TriggerType.enqueue;
  status = RunStatus.succeeded;
  input_json = tt;
  attempt_count = 1;
  max_attempts = 2;
  scheduled_at_epoch_ms = pos 1500;
  failure_reason = none;
  failure_class = none;
  retry_after_epoch_ms = none;
  waiting_for_provider_slug = none;
  replay_of_run_id = none;
}

first_report : complete_attempt busy success (pos 3000) ≡ (ok (done_attempt, done_run), done)
unfolding insert_project register_deploy register_runner enqueue_run lease_next_attempt
    complete_attempt get insert values identifier next_number next_id format
    recover_lost_attempts_locked class_fits active_cpu_cores active_memory_mb active_on_runner
    active_for_job count run_status_eq attempt_status_eq job_cpu_cores job_memory_mb fits_runner
    below_limit is_running find modify opt_str_eq is_terminal_attempt apply_function_signal_locked
    function_health_for_job compute_retry_disposition provider_slug_from_job is_after add_i64
    secs_to_ms is_closed wrap_i64 ◌+ℤ◌ attempts_allowed
first_report = refl

busy_room : Lasting default 4 busy
unfolding DeploysFit past_busy past_ready
busy_room = History-Lasting default-Sound (omega arith) past_busy ((omega arith, tt), tt)

reported_once_example :
    complete_attempt done success (pos 3100) ≡ (err "attempt already finished", done)
reported_once_example =
    reported_once busy done success success (pos 3000) (pos 3100) (done_attempt, done_run)
      (omega (arith, busy_room.taken)) first_report refl

-- The run has ended, and its key is still kept.
enqueue_dedupes_example :
    enqueue_run done mail (pos 9000) ≡ (ok (record { run = done_run; deduped = true }), done)
unfolding insert_project register_deploy register_runner enqueue_run lease_next_attempt
    complete_attempt get insert values identifier next_number next_id format
    recover_lost_attempts_locked class_fits active_cpu_cores active_memory_mb active_on_runner
    active_for_job count run_status_eq attempt_status_eq job_cpu_cores job_memory_mb fits_runner
    below_limit is_running find modify opt_str_eq is_terminal_attempt apply_function_signal_locked
    function_health_for_job compute_retry_disposition provider_slug_from_job is_after add_i64
    secs_to_ms is_closed wrap_i64 ◌+ℤ◌ attempts_allowed
enqueue_dedupes_example =
    enqueue_dedupes ready waiting done mail tt none "k" (pos 1500) (pos 9000)
      (record { run = mail_run; deduped = false }) done_run refl mail_made refl refl refl refl refl
