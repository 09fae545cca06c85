-- ===== src/Examples/Histories.antt =====
-- The theorems on histories, at the small run.
use gum.Prelude.{true, none, [], refl, ◌≤◌, ◌≡◌, some, arith}
use gum.Prelude.Int.{pos, add_i64, secs_to_ms, wrap_i64, ◌+ℤ◌}
use gum.Map.{get, insert, values, modify}
use gum.Text.Decimal.{format}
use gum.Store.Recover.{recover_lost_attempts_locked, is_running, is_closed}
use gum.Models.{RunRecord, JobRecord}
use gum.Types.{TriggerType, RunStatus, run_status_eq, attempt_status_eq}
use gum.Store.{MemoryStore, default, identifier, next_number, next_id}
use gum.Store.Deploys.{insert_project, register_deploy}
use gum.Store.Runners.{register_runner}
use gum.Store.Enqueue.{enqueue_run, attempts_allowed}
use gum.Store.Lease.{lease_next_attempt, class_fits, fits_runner, below_limit, is_after}
use gum.Store.Scope.{
  active_cpu_cores, active_memory_mb, active_on_runner, active_for_job, job_cpu_cores,
  job_memory_mb, opt_str_eq,
}
use gum.Prelude.Lists.{count, find}
use gum.Store.Signals.{apply_function_signal_locked, function_health_for_job}
use gum.Queries.Disposition.{is_terminal_run, is_terminal_attempt, compute_retry_disposition}
use gum.Queries.RateLimit.{provider_slug_from_job}
use gum.Store.Complete.{complete_attempt}
use gum.Lifecycle.Single.{open_attempts, running_bit}
use gum.Lifecycle.Final.{status_of}
use gum.History.{
  History, begin, called, deployed, Calls, none_yet, call, insert_project_call,
  register_runner_call, enqueue_run_call, lease_next_attempt_call, complete_attempt_call,
  cancel_run_call,
}
use gum.History.Guarantees.{
  one_running_attempt, attempts_within_allowance, terminal_run_stays, concurrency_limit_kept,
}
use gum.History.Invariant.{DeploysFit}
use gum.Lifecycle.{core}
use gum.Lifecycle.Attempted.{attempts_made}
use gum.Lifecycle.Concurrency.{Limited, unstarted-Limited}
use gum.Store.Cancel.{cancel_run}
use gum.Examples.{
  Plain, no_calendar, project, deploy, runner, mail, lease_params, at_once, success, cancel_mail,
  ready, busy, done,
}

unfoldable pub past_ready : History {Json = Plain} tt no_calendar default 1 ready
past_ready =
    called (deployed deploy (pos 1000) (called begin (insert_project_call project)))
      (register_runner_call runner (pos 1000))

unfoldable pub past_busy : History {Json = Plain} tt no_calendar default 4 busy
past_busy =
    called (called past_ready (enqueue_run_call mail (pos 1500)))
      (lease_next_attempt_call lease_params at_once)

unfoldable pub past_done : History {Json = Plain} tt no_calendar default 5 done
past_done = called past_busy (complete_attempt_call success (pos 3000))

abbrev canceled : MemoryStore Plain
canceled = (cancel_run done cancel_mail).1

future_canceled : History tt no_calendar done 0 canceled
future_canceled = called begin (cancel_run_call cancel_mail)

abbrev busy_run : RunRecord Plain
busy_run = record {
  id = "run_2";
  project_id = "p";
  job_id = "mail";
  deploy_id = "dep_1";
  trigger_type = TriggerType.enqueue;
  status = RunStatus.running;
  input_json = tt;
  attempt_count = 1;
  max_attempts = 2;
  scheduled_at_epoch_ms = pos 1500;
  failure_reason = none;
  failure_class = none;
  retry_after_epoch_ms = none;
  waiting_for_provider_slug = none;
  replay_of_run_id = none;
}

running_now : get "run_2" busy.state.runs ≡ some busy_run
unfolding insert_project register_deploy register_runner enqueue_run lease_next_attempt
    complete_attempt get insert values identifier next_number next_id format
    recover_lost_attempts_locked class_fits active_cpu_cores active_memory_mb active_on_runner
    active_for_job count run_status_eq attempt_status_eq job_cpu_cores job_memory_mb fits_runner
    below_limit is_running find modify opt_str_eq is_terminal_attempt apply_function_signal_locked
    function_health_for_job compute_retry_disposition provider_slug_from_job is_after add_i64
    secs_to_ms is_closed wrap_i64 ◌+ℤ◌ attempts_allowed
running_now = refl

over : status_of (get "run_2" done.state.runs) ≡ some RunStatus.succeeded
unfolding insert_project register_deploy register_runner enqueue_run lease_next_attempt
    complete_attempt get insert values identifier next_number next_id format
    recover_lost_attempts_locked class_fits active_cpu_cores active_memory_mb active_on_runner
    active_for_job count run_status_eq attempt_status_eq job_cpu_cores job_memory_mb fits_runner
    below_limit is_running find modify opt_str_eq is_terminal_attempt apply_function_signal_locked
    function_health_for_job compute_retry_disposition provider_slug_from_job is_after add_i64
    secs_to_ms is_closed wrap_i64 ◌+ℤ◌
over = refl

one_running_attempt_example :
    open_attempts busy.state.attempts "run_2" ≤ running_bit (get "run_2" busy.state.runs)
unfolding DeploysFit past_busy past_ready
one_running_attempt_example =
    one_running_attempt past_busy (omega arith) ((omega arith, tt), tt) "run_2"

attempts_within_allowance_example :
    (attempts_made busy.state.attempts "run_2" ≤ busy_run.attempt_count)
    × (busy_run.attempt_count ≤ busy_run.max_attempts)
unfolding DeploysFit past_busy past_ready
attempts_within_allowance_example =
    attempts_within_allowance past_busy (omega arith) ((omega arith, tt), tt) "run_2" busy_run
      running_now

terminal_run_stays_example : status_of (get "run_2" canceled.state.runs) ≡ some RunStatus.succeeded
unfolding DeploysFit past_busy past_ready past_done future_canceled is_terminal_run
terminal_run_stays_example =
    terminal_run_stays past_done future_canceled (omega arith) ((omega arith, tt), tt) tt "run_2"
      RunStatus.succeeded over refl

future_busy : Calls tt no_calendar ready 3 busy
future_busy =
    call (call none_yet (enqueue_run_call mail (pos 1500)))
      (lease_next_attempt_call lease_params at_once)

abbrev pub mail_record : JobRecord
mail_record = record {
  id = "mail";
  project_id = "p";
  deploy_id = "dep_1";
  name = "mail";
  handler_ref = "app:mail";
  trigger_mode = "both";
  schedule_expr = none;
  retries = 1;
  timeout_secs = 60;
  rate_limit_spec = none;
  concurrency_limit = some 1;
  cpu_cores = none;
  memory_mb = none;
  key_field = none;
  compute_class = none;
  required_secret_names = [];
  enabled = true;
  created_at_epoch_ms = pos 1000;
}

job_there : get "mail" busy.state.jobs ≡ some mail_record
unfolding insert_project register_deploy register_runner enqueue_run lease_next_attempt
    complete_attempt get insert values identifier next_number next_id format
    recover_lost_attempts_locked class_fits active_cpu_cores active_memory_mb active_on_runner
    active_for_job count run_status_eq attempt_status_eq job_cpu_cores job_memory_mb fits_runner
    below_limit is_running find modify opt_str_eq is_terminal_attempt apply_function_signal_locked
    function_health_for_job compute_retry_disposition provider_slug_from_job is_after add_i64
    secs_to_ms is_closed wrap_i64 ◌+ℤ◌
job_there = refl

ready-Limited : Limited (core ready)
unfolding insert_project register_deploy register_runner enqueue_run lease_next_attempt
    complete_attempt get insert values identifier next_number next_id format
    recover_lost_attempts_locked class_fits active_cpu_cores active_memory_mb active_on_runner
    active_for_job count run_status_eq attempt_status_eq job_cpu_cores job_memory_mb fits_runner
    below_limit is_running find modify opt_str_eq is_terminal_attempt apply_function_signal_locked
    function_health_for_job compute_retry_disposition provider_slug_from_job is_after add_i64
    secs_to_ms is_closed wrap_i64 ◌+ℤ◌
ready-Limited = unstarted-Limited (core ready) refl ((λ limit e. ground arith), tt)

concurrency_limit_kept_example : active_for_job busy.state.runs busy.state.attempts "mail" ≤ 1
unfolding DeploysFit past_ready
concurrency_limit_kept_example =
    concurrency_limit_kept past_ready future_busy (omega arith) ((omega arith, tt), tt)
      ready-Limited "mail" mail_record 1 job_there refl
