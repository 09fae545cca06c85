-- ===== src/Examples/Operations.antt =====
-- The theorems on the operations, at the small run.
use gum.Prelude.{List, refl, ◌≡◌, ◌<◌, ◌≤◌, true, false, some, none, arith}
use gum.Prelude.Int.{ℤ, pos, wrap_i64, ◌+ℤ◌, saturating_add, clamp_i64, secs_to_ms}
use gum.Types.{TriggerType, RunStatus, AttemptStatus, ok, run_status_eq}
use gum.Queries.Params.{ControlLeaseParams}
use gum.Queries.Failure.{
  is_provider_failure_class, is_retryable_failure_class, is_infrastructure_failure_class,
  infrastructure_failure_retries,
}
use gum.Queries.Backoff.{
  retry_backoff_delay_ms, retry_backoff_delay_ms_bounds, base_ms, capped_ms, capped_ms_mono,
}
use gum.Queries.Disposition.{
  compute_retry_disposition, disposition_requeues, disposition_finished, is_terminal_attempt,
  is_terminal_run, wants_retry,
}
use gum.Queries.Schedule.Interval.{interval_due}
use gum.Queries.Schedule.Interval.Times.{EveryStep, interval_due-EveryStep}
use gum.Store.{default, identifier, next_id, next_number}
use gum.Store.Cancel.{cancel_run}
use gum.Store.Cancel.Outcome.{Outcome as Canceled, cancel_run-Outcome}
use gum.Store.Recover.{recover_lost_attempts}
use gum.Store.Recover.Outcome.{IsRecovered, recover_lost_attempts-IsRecovered}
use gum.Store.Complete.Refine.{complete_attempt-Refines}
use gum.Store.Lease.{lease_next_attempt}
use gum.Store.Lease.Outcome.{Outcome as Leased, lease_next_attempt-Outcome}
use gum.Store.Enqueue.{enqueue_run, replay_run, attempts_allowed}
use gum.Store.Enqueue.Outcome.{Replays, replay_run-Replays}
use gum.Store.Runners.{register_runner, try_acquire_control_lease}
use gum.Store.Runners.Exclusive.{control_lease_exclusive}
use gum.Lifecycle.Refine.{Refines}
use gum.History.Invariant.{DeploysFit, Lasting, History-Lasting}
use gum.History.Guarantees.{default-Sound}
use gum.Map.{get, insert}
use gum.Models.{RunRecord}
use gum.Text.Decimal.{format}
use gum.Store.Deploys.{insert_project, register_deploy}
use gum.Examples.{
  Plain, mail, cancel_mail, lease_params, at_once, success, ready, waiting, busy, done,
}
use gum.Examples.Histories.{past_ready, past_busy}
use gum.History.{called, enqueue_run_call}

pub waiting_past : Lasting default 2 waiting
unfolding DeploysFit past_ready
waiting_past =
    History-Lasting default-Sound (omega arith)
      (called past_ready (enqueue_run_call mail (pos 1500))) ((omega arith, tt), tt)

pub busy_past : Lasting default 4 busy
unfolding DeploysFit past_busy past_ready
busy_past = History-Lasting default-Sound (omega arith) past_busy ((omega arith, tt), tt)

complete_attempt-Refines_example : Refines busy done
complete_attempt-Refines_example =
    complete_attempt-Refines busy busy_past.sound.inv (omega (arith, busy_past.taken)) success
      (pos 3000)

lease_next_attempt-Outcome_example :
    Leased
      (recover_lost_attempts waiting at_once.entered_at).1
      lease_params
      at_once
      (lease_next_attempt waiting lease_params at_once)
lease_next_attempt-Outcome_example =
    lease_next_attempt-Outcome waiting waiting_past.sound.inv (omega (arith, waiting_past.taken))
      lease_params at_once

cancel_run-Outcome_example :
    Canceled busy cancel_mail (get cancel_mail.run_id busy.state.runs) (cancel_run busy cancel_mail)
cancel_run-Outcome_example = cancel_run-Outcome busy cancel_mail busy_past.sound.inv

recover_lost_attempts-IsRecovered_example :
    IsRecovered busy (pos 100000) (recover_lost_attempts busy (pos 100000)).1
recover_lost_attempts-IsRecovered_example =
    recover_lost_attempts-IsRecovered busy (pos 100000) busy_past.sound.inv

replay_run-Replays_example :
    Replays waiting
      (get "run_2" waiting.state.runs)
      (replay_run waiting (record { source_run_id = "run_2" }) (pos 1600))
replay_run-Replays_example =
    replay_run-Replays waiting waiting_past.sound.inv (omega (arith, waiting_past.taken))
      (record { source_run_id = "run_2" }) (pos 1600)

abbrev pub mail_run : RunRecord Plain
mail_run = record {
  id = "run_2";
  project_id = "p";
  job_id = "mail";
  deploy_id = "dep_1";
  trigger_type = TriggerType.enqueue;
  status = RunStatus.queued;
  input_json = tt;
  attempt_count = 0;
  max_attempts = 2;
  scheduled_at_epoch_ms = pos 1500;
  failure_reason = none;
  failure_class = none;
  retry_after_epoch_ms = none;
  waiting_for_provider_slug = none;
  replay_of_run_id = none;
}

pub mail_made :
    enqueue_run ready mail (pos 1500) ≡ (ok (record { run = mail_run; deduped = false }), waiting)
unfolding insert_project register_deploy register_runner enqueue_run get insert identifier
    next_number next_id format attempts_allowed
mail_made = refl

abbrev scheduler : ControlLeaseParams
scheduler = record {
  lease_name = "scheduler";
  holder_id = "a";
  ttl_secs = 15;
  now_epoch_ms = pos 1000;
}

abbrev other_scheduler : ControlLeaseParams
other_scheduler = record {
  lease_name = "scheduler";
  holder_id = "b";
  ttl_secs = 15;
  now_epoch_ms = pos 2000;
}

control_lease_exclusive_example :
    try_acquire_control_lease (try_acquire_control_lease ready scheduler).1 other_scheduler
    ≡ (ok false, (try_acquire_control_lease ready scheduler).1)
unfolding try_acquire_control_lease insert_project register_deploy register_runner get insert
    saturating_add clamp_i64 ◌+ℤ◌ secs_to_ms wrap_i64
control_lease_exclusive_example =
    control_lease_exclusive ready (try_acquire_control_lease ready scheduler).1 scheduler
      other_scheduler refl refl refl refl

disposition_requeues_example :
    run_status_eq
      (compute_retry_disposition "run_2" 1 2 AttemptStatus.failed none
        (some "provider_5xx")
        none
        (pos 0)).next_status
      RunStatus.queued
    ≡ true
unfolding wants_retry is_retryable_failure_class is_terminal_attempt
disposition_requeues_example =
    disposition_requeues "run_2" 1 2 AttemptStatus.failed none (some "provider_5xx") none (pos 0)
      refl

disposition_finished_example :
    (compute_retry_disposition "run_2" 2 2 AttemptStatus.failed none
      (some "provider_5xx")
      none
      (pos 0)).finished_now
    ≡ is_terminal_run
        (compute_retry_disposition "run_2" 2 2 AttemptStatus.failed none
          (some "provider_5xx")
          none
          (pos 0)).next_status
unfolding is_terminal_attempt
disposition_finished_example =
    (disposition_finished "run_2" 2 2 AttemptStatus.failed none (some "provider_5xx") none (pos 0)
      refl).0

retry_backoff_delay_ms_bounds_example :
    (base_ms (some "provider_429") ≤ retry_backoff_delay_ms "run_2" 3 (some "provider_429"))
    × (2000 ≤ retry_backoff_delay_ms "run_2" 3 (some "provider_429"))
    × (retry_backoff_delay_ms "run_2" 3 (some "provider_429") < 360000)
retry_backoff_delay_ms_bounds_example =
    retry_backoff_delay_ms_bounds "run_2" 3 (some "provider_429")

capped_ms_mono_example : capped_ms 2 (some "job_timeout") ≤ capped_ms 5 (some "job_timeout")
capped_ms_mono_example = capped_ms_mono 2 3 (some "job_timeout")

infrastructure_failure_retries_example :
    (is_provider_failure_class (some "provider_429") ≡ true)
    × (is_retryable_failure_class (some "provider_429") ≡ true)
unfolding is_infrastructure_failure_class
infrastructure_failure_retries_example = infrastructure_failure_retries (some "provider_429") refl

interval_due-EveryStep_example :
    (due : List ℤ) × (interval_due (pos 1000) (pos 500) (pos 2100) ≡ some due)
    × EveryStep 1000 500 2100 due
interval_due-EveryStep_example = interval_due-EveryStep 1000 500 2100 (omega arith) (omega arith)
