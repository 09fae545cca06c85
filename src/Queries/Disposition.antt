-- ===== src/Queries/Disposition.antt =====
-- crates/gum-store/src/queries.rs: what becomes of a run when one of its attempts ends.
use Prim.Native.String.{◌++◌ as append}
use gum.Prelude.{
  ℕ, ◌/◌, ◌≡◌, ◌||◌, is_some, Bool, true, false, not, ◌&&◌, Option, none, some, String, arith, ltb,
  leb, if◌then◌else◌, unwrap_or,
}
use gum.Prelude.Int.{ℤ, pos, add_i64}
use gum.Text.Decimal.{format}
use gum.Types.{RunStatus, AttemptStatus, run_status_eq}
use gum.Models.{FunctionHealthState, FunctionHealthRecord}
use gum.Queries.Failure.{
  is_retryable_failure_class, is_infrastructure_failure_class, function_health_hold_delay_ms,
}
use gum.Queries.Backoff.{retry_backoff_delay_ms}

pub record RetryDisposition : Type 0 where
  pub next_status : RunStatus
  pub failure_reason : Option String
  pub failure_class : Option String
  pub retry_after_epoch_ms : Option ℤ
  pub waiting_for_scope_key : Option String
  pub finished_now : Bool

-- `matches!(health.state, Degraded | Down)`
unfoldable pub is_unhealthy : FunctionHealthState → Bool
is_unhealthy FunctionHealthState.healthy = false
is_unhealthy FunctionHealthState.degraded = true
is_unhealthy FunctionHealthState.down = true

unfoldable pub function_is_unhealthy : Option FunctionHealthRecord → Bool
unfolding is_unhealthy
function_is_unhealthy none = false
function_is_unhealthy (some health) = is_unhealthy health.state

unfoldable pub hold_until : Option FunctionHealthRecord → ℤ → ℤ
hold_until none now = add_i64 now function_health_hold_delay_ms
hold_until (some health) now =
    unwrap_or health.hold_until_epoch_ms (add_i64 now function_health_hold_delay_ms)

unfoldable pub health_job : Option FunctionHealthRecord → Option String
health_job none = none
health_job (some health) = some health.job_id

unfoldable pub retry_reason : Option String → ℕ → String
retry_reason (some class) delay_ms =
    append "retrying after " (append class (append " in " (append (format (delay_ms / 1000)) "s")))
retry_reason none delay_ms = append "retrying in " (append (format (delay_ms / 1000)) "s")

-- The arm of `Failed | TimedOut`.
unfoldable pub failed_disposition :
    String
    → ℕ
    → ℕ
    → RunStatus
    → Option String
    → Option String
    → Option FunctionHealthRecord
    → ℤ
    → RetryDisposition
failed_disposition run_id attempt_count max_attempts terminal_status reason class health now =
    if leb max_attempts attempt_count || not (is_retryable_failure_class class)
    then record {
      next_status = terminal_status;
      failure_reason = reason;
      failure_class = class;
      retry_after_epoch_ms = none;
      waiting_for_scope_key = none;
      finished_now = true;
    }
    else if function_is_unhealthy health && is_infrastructure_failure_class class
    then record {
      next_status = RunStatus.queued;
      failure_reason = some "waiting for function health recovery";
      failure_class = some "blocked_by_downstream";
      retry_after_epoch_ms = some (hold_until health now);
      waiting_for_scope_key = health_job health;
      finished_now = false;
    }
    else record {
      next_status = RunStatus.queued;
      failure_reason =
          some (retry_reason class (retry_backoff_delay_ms run_id attempt_count class));
      failure_class = class;
      retry_after_epoch_ms =
          some (add_i64 now (pos (retry_backoff_delay_ms run_id attempt_count class)));
      waiting_for_scope_key = none;
      finished_now = false;
    }

unfoldable pub compute_retry_disposition :
    String
    → ℕ
    → ℕ
    → AttemptStatus
    → Option String
    → Option String
    → Option FunctionHealthRecord
    → ℤ
    → RetryDisposition
unfolding failed_disposition
compute_retry_disposition run_id attempt_count max_attempts AttemptStatus.succeeded reason class
      health now =
    record {
      next_status = RunStatus.succeeded;
      failure_reason = none;
      failure_class = none;
      retry_after_epoch_ms = none;
      waiting_for_scope_key = none;
      finished_now = true;
    }
compute_retry_disposition run_id attempt_count max_attempts AttemptStatus.canceled reason class
      health now =
    record {
      next_status = RunStatus.canceled;
      failure_reason = reason;
      failure_class = class;
      retry_after_epoch_ms = none;
      waiting_for_scope_key = none;
      finished_now = true;
    }
compute_retry_disposition run_id attempt_count max_attempts AttemptStatus.failed reason class health
      now =
    failed_disposition run_id attempt_count max_attempts RunStatus.failed reason class health now
compute_retry_disposition run_id attempt_count max_attempts AttemptStatus.timed_out reason class
      health now =
    failed_disposition run_id attempt_count max_attempts RunStatus.timed_out reason class health now
compute_retry_disposition run_id attempt_count max_attempts status reason class health now =
    record {
      next_status = RunStatus.queued;
      failure_reason = reason;
      failure_class = class;
      retry_after_epoch_ms = none;
      waiting_for_scope_key = none;
      finished_now = false;
    }

-- `is_terminal_attempt` of memory.rs.
unfoldable pub is_terminal_attempt : AttemptStatus → Bool
is_terminal_attempt AttemptStatus.queued = false
is_terminal_attempt AttemptStatus.leased = false
is_terminal_attempt AttemptStatus.running = false
is_terminal_attempt status = true

-- The statuses from which a run does not move on.
unfoldable pub is_terminal_run : RunStatus → Bool
is_terminal_run RunStatus.queued = false
is_terminal_run RunStatus.running = false
is_terminal_run status = true

-- Whether the end of an attempt with this status and class calls for another attempt.
unfoldable pub wants_retry : AttemptStatus → Option String → Bool
wants_retry AttemptStatus.failed class = is_retryable_failure_class class
wants_retry AttemptStatus.timed_out class = is_retryable_failure_class class
wants_retry status class = false

module _ (run_id : String) (count max : ℕ) (status : AttemptStatus) (reason class : Option String)
    (health : Option FunctionHealthRecord) (now : ℤ) where
  abbrev outcome : RetryDisposition
  outcome = compute_retry_disposition run_id count max status reason class health now

  -- After a terminal report the run is queued again exactly if it has attempts left and the status
  -- and class of the failure call for another.
  pub disposition_requeues :
      is_terminal_attempt status ≡ true
      → run_status_eq outcome.next_status RunStatus.queued
        ≡ (ltb count max && wants_retry status class)
  unfolding compute_retry_disposition is_terminal_attempt wants_retry run_status_eq
  disposition_requeues h = ground arith

  -- After a terminal report the disposition says that the run is finished exactly if its next
  -- status is terminal, and exactly if it sets no time for a retry.
  pub disposition_finished :
      is_terminal_attempt status ≡ true
      → (outcome.finished_now ≡ is_terminal_run outcome.next_status)
        × (outcome.finished_now ≡ not (is_some outcome.retry_after_epoch_ms))
  unfolding compute_retry_disposition is_terminal_attempt is_terminal_run
  disposition_finished h = ground arith
