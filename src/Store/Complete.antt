-- ===== src/Store/Complete.antt =====
-- crates/gum-store/src/memory.rs: `complete_attempt`, the report of a runner on its attempt. An error
-- in a later step leaves what the earlier steps have written.
pub mod Parts
pub mod Refine
pub mod Twice
use gum.Prelude.{not, ◌&&◌, ◌||◌, Option, none, some, String, if◌then◌else◌, is_some}
use gum.Prelude.Int.{ℤ, leb_ℤ}
use gum.Map.{get, insert, modify}
use gum.Types.{AttemptStatus, attempt_status_eq, Result, ok, err, ◌>>=◌}
use gum.Models.{RunRecord, AttemptRecord, LeaseRecord, JobRecord, ProviderCheckStatus}
use gum.Queries.Params.{CompleteAttemptParams}
use gum.Queries.Failure.{is_provider_failure_class}
use gum.Queries.RateLimit.{ok_or, provider_slug_from_job}
use gum.Queries.Disposition.{RetryDisposition, compute_retry_disposition, is_terminal_attempt}
use gum.Store.{MemoryState, MemoryStore}
use gum.Store.Recover.{is_closed}
use gum.Store.Scope.{opt_str_eq}
use gum.Store.Signals.{
  apply_function_signal_locked, apply_provider_signal_locked, function_health_for_job,
}

-- The checks on the attempt, in their order.
check_attempt : CompleteAttemptParams → AttemptRecord → Result String
check_attempt params attempt =
    if is_some attempt.finished_at_epoch_ms || is_terminal_attempt attempt.status
    then err "attempt already finished"
    else if is_some attempt.cancel_requested_at_epoch_ms
        && not (attempt_status_eq params.status AttemptStatus.canceled)
    then err "attempt cancel requested"
    else if not (opt_str_eq attempt.runner_id (some params.runner_id))
    then err "runner mismatch"
    else ok_or attempt.lease_id "attempt lease missing"

-- The checks on its lease: the lease's identifier, if the lease is good.
check_lease : ℤ → String → LeaseRecord → Result String
check_lease now lease_id lease =
    if is_closed lease || leb_ℤ lease.expires_at_epoch_ms now
    then err "attempt lease no longer valid"
    else ok lease_id

finish_attempt : CompleteAttemptParams → ℤ → AttemptRecord → AttemptRecord
finish_attempt params now attempt = record attempt {
  status = params.status;
  failure_reason = params.failure_reason;
  failure_class = params.failure_class;
  finished_at_epoch_ms = some now;
}

close_lease : ℤ → LeaseRecord → LeaseRecord
close_lease now lease = record lease {
  acked_at_epoch_ms = some now;
  released_at_epoch_ms = some now;
}

module _ {Json : Type 0} where
  -- What may be reported: the attempt and its lease's identifier.
  pub preflight : MemoryState Json → CompleteAttemptParams → ℤ → Result (AttemptRecord × String)
  unfolding check_attempt check_lease
  preflight state params now = do
    attempt ← ok_or (get params.attempt_id state.attempts) "attempt not found"
    lease_id ← check_attempt params attempt
    lease ← ok_or (get lease_id state.leases) "attempt lease missing"
    good ← check_lease now lease_id lease
    ok (attempt, good)

  -- The attempt and its lease as the report leaves them.
  write_attempt :
      MemoryState Json → CompleteAttemptParams → ℤ → AttemptRecord → String → MemoryState Json
  unfolding finish_attempt close_lease
  write_attempt state params now attempt lease_id = record state {
    attempts = insert params.attempt_id (finish_attempt params now attempt) state.attempts;
    leases = modify lease_id (close_lease now) state.leases;
  }

  -- A failure counts against the provider if its class is one of the provider's.
  signal_provider : MemoryStore Json → CompleteAttemptParams → ℤ → Option String → MemoryStore Json
  signal_provider s params now none = s
  signal_provider s params now (some provider_slug) =
      if attempt_status_eq params.status AttemptStatus.succeeded
      then apply_provider_signal_locked s provider_slug ProviderCheckStatus.success none now
      else if is_provider_failure_class params.failure_class
      then apply_provider_signal_locked s provider_slug ProviderCheckStatus.failure
          params.failure_class now
      else s

  pub signal :
      MemoryStore Json → CompleteAttemptParams → ℤ → JobRecord → Option String → MemoryStore Json
  unfolding signal_provider
  signal s params now job provider_slug =
      signal_provider
        (record s {
          state =
              apply_function_signal_locked s.state job.id params.failure_class params.status now;
        })
        params now provider_slug

  disposition_for :
      MemoryState Json → CompleteAttemptParams → ℤ → RunRecord Json → JobRecord → RetryDisposition
  disposition_for state params now run job =
      compute_retry_disposition run.id run.attempt_count run.max_attempts params.status
        params.failure_reason params.failure_class (function_health_for_job state job.id) now

  dispose_run : RetryDisposition → RunRecord Json → RunRecord Json
  dispose_run disposition run = record run {
    status = disposition.next_status;
    failure_reason = disposition.failure_reason;
    failure_class = disposition.failure_class;
    retry_after_epoch_ms = disposition.retry_after_epoch_ms;
    waiting_for_provider_slug = disposition.waiting_for_scope_key;
  }

  -- The last step: only a terminal status reaches the run.
  write_run :
      MemoryState Json
      → CompleteAttemptParams
      → RetryDisposition
      → AttemptRecord
      → Option (RunRecord Json)
      → Result (AttemptRecord × RunRecord Json) × MemoryState Json
  unfolding dispose_run
  write_run state params disposition attempt none = (err "run not found", state)
  write_run state params disposition attempt (some run) =
      if is_terminal_attempt params.status
      then (
        ok (attempt, dispose_run disposition run),
        record state { runs = insert attempt.run_id (dispose_run disposition run) state.runs },
      )
      else (err "attempt completion requires terminal status", state)

  settle :
      MemoryStore Json
      → CompleteAttemptParams
      → ℤ
      → AttemptRecord
      → RunRecord Json
      → JobRecord
      → Result (Option String)
      → Result (AttemptRecord × RunRecord Json) × MemoryStore Json
  unfolding signal disposition_for write_run
  settle s params now attempt run job (err e) = (err e, s)
  settle s params now attempt run job (ok provider_slug) =
      let s' = signal s params now job provider_slug in
      let disposition = disposition_for s'.state params now run job in
      let (result, state) =
        write_run s'.state params disposition attempt (get attempt.run_id s'.state.runs) in
      (result, record s' { state = state })

  settle_job :
      MemoryStore Json
      → CompleteAttemptParams
      → ℤ
      → AttemptRecord
      → RunRecord Json
      → Option JobRecord
      → Result (AttemptRecord × RunRecord Json) × MemoryStore Json
  unfolding settle
  settle_job s params now attempt run none = (err "job not found", s)
  settle_job s params now attempt run (some job) =
      settle s params now attempt run job (provider_slug_from_job job)

  settle_run :
      MemoryStore Json
      → CompleteAttemptParams
      → ℤ
      → AttemptRecord
      → Option (RunRecord Json)
      → Result (AttemptRecord × RunRecord Json) × MemoryStore Json
  unfolding settle_job
  settle_run s params now attempt none = (err "run not found", s)
  settle_run s params now attempt (some run) =
      settle_job s params now attempt run (get run.job_id s.state.jobs)

  complete_checked :
      MemoryStore Json
      → CompleteAttemptParams
      → ℤ
      → Result (AttemptRecord × String)
      → Result (AttemptRecord × RunRecord Json) × MemoryStore Json
  unfolding settle_run write_attempt
  complete_checked s params now (err e) = (err e, s)
  complete_checked s params now (ok (attempt, lease_id)) =
      let s' = record s { state = write_attempt s.state params now attempt lease_id } in
      settle_run s' params now (finish_attempt params now attempt) (get attempt.run_id s.state.runs)

  unfoldable pub complete_attempt :
      MemoryStore Json
      → CompleteAttemptParams
      → ℤ
      → Result (AttemptRecord × RunRecord Json) × MemoryStore Json
  unfolding complete_checked preflight
  complete_attempt s params now = complete_checked s params now (preflight s.state params now)
