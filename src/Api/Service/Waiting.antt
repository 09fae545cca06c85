-- ===== src/Api/Service/Waiting.antt =====
-- crates/gum-api/src/service.rs: `run_response`, with the reason for which a run waits.
use gum.Prelude.{
  ◌%◌, ◌^◌, Bool, false, not, Option, none, some, String, leb, ◌==◌, is_some, if◌then◌else◌,
}
use gum.Prelude.Lists.{length}
use gum.Types.{RunStatus, run_status_eq}
use gum.Models.{RunRecord, ConcurrencyStatusRecord}
use gum.Store.Scope.{opt_str_eq}
use gum.Api.Routes.{RunResponse}

-- `ids.len() as u32 >= limit`, where the job has a limit
unfoldable pub at_limit : Option ConcurrencyStatusRecord → Bool
at_limit none = false
at_limit (some status) = leb status.concurrency_limit (length status.active_run_ids % 2 ^ 32)

module _ {Json : Type 0} where
  unfoldable pub derive_waiting_reason :
      RunRecord Json → Option ConcurrencyStatusRecord → Bool → Option String
  unfolding at_limit
  derive_waiting_reason run concurrency waiting_on_rate_limit =
      if not (run_status_eq run.status RunStatus.queued)
      then none
      else if opt_str_eq run.failure_class (some "blocked_by_downstream")
      then some "waiting_for_function_health"
      else if is_some run.retry_after_epoch_ms
      then if run.attempt_count == 0 then some "waiting_on_delay" else some "waiting_on_retry_delay"
      else if at_limit concurrency
      then some "waiting_on_concurrency"
      else if waiting_on_rate_limit
      then some "waiting_on_rate_limit"
      else none

  unfoldable pub run_response : RunRecord Json → Option ConcurrencyStatusRecord → Bool → RunResponse
  run_response run concurrency waiting_on_rate_limit = record {
    id = run.id;
    job_id = run.job_id;
    status = run.status;
    attempt = run.attempt_count;
    failure_reason = run.failure_reason;
    failure_class = run.failure_class;
    retry_after_epoch_ms = run.retry_after_epoch_ms;
    waiting_reason = derive_waiting_reason run concurrency waiting_on_rate_limit;
    waiting_for_provider_slug = run.waiting_for_provider_slug;
    replay_of = run.replay_of_run_id;
  }
