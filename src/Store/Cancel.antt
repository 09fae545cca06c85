-- ===== src/Store/Cancel.antt =====
-- crates/gum-store/src/memory.rs: `cancel_run`. A queued run ends at once; a running one is asked to.
pub mod Refine
pub mod Outcome
use gum.Prelude.{Bool, ◌&&◌, Option, none, some, String, str_eq}
use gum.Prelude.Int.{ℤ}
use gum.Prelude.Lists.{find}
use gum.Map.{get, insert, modify, values}
use gum.Types.{RunStatus, Result, ok, err}
use gum.Models.{RunRecord, AttemptRecord, LeaseRecord}
use gum.Queries.Params.{CancelRunParams}
use gum.Store.{MemoryState, MemoryStore}
use gum.Store.Recover.{is_running}

request_cancel : ℤ → AttemptRecord → AttemptRecord
request_cancel at attempt = record attempt { cancel_requested_at_epoch_ms = some at }

request_revoke : ℤ → LeaseRecord → LeaseRecord
request_revoke at lease = record lease { revoke_requested_at_epoch_ms = some at }

is_running_for : String → AttemptRecord → Bool
is_running_for run_id attempt = str_eq attempt.run_id run_id && is_running attempt

module _ {Json : Type 0} where
  cancel_queued : RunRecord Json → RunRecord Json
  cancel_queued run = record run {
    status = RunStatus.canceled;
    failure_reason = some "canceled";
    failure_class = none;
    retry_after_epoch_ms = none;
    waiting_for_provider_slug = none;
  }

  mark_requested : RunRecord Json → RunRecord Json
  mark_requested run = record run { failure_reason = some "cancel requested"; failure_class = none }

  pub revoke_lease : MemoryState Json → ℤ → Option String → MemoryState Json
  unfolding request_revoke
  revoke_lease state at none = state
  revoke_lease state at (some lease_id) = record state {
    leases = modify lease_id (request_revoke at) state.leases;
  }

  finish_cancel :
      MemoryState Json
      → String
      → Option (RunRecord Json)
      → Result (RunRecord Json) × MemoryState Json
  unfolding mark_requested
  finish_cancel state run_id none = (err "run disappeared", state)
  finish_cancel state run_id (some run) = (
    ok (mark_requested run),
    record state { runs = insert run_id (mark_requested run) state.runs },
  )

  -- `attempt_id` is the identifier of the attempt that was found; it is looked up again.
  cancel_attempt :
      MemoryState Json
      → CancelRunParams
      → String
      → Option AttemptRecord
      → Result (RunRecord Json) × MemoryState Json
  unfolding request_cancel revoke_lease finish_cancel
  cancel_attempt state params attempt_id none = (err "running attempt disappeared", state)
  cancel_attempt state params attempt_id (some attempt) =
      let state' =
        revoke_lease
          (record state {
            attempts =
                insert attempt_id (request_cancel params.requested_at_epoch_ms attempt)
                  state.attempts;
          })
          params.requested_at_epoch_ms attempt.lease_id in
      finish_cancel state' params.run_id (get params.run_id state'.runs)

  cancel_running :
      MemoryState Json
      → CancelRunParams
      → Option AttemptRecord
      → Result (RunRecord Json) × MemoryState Json
  unfolding cancel_attempt
  cancel_running state params none = (err "running attempt not found", state)
  cancel_running state params (some found) =
      cancel_attempt state params found.id (get found.id state.attempts)

  cancel_by_status :
      MemoryState Json
      → CancelRunParams
      → RunRecord Json
      → RunStatus
      → Result (RunRecord Json) × MemoryState Json
  unfolding cancel_running cancel_queued is_running_for
  cancel_by_status state params run RunStatus.queued = (
    ok (cancel_queued run),
    record state { runs = insert params.run_id (cancel_queued run) state.runs },
  )
  cancel_by_status state params run RunStatus.running =
      cancel_running state params (find (is_running_for params.run_id) (values state.attempts))
  cancel_by_status state params run status = (err "run already finished", state)

  cancel_found :
      MemoryState Json
      → CancelRunParams
      → Option (RunRecord Json)
      → Result (RunRecord Json) × MemoryState Json
  unfolding cancel_by_status
  cancel_found state params none = (err "run not found", state)
  cancel_found state params (some run) = cancel_by_status state params run run.status

  pub cancel_run : MemoryStore Json → CancelRunParams → Result (RunRecord Json) × MemoryStore Json
  unfolding cancel_found
  cancel_run s params =
      let (result, state) = cancel_found s.state params (get params.run_id s.state.runs) in
      (result, record s { state = state })
