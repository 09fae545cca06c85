-- ===== src/Store/Cancel/Refine.antt =====
-- `cancel_run` of crates/gum-store/src/memory.rs against the abstract machine.
use gum.Prelude.{◌≡◌, refl, true, Option, none, some, String, arith}
use gum.Prelude.Int.{ℤ}
use gum.Prelude.Lists.{find, All-find}
use gum.Map.{get, insert, values}
use gum.Map.Keyed.{values-Keyed}
use gum.Types.{RunStatus}
use gum.Models.{RunRecord, AttemptRecord}
use gum.Queries.Params.{CancelRunParams}
use gum.Queries.Disposition.{is_terminal_run}
use gum.Store.{MemoryState, MemoryStore}
use gum.Store.Recover.{is_running}
use gum.Store.Cancel.{
  is_running_for, request_cancel, cancel_queued, mark_requested, revoke_lease, finish_cancel,
  cancel_attempt, cancel_running, cancel_by_status, cancel_found, cancel_run,
}
use gum.Lifecycle.Refine.{StoreInv, Refines, Refines-refl, Refines-trans, Refines-StoreInv}
use gum.Lifecycle.Steps.{report_step, note_step, withdraw_step}

pub revoke_lease_keeps :
    {Json : Type 0} (state : MemoryState Json) (at : ℤ) (lease_id : Option String)
    → ((revoke_lease state at lease_id).jobs ≡ state.jobs)
      × ((revoke_lease state at lease_id).runs ≡ state.runs)
      × ((revoke_lease state at lease_id).attempts ≡ state.attempts)
unfolding revoke_lease
revoke_lease_keeps state at none = (refl, refl, refl)
revoke_lease_keeps state at (some lease_id) = (refl, refl, refl)

module _ {Json : Type 0} (s : MemoryStore Json) (params : CancelRunParams) (h : StoreInv s) where
  finish_cancel-Refines :
      (run : Option (RunRecord Json))
      → get params.run_id s.state.runs ≡ run
      → Refines s (record s { state = (finish_cancel s.state params.run_id run).1 })
  unfolding finish_cancel
  finish_cancel-Refines none found = Refines-refl s h
  finish_cancel-Refines (some run) found =
      note_step h params.run_id run (mark_requested run) found
        (record { id = refl; job_id = refl; max_attempts = refl; scheduled = refl; trigger = refl })
        refl refl refl refl refl refl

module _ {Json : Type 0} (s : MemoryStore Json) (params : CancelRunParams) (h : StoreInv s) where
  -- The attempt's write, with its lease's.
  requested : String → AttemptRecord → MemoryStore Json
  requested attempt_id attempt = record s {
    state =
        revoke_lease
          (record s.state {
            attempts =
                insert attempt_id (request_cancel params.requested_at_epoch_ms attempt)
                  s.state.attempts;
          })
          params.requested_at_epoch_ms attempt.lease_id;
  }

  requested-Refines :
      (attempt_id : String) (attempt : AttemptRecord)
      → get attempt_id s.state.attempts ≡ some attempt
      → is_running attempt ≡ true
      → Refines s (requested attempt_id attempt)
  unfolding requested request_cancel is_running
  requested-Refines attempt_id attempt found running =
      let kept =
        revoke_lease_keeps
          (record s.state {
            attempts =
                insert attempt_id (request_cancel params.requested_at_epoch_ms attempt)
                  s.state.attempts;
          })
          params.requested_at_epoch_ms attempt.lease_id in
      report_step h attempt_id attempt (request_cancel params.requested_at_epoch_ms attempt) found
        running (record { id = refl; run_id = refl; settled = ground arith }) refl kept.0 kept.1
        kept.2

  cancel_attempt-Refines :
      (attempt_id : String) (attempt : AttemptRecord)
      → get attempt_id s.state.attempts ≡ some attempt
      → is_running attempt ≡ true
      → Refines s (record s { state = (cancel_attempt s.state params attempt_id (some attempt)).1 })
  unfolding cancel_attempt requested
  cancel_attempt-Refines attempt_id attempt found running =
      let step = requested-Refines attempt_id attempt found running in
      Refines-trans step (
        finish_cancel-Refines (requested attempt_id attempt) params (Refines-StoreInv h step)
          (get params.run_id (requested attempt_id attempt).state.runs) refl)

  cancel_running-Refines :
      (found : Option AttemptRecord)
      → find (is_running_for params.run_id) (values s.state.attempts) ≡ found
      → Refines s (record s { state = (cancel_running s.state params found).1 })
  unfolding cancel_running is_running_for
  cancel_running-Refines none e = Refines-refl s h
  cancel_running-Refines (some found) e =
      let (own, passes) =
        All-find (λ a. get a.id s.state.attempts ≡ some a) (is_running_for params.run_id)
          (values s.state.attempts) (values-Keyed (λ a. a.id) s.state.attempts h.inv.attempts_keyed)
          e in
      let running : is_running found ≡ true = ground arith in
      rw (own, cancel_running) (cancel_attempt-Refines found.id found own running)

  cancel_by_status-Refines :
      (run : RunRecord Json) (status : RunStatus)
      → run.status ≡ status
      → get params.run_id s.state.runs ≡ some run
      → Refines s (record s { state = (cancel_by_status s.state params run status).1 })
  unfolding cancel_by_status is_terminal_run
  cancel_by_status-Refines run RunStatus.queued e found =
      withdraw_step h params.run_id run (cancel_queued run) found e
        (record { id = refl; job_id = refl; max_attempts = refl; scheduled = refl; trigger = refl })
        refl refl refl refl refl refl
  cancel_by_status-Refines run RunStatus.running e found =
      cancel_running-Refines (find (is_running_for params.run_id) (values s.state.attempts)) refl
  cancel_by_status-Refines run _ e found = Refines-refl s h

  cancel_found-Refines :
      (run : Option (RunRecord Json))
      → get params.run_id s.state.runs ≡ run
      → Refines s (record s { state = (cancel_found s.state params run).1 })
  unfolding cancel_found
  cancel_found-Refines none e = Refines-refl s h
  cancel_found-Refines (some run) e = cancel_by_status-Refines run run.status refl e

  -- From a store that keeps the invariant, cancelling a run makes only moves of the abstract
  -- machine, whatever the run and its status.
  pub cancel_run-Refines : Refines s (cancel_run s params).1
  unfolding cancel_run
  cancel_run-Refines = cancel_found-Refines (get params.run_id s.state.runs) refl

  pub cancel_run_taken : (cancel_run s params).1.ids ≡ s.ids
  unfolding cancel_run
  cancel_run_taken = refl
