-- ===== src/Store/Complete/Refine.antt =====
-- `complete_attempt` of crates/gum-store/src/memory.rs against the abstract machine.
use gum.Prelude.{
  ◌≤◌, ◌+◌, ◌^◌, ◌≡◌, refl, ap, ◌∙◌, ◌<◌, true, false, Option, none, some, String, arith,
  Bool-cases, inl, inr,
}
use gum.Prelude.Int.{ℤ}
use gum.Map.{get, insert, All-get}
use gum.Types.{attempt_status_eq, Result, ok, err}
use gum.Models.{RunRecord, AttemptRecord, JobRecord, FunctionHealthRecord}
use gum.Queries.Params.{CompleteAttemptParams}
use gum.Queries.Disposition.{RetryDisposition, compute_retry_disposition, is_terminal_attempt}
use gum.Store.{MemoryStore}
use gum.Queries.RateLimit.{provider_slug_from_job}
use gum.Store.Signals.Keeps.{Signalled}
use gum.Store.Recover.{is_running}
use gum.Store.Complete.{
  finish_attempt, preflight, write_attempt, signal, disposition_for, dispose_run, write_run, settle,
  settle_job, settle_run, complete_checked, complete_attempt,
}
use gum.Lifecycle.{SameAttempt, IsSettled}
use gum.Lifecycle.Refine.{StoreInv, Refines, Refines-refl, Refines-drift}
use gum.Lifecycle.Steps.{report_step, finish_step}
use gum.Store.Complete.Parts.{disposition_stops, preflight_open, signal-Signalled}

module _ {Json : Type 0} (s : MemoryStore Json) (h : StoreInv s) (room : s.ids + 1 < 2 ^ 64) where
  module _ (params : CompleteAttemptParams) (now : ℤ) (attempt : AttemptRecord) (lease_id : String)
      (found : get params.attempt_id s.state.attempts ≡ some attempt)
      (running : is_running attempt ≡ true) where
    -- The store with the attempt and its lease written.
    written : MemoryStore Json
    written = record s { state = write_attempt s.state params now attempt lease_id }

    same_attempt : SameAttempt attempt (finish_attempt params now attempt)
    unfolding finish_attempt
    same_attempt = record { id = refl; run_id = refl; settled = ground arith }

    written-Refines : Refines s written
    unfolding written write_attempt
    written-Refines =
        report_step h params.attempt_id attempt (finish_attempt params now attempt) found running
          same_attempt refl refl refl refl

    finished_stops :
        is_terminal_attempt params.status ≡ true
        → is_running (finish_attempt params now attempt) ≡ false
    unfolding finish_attempt is_running is_terminal_attempt attempt_status_eq
    finished_stops over = ground arith

    -- The run written too, where the report is terminal.
    disposed : RunRecord Json → RetryDisposition → MemoryStore Json
    disposed run disposition = record s {
      state = record s.state {
        attempts = insert params.attempt_id (finish_attempt params now attempt) s.state.attempts;
        runs = insert attempt.run_id (dispose_run disposition run) s.state.runs;
      };
    }

    disposed-Refines :
        (run : RunRecord Json) (health : Option FunctionHealthRecord)
        → get attempt.run_id s.state.runs ≡ some run
        → is_terminal_attempt params.status ≡ true
        → Refines s (
            disposed run (
              compute_retry_disposition run.id run.attempt_count run.max_attempts params.status
                params.failure_reason params.failure_class health now))
    unfolding disposed dispose_run
    disposed-Refines run health of_run over =
        let stops =
          disposition_stops params run.id run.attempt_count run.max_attempts health now over in
        finish_step h params.attempt_id attempt (finish_attempt params now attempt) run
          (dispose_run
            (compute_retry_disposition run.id run.attempt_count run.max_attempts params.status
              params.failure_reason params.failure_class health now)
            run)
          found running same_attempt (finished_stops over) of_run
          (record {
            id = refl;
            job_id = refl;
            max_attempts = refl;
            scheduled = refl;
            trigger = refl;
          })
          refl stops.0 stops.1 refl refl refl refl

    module _ (run : RunRecord Json) (of_run : get attempt.run_id s.state.runs ≡ some run) where
      write_run-Refines :
          (w : MemoryStore Json) (health : Option FunctionHealthRecord)
          (there : Option (RunRecord Json))
          → Signalled written w
          → there ≡ some run
          → Refines s (record w {
            state =
                (write_run w.state params
                  (compute_retry_disposition run.id run.attempt_count run.max_attempts params.status
                    params.failure_reason params.failure_class health now)
                  (finish_attempt params now attempt)
                  there).1;
          })
      unfolding write_run written write_attempt disposed finish_attempt
      write_run-Refines w health there sig same =
          let kept = sig.kept in
          elim (Bool-cases (is_terminal_attempt params.status)) [
            | inl over ↦
                rw (same, over, write_run)
                  (Refines-drift _ sig.ids kept.jobs (ap (insert attempt.run_id _) kept.runs)
                    kept.attempts (disposed-Refines run health of_run over))
            | inr going ↦
                rw (same, going, write_run)
                  (Refines-drift w sig.ids kept.jobs kept.runs kept.attempts written-Refines)
          ]

      settle-Refines :
          (job : JobRecord) (slug : Result (Option String))
          → Refines s (settle written params now (finish_attempt params now attempt) run job slug).1
      unfolding settle written write_attempt disposition_for finish_attempt
      settle-Refines job (err e) = written-Refines
      settle-Refines job (ok slug) =
          let sig = signal-Signalled written room params now job slug in
          write_run-Refines (signal written params now job slug) _ _ sig
            (ap (get attempt.run_id) sig.kept.runs ∙ of_run)

      settle_job-Refines :
          (job : Option JobRecord)
          → Refines s (settle_job written params now (finish_attempt params now attempt) run job).1
      unfolding settle_job
      settle_job-Refines none = written-Refines
      settle_job-Refines (some job) = settle-Refines job (provider_slug_from_job job)

    settle_run-Refines :
        (run : Option (RunRecord Json))
        → get attempt.run_id s.state.runs ≡ run
        → Refines s (settle_run written params now (finish_attempt params now attempt) run).1
    unfolding settle_run
    settle_run-Refines none e = written-Refines
    settle_run-Refines (some run) e = settle_job-Refines run e (get run.job_id written.state.jobs)

  -- What may be reported is running.
  preflight-running :
      (params : CompleteAttemptParams) (now : ℤ) (attempt : AttemptRecord) (lease_id : String)
      → preflight s.state params now ≡ ok (attempt, lease_id)
      → is_running attempt ≡ true
  preflight-running params now attempt lease_id e =
      let (found, going, unfinished) = preflight_open s.state params now attempt lease_id e in
      let settled = All-get IsSettled params.attempt_id s.state.attempts h.inv.settled found in
      ground arith

  complete_checked-Refines :
      (params : CompleteAttemptParams) (now : ℤ) (checked : Result (AttemptRecord × String))
      → preflight s.state params now ≡ checked
      → Refines s (complete_checked s params now checked).1
  unfolding complete_checked written
  complete_checked-Refines params now (err e) checked = Refines-refl s h
  complete_checked-Refines params now (ok (attempt, lease_id)) checked =
      settle_run-Refines params now attempt lease_id
        (preflight_open s.state params now attempt lease_id checked).0
        (preflight-running params now attempt lease_id checked) (get attempt.run_id s.state.runs)
        refl

  -- From a store that keeps the invariant and has an identifier left, a report makes only moves of
  -- the abstract machine, with every status that it reports and every result that it returns.
  pub complete_attempt-Refines :
      (params : CompleteAttemptParams) (now : ℤ) → Refines s (complete_attempt s params now).1
  unfolding complete_attempt
  complete_attempt-Refines params now =
      complete_checked-Refines params now (preflight s.state params now) refl

  module _ (params : CompleteAttemptParams) (now : ℤ) where
    settle_taken :
        (t : MemoryStore Json) (attempt : AttemptRecord) (run : RunRecord Json) (job : JobRecord)
        (slug : Result (Option String))
        → t.ids ≡ s.ids
        → (settle t params now attempt run job slug).1.ids ≤ s.ids + 1
    unfolding settle
    settle_taken t attempt run job (err e) same = omega arith
    settle_taken t attempt run job (ok slug) same =
        let sig = signal-Signalled t (omega arith) params now job slug in omega (arith, sig.taken)

    settle_job_taken :
        (t : MemoryStore Json) (attempt : AttemptRecord) (run : RunRecord Json)
        (job : Option JobRecord)
        → t.ids ≡ s.ids
        → (settle_job t params now attempt run job).1.ids ≤ s.ids + 1
    unfolding settle_job
    settle_job_taken t attempt run none same = omega arith
    settle_job_taken t attempt run (some job) same =
        settle_taken t attempt run job (provider_slug_from_job job) same

    settle_run_taken :
        (t : MemoryStore Json) (attempt : AttemptRecord) (run : Option (RunRecord Json))
        → t.ids ≡ s.ids
        → (settle_run t params now attempt run).1.ids ≤ s.ids + 1
    unfolding settle_run
    settle_run_taken t attempt none same = omega arith
    settle_run_taken t attempt (some run) same =
        settle_job_taken t attempt run (get run.job_id t.state.jobs) same

    complete_checked_taken :
        (checked : Result (AttemptRecord × String))
        → (complete_checked s params now checked).1.ids ≤ s.ids + 1
    unfolding complete_checked
    complete_checked_taken (err e) = omega arith
    complete_checked_taken (ok (attempt, lease_id)) =
        settle_run_taken _ _ (get attempt.run_id s.state.runs) refl

    -- A report takes at most one identifier.
    pub complete_attempt_taken : (complete_attempt s params now).1.ids ≤ s.ids + 1
    unfolding complete_attempt
    complete_attempt_taken = complete_checked_taken (preflight s.state params now)
