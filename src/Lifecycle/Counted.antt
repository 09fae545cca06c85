-- ===== src/Lifecycle/Counted.antt =====
-- How often a run has been attempted, and how each move of a run counts it.
use gum.Prelude.{◌+◌, ◌%◌, ◌^◌, ◌≤◌, ◌<◌, ◌≡◌, true, arith, bit, bit-le-one, Bool-cases, inl, inr}
use gum.Types.{RunStatus, run_status_eq, run_status_eq_iff}
use gum.Models.{RunRecord}
use gum.Queries.Disposition.{is_terminal_run}
use gum.Lifecycle.{SameRun}

-- A run that waits has an attempt left.
pub record IsCounted {Json : Type 0} (run : RunRecord Json) : Type 0 where
  pub within :
      bit (run_status_eq run.status RunStatus.queued) + run.attempt_count ≤ run.max_attempts
  pub some_allowed : 0 < run.max_attempts
  pub fits : run.max_attempts < 2 ^ 32

module _ {Json : Type 0} where
  pub queued-IsCounted :
      (run : RunRecord Json)
      → run.attempt_count ≡ 0
      → 0 < run.max_attempts
      → run.max_attempts < 2 ^ 32
      → IsCounted run
  queued-IsCounted run none_yet some_left fits = record {
    within = ground (arith, bit-le-one (run_status_eq run.status RunStatus.queued));
    some_allowed = some_left;
    fits = fits;
  }

  pub start-IsCounted :
      {run : RunRecord Json} (run' : RunRecord Json)
      → IsCounted run
      → run.status ≡ RunStatus.queued
      → SameRun run run'
      → run'.status ≡ RunStatus.running
      → run'.attempt_count ≡ (run.attempt_count + 1) % 2 ^ 32
      → IsCounted run'
  unfolding run_status_eq
  start-IsCounted run' h queued same started counted = ground arith

  pub end-IsCounted :
      {run : RunRecord Json} (run' : RunRecord Json)
      → IsCounted run
      → SameRun run run'
      → run'.attempt_count ≡ run.attempt_count
      → (run'.status ≡ RunStatus.queued → run.attempt_count < run.max_attempts)
      → IsCounted run'
  end-IsCounted run' h same counted left =
      elim (Bool-cases (run_status_eq run'.status RunStatus.queued)) [
        | inl waits ↦
            let room = left ((run_status_eq_iff run'.status RunStatus.queued).0 waits) in
            record { within = ground arith; some_allowed = ground arith; fits = ground arith }
        | inr ended ↦ record {
          within = ground arith;
          some_allowed = ground arith;
          fits = ground arith;
        }
      ]

  pub write-IsCounted :
      {run : RunRecord Json} (run' : RunRecord Json)
      → IsCounted run
      → SameRun run run'
      → run'.attempt_count ≡ run.attempt_count
      → run'.status ≡ run.status
      → IsCounted run'
  write-IsCounted run' h same counted kept = ground arith

  pub withdraw-IsCounted :
      {run : RunRecord Json} (run' : RunRecord Json)
      → IsCounted run
      → SameRun run run'
      → run'.attempt_count ≡ run.attempt_count
      → is_terminal_run run'.status ≡ true
      → IsCounted run'
  unfolding run_status_eq is_terminal_run
  withdraw-IsCounted run' h same counted ended = ground arith
