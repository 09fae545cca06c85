-- ===== src/Store/Complete/Twice.antt =====
-- Repeated calls of `complete_attempt` of crates/gum-store/src/memory.rs.
use gum.Prelude.{
  ◌≡◌, refl, ◌∙◌, ◌+◌, ◌^◌, ◌<◌, Option, none, some, String, arith, ap, eq_iff, true, is_some, sym,
}
use gum.Prelude.Int.{ℤ}
use gum.Map.{Map, get, insert, get-insert}
use gum.Types.{Result, ok, err}
use gum.Models.{RunRecord, AttemptRecord, JobRecord}
use gum.Queries.Params.{CompleteAttemptParams}
use gum.Queries.RateLimit.{provider_slug_from_job}
use gum.Queries.Disposition.{RetryDisposition}
use gum.Store.{MemoryState, MemoryStore}
use gum.Store.Complete.{
  check_attempt, preflight, finish_attempt, write_attempt, write_run, settle, settle_job,
  settle_run, complete_checked, complete_attempt, signal, disposition_for,
}
use gum.Store.Complete.Parts.{signal-Signalled}

module _ {Json : Type 0} (params : CompleteAttemptParams) (now : ℤ) where
  write_run_attempts :
      (state : MemoryState Json) (disposition : RetryDisposition) (attempt : AttemptRecord)
      (run : Option (RunRecord Json))
      → (write_run state params disposition attempt run).1.attempts ≡ state.attempts
  unfolding write_run
  write_run_attempts state disposition attempt none = refl
  write_run_attempts state disposition attempt (some run) = ground arith

  settle_attempts :
      (t : MemoryStore Json) (attempt : AttemptRecord) (run : RunRecord Json) (job : JobRecord)
      (slug : Result (Option String))
      → t.ids + 1 < 2 ^ 64
      → (settle t params now attempt run job slug).1.state.attempts ≡ t.state.attempts
  unfolding settle
  settle_attempts t attempt run job (err e) room = refl
  settle_attempts t attempt run job (ok slug) room =
      let s' = signal t params now job slug in
      write_run_attempts s'.state (disposition_for s'.state params now run job) attempt
        (get attempt.run_id s'.state.runs)
      ∙ (signal-Signalled t room params now job slug).kept.attempts

  settle_run_attempts :
      (t : MemoryStore Json) (attempt : AttemptRecord) (run : Option (RunRecord Json))
      → t.ids + 1 < 2 ^ 64
      → (settle_run t params now attempt run).1.state.attempts ≡ t.state.attempts
  unfolding settle_run
  settle_run_attempts t attempt none room = refl
  settle_run_attempts t attempt (some run) room = at_job (get run.job_id t.state.jobs)
    where
      at_job :
          (job : Option JobRecord)
          → (settle_job t params now attempt run job).1.state.attempts ≡ t.state.attempts
      at_job none = refl
      at_job (some job) = settle_attempts t attempt run job (provider_slug_from_job job) room

  -- A report that succeeds has written its attempt.
  complete_written :
      (s t : MemoryStore Json) (checked : Result (AttemptRecord × String))
      (result : AttemptRecord × RunRecord Json)
      → s.ids + 1 < 2 ^ 64
      → complete_checked s params now checked ≡ (ok result, t)
      → (attempt : AttemptRecord) × (t.state.attempts
          ≡ insert params.attempt_id (finish_attempt params now attempt) s.state.attempts)
  unfolding complete_checked write_attempt
  complete_written s t (err e) result room done = absurd (ground arith)
  complete_written s t (ok (attempt, lease_id)) result room done = (
    attempt,
    ap (λ p. p.1.state.attempts) (sym done)
        ∙ settle_run_attempts
            (record s { state = write_attempt s.state params now attempt lease_id })
            (finish_attempt params now attempt) (get attempt.run_id s.state.runs) room,
  )

preflight_finished :
    {Json : Type 0} (state : MemoryState Json) (params : CompleteAttemptParams) (now : ℤ)
    (attempt : AttemptRecord)
    → get params.attempt_id state.attempts ≡ some attempt
    → is_some attempt.finished_at_epoch_ms ≡ true
    → preflight state params now ≡ err "attempt already finished"
unfolding preflight check_attempt
preflight_finished state params now attempt found finished = rw (found, finished) refl

found_finished :
    (params second : CompleteAttemptParams) (now : ℤ) (attempt : AttemptRecord)
    (attempts : Map AttemptRecord)
    → second.attempt_id ≡ params.attempt_id
    → get second.attempt_id (insert params.attempt_id (finish_attempt params now attempt) attempts)
      ≡ some (finish_attempt params now attempt)
found_finished params second now attempt attempts same = ground (
  arith,
  eq_iff params.attempt_id second.attempt_id,
  get-insert params.attempt_id second.attempt_id (finish_attempt params now attempt) attempts,
)

-- Once a report on an attempt has succeeded, with an identifier left before it, every further report
-- on that attempt, by whatever runner and with whatever status, is refused and changes nothing.
pub reported_once :
    {Json : Type 0} (s t : MemoryStore Json) (params second : CompleteAttemptParams) (now later : ℤ)
    (result : AttemptRecord × RunRecord Json)
    → s.ids + 1 < 2 ^ 64
    → complete_attempt s params now ≡ (ok result, t)
    → second.attempt_id ≡ params.attempt_id
    → complete_attempt t second later ≡ (err "attempt already finished", t)
unfolding complete_attempt complete_checked finish_attempt
reported_once s t params second now later result room done same =
    let (attempt, written) =
      complete_written params now s t (preflight s.state params now) result room done in
    let found =
      ap (get second.attempt_id) written
      ∙ found_finished params second now attempt s.state.attempts same in
    rw (preflight_finished t.state second later (finish_attempt params now attempt) found refl) refl
