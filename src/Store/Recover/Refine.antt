-- ===== src/Store/Recover/Refine.antt =====
-- `recover_lost_attempts` of crates/gum-store/src/memory.rs against the abstract machine.
use gum.Prelude.{
  ◌<◌, ap, ◌≡◌, refl, true, false, Option, none, some, List, [], ◌∷◌, String, arith, ltb,
  Bool-cases, inl, inr,
}
use gum.Prelude.Int.{ℤ}
use gum.Map.{get, insert}
use gum.Types.{RunStatus, run_status_eq}
use gum.Models.{RunRecord, AttemptRecord}
use gum.Store.{MemoryState, MemoryStore}
use gum.Store.Recover.{
  is_running, fail_attempt, lose_run, release_of, requeue_run, lose_attempt, recover_attempt,
  recover_each, lost_attempt_ids, recover_lost_attempts_locked, recover_lost_attempts,
}
use gum.Lifecycle.{SameRun}
use gum.Lifecycle.Refine.{StoreInv, Refines, Refines-refl, Refines-trans, Refines-StoreInv}
use gum.Lifecycle.Steps.{report_step, finish_step}

release_of_keeps :
    {Json : Type 0} (state : MemoryState Json) (now : ℤ) (lease_id : Option String)
    → ((release_of state now lease_id).jobs ≡ state.jobs)
      × ((release_of state now lease_id).runs ≡ state.runs)
      × ((release_of state now lease_id).attempts ≡ state.attempts)
unfolding release_of
release_of_keeps state now none = (refl, refl, refl)
release_of_keeps state now (some lease_id) = (refl, refl, refl)

module _ {Json : Type 0} where
  lose_run-SameRun : (run : RunRecord Json) → SameRun run (lose_run run)
  unfolding lose_run
  lose_run-SameRun run = ground arith

  lose_run_stops :
      (run : RunRecord Json)
      → ((lose_run run).attempt_count ≡ run.attempt_count)
        × (run_status_eq (lose_run run).status RunStatus.running ≡ false)
        × ((lose_run run).status ≡ RunStatus.queued → run.attempt_count < run.max_attempts)
  unfolding lose_run run_status_eq
  lose_run_stops run = elim (Bool-cases (ltb run.attempt_count run.max_attempts)) [
    | inl left ↦ rw left (refl, refl, λ _. ground arith)
    | inr spent ↦ rw spent (refl, refl, λ e. cc)
  ]

  module _ (s : MemoryStore Json) (now : ℤ) (h : StoreInv s) where
    lost : String → AttemptRecord → MemoryState Json
    lost attempt_id attempt =
        release_of
          (record s.state {
            attempts = insert attempt_id (fail_attempt now attempt) s.state.attempts;
          })
          now attempt.lease_id

    requeue_run-Refines :
        (attempt_id : String) (attempt : AttemptRecord) (run : Option (RunRecord Json))
        → get attempt_id s.state.attempts ≡ some attempt
        → is_running attempt ≡ true
        → get attempt.run_id s.state.runs ≡ run
        → Refines s
            (record s { state = (requeue_run (lost attempt_id attempt) attempt.run_id run).0 })
    unfolding requeue_run lost fail_attempt is_running
    requeue_run-Refines attempt_id attempt none found running e =
        let kept =
          release_of_keeps
            (record s.state {
              attempts = insert attempt_id (fail_attempt now attempt) s.state.attempts;
            })
            now attempt.lease_id in
        report_step h attempt_id attempt (fail_attempt now attempt) found running
          (record { id = refl; run_id = refl; settled = refl }) refl kept.0 kept.1 kept.2
    requeue_run-Refines attempt_id attempt (some run) found running e =
        let kept =
          release_of_keeps
            (record s.state {
              attempts = insert attempt_id (fail_attempt now attempt) s.state.attempts;
            })
            now attempt.lease_id in
        let stops = lose_run_stops run in
        finish_step h attempt_id attempt (fail_attempt now attempt) run (lose_run run) found running
          (record { id = refl; run_id = refl; settled = refl }) (failed_stops attempt) e
          (lose_run-SameRun run) stops.0 stops.1 stops.2 refl kept.0
          (ap (insert attempt.run_id (lose_run run)) kept.1) kept.2
      where
        failed_stops : (attempt : AttemptRecord) → is_running (fail_attempt now attempt) ≡ false
        failed_stops attempt = refl

    lose_attempt-Refines :
        (attempt_id : String) (attempt : Option AttemptRecord)
        → get attempt_id s.state.attempts ≡ attempt
        → Refines s (record s { state = (lose_attempt s.state now attempt_id attempt).0 })
    unfolding lose_attempt lost
    lose_attempt-Refines attempt_id none found = Refines-refl s h
    lose_attempt-Refines attempt_id (some attempt) found = elim (Bool-cases (is_running attempt)) [
      | inl running ↦
          rw (running, lose_attempt)
            (requeue_run-Refines attempt_id attempt (get attempt.run_id s.state.runs) found running
              refl)
      | inr over ↦ rw (over, lose_attempt) (Refines-refl s h)
    ]

    recover_attempt-Refines :
        (attempt_id : String)
        → Refines s (record s { state = (recover_attempt s.state now attempt_id).0 })
    unfolding recover_attempt
    recover_attempt-Refines attempt_id =
        lose_attempt-Refines attempt_id (get attempt_id s.state.attempts) refl

  recover_each-Refines :
      (s : MemoryStore Json) (now : ℤ) (ids : List String)
      → StoreInv s
      → Refines s (record s { state = (recover_each now ids s.state).0 })
  unfolding recover_each
  recover_each-Refines s now [] h = Refines-refl s h
  recover_each-Refines s now (id ∷ ids) h =
      let step = recover_attempt-Refines s now h id in
      Refines-trans step (
        recover_each-Refines (record s { state = (recover_attempt s.state now id).0 }) now ids
          (Refines-StoreInv h step))

  pub recover_lost_attempts_locked-Refines :
      (s : MemoryStore Json) (now : ℤ)
      → StoreInv s
      → Refines s (record s { state = (recover_lost_attempts_locked s.state now).0 })
  unfolding recover_lost_attempts_locked
  recover_lost_attempts_locked-Refines s now h =
      recover_each-Refines s now (lost_attempt_ids s.state now) h

  -- From a store that keeps the invariant, recovering the lost attempts makes only moves of the
  -- abstract machine.
  pub recover_lost_attempts-Refines :
      (s : MemoryStore Json) (now : ℤ) → StoreInv s → Refines s (recover_lost_attempts s now).1
  unfolding recover_lost_attempts recover_lost_attempts_locked
  recover_lost_attempts-Refines s now h = recover_lost_attempts_locked-Refines s now h

  pub recover_lost_attempts_taken :
      (s : MemoryStore Json) (now : ℤ) → (recover_lost_attempts s now).1.ids ≡ s.ids
  unfolding recover_lost_attempts
  recover_lost_attempts_taken s now = refl
