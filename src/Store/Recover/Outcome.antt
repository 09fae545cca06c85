-- ===== src/Store/Recover/Outcome.antt =====
-- `recover_lost_attempts` of crates/gum-store/src/memory.rs: what it writes.
use gum.Prelude.{
  Bool, ◌≡◌, ◌∙◌, refl, sym, subst, true, none, some, String, str_eq, eq_iff, eq_refl, ltb,
  if◌then◌else◌, arith, Bool-cases, inl, inr,
}
use gum.Prelude.Int.{ℤ}
use gum.Prelude.Lists.{any, All-map}
use gum.Map.{get, values}
use gum.Map.Keyed.{values-Keyed, get-Keyed}
use gum.Types.{RunStatus, AttemptStatus}
use gum.Models.{RunRecord, AttemptRecord}
use gum.Store.{MemoryState, MemoryStore}
use gum.Store.Recover.{
  fail_attempt, lose_run, recover_each, lost_attempt_ids, recover_lost_attempts_locked,
  recover_lost_attempts,
}
use gum.Store.Recover.Each.{
  stop, changed_no, own_run, recover_each_attempts, recover_each_runs, recover_each_jobs,
}
use gum.Lifecycle.Refine.{StoreInv}
use gum.Store.Recover.Lost.{IsLost, IsFound-IsLost, IsLost-IsFound, any_found, found_any}

-- What a lost attempt becomes.
pub record HasFailed (now : ℤ) (attempt attempt' : AttemptRecord) : Type 0 where
  pub status : attempt'.status ≡ AttemptStatus.failed
  pub class : attempt'.failure_class ≡ some "gum_internal_error"
  pub finished : attempt'.finished_at_epoch_ms ≡ some now
  pub run_id : attempt'.run_id ≡ attempt.run_id
  pub number : attempt'.attempt_number ≡ attempt.attempt_number
  pub lease_id : attempt'.lease_id ≡ attempt.lease_id

module _ {Json : Type 0} where
  -- What the run of a lost attempt becomes: queued, at once, while it has attempts left.
  pub record IsRequeued (run run' : RunRecord Json) : Type 0 where
    pub status :
        run'.status
        ≡ (if ltb run.attempt_count run.max_attempts then RunStatus.queued else RunStatus.failed)
    pub count : run'.attempt_count ≡ run.attempt_count
    pub allowed : run'.max_attempts ≡ run.max_attempts
    pub at_once : run'.retry_after_epoch_ms ≡ none
    pub unblocked : run'.waiting_for_provider_slug ≡ none
    pub id : run'.id ≡ run.id
    pub job_id : run'.job_id ≡ run.job_id
    pub input : run'.input_json ≡ run.input_json

  -- What recovery writes to attempts, runs and jobs. `t` is the store after it.
  pub record IsRecovered (s : MemoryStore Json) (now : ℤ) (t : MemoryStore Json) : Type 0 where
    -- A lost attempt has failed.
    pub failed :
        (attempt_id : String) (attempt : AttemptRecord)
        → get attempt_id s.state.attempts ≡ some attempt
        → IsLost s.state now attempt
        → (failed_attempt : AttemptRecord) × (get attempt_id t.state.attempts ≡ some failed_attempt)
          × HasFailed now attempt failed_attempt
    -- Its run, if it is there, is queued again or has failed.
    pub requeued :
        (attempt_id : String) (attempt : AttemptRecord) (run : RunRecord Json)
        → get attempt_id s.state.attempts ≡ some attempt
        → IsLost s.state now attempt
        → get attempt.run_id s.state.runs ≡ some run
        → (run' : RunRecord Json) × (get attempt.run_id t.state.runs ≡ some run')
          × IsRequeued run run'
    -- Any other attempt is as it was.
    pub attempt_kept :
        (attempt_id : String)
        → ((attempt : AttemptRecord)
            → get attempt_id s.state.attempts ≡ some attempt
            → ¬ IsLost s.state now attempt)
        → get attempt_id t.state.attempts ≡ get attempt_id s.state.attempts
    -- A run without a lost attempt is as it was.
    pub run_kept :
        (run_id : String)
        → ((attempt_id : String) (attempt : AttemptRecord)
            → get attempt_id s.state.attempts ≡ some attempt
            → IsLost s.state now attempt
            → ¬ (attempt.run_id ≡ run_id))
        → get run_id t.state.runs ≡ get run_id s.state.runs
    pub jobs_kept : t.state.jobs ≡ s.state.jobs
    pub ids_kept : t.ids ≡ s.ids

module _ {Json : Type 0} (s : MemoryStore Json) (now : ℤ) (h : StoreInv s) where
  in_values :
      (p : String → Bool) (C : Type 0)
      → ((a : AttemptRecord)
          → get a.id s.state.attempts ≡ some a
          → IsLost s.state now a
          → p a.id ≡ true
          → C)
      → any p (lost_attempt_ids s.state now) ≡ true
      → C
  unfolding lost_attempt_ids
  in_values p C each hit =
      found_any s.state now p C (values s.state.attempts)
        (All-map _ _ (values s.state.attempts)
          (λ a own is here. each a own (IsFound-IsLost s.state now a is) here)
          (values-Keyed (λ a. a.id) s.state.attempts h.inv.attempts_keyed))
        hit

  of_lost :
      (p : String → Bool) (key : String) (attempt : AttemptRecord)
      → get key s.state.attempts ≡ some attempt
      → IsLost s.state now attempt
      → p key ≡ true
      → any p (lost_attempt_ids s.state now) ≡ true
  unfolding lost_attempt_ids
  of_lost p key attempt found is hit =
      any_found s.state now p key s.state.attempts found (IsLost-IsFound s.state now attempt is) (
        subst (λ i. p i ≡ true)
          (sym (get-Keyed (λ a. a.id) key s.state.attempts h.inv.attempts_keyed found)) hit)

  lose_run-IsRequeued : (run : RunRecord Json) → IsRequeued run (lose_run run)
  unfolding lose_run
  lose_run-IsRequeued run = record {
    status = ground arith;
    count = ground arith;
    allowed = ground arith;
    at_once = ground arith;
    unblocked = ground arith;
    id = ground arith;
    job_id = ground arith;
    input = ground arith;
  }

  fail_attempt-HasFailed :
      (attempt : AttemptRecord) → HasFailed now attempt (fail_attempt now attempt)
  unfolding fail_attempt
  fail_attempt-HasFailed attempt = record {
    status = refl;
    class = refl;
    finished = refl;
    run_id = refl;
    number = refl;
    lease_id = refl;
  }

  own_lem :
      (attempt_id : String) (attempt : AttemptRecord)
      → get attempt_id s.state.attempts ≡ some attempt
      → IsLost s.state now attempt
      → own_run s.state attempt.run_id attempt_id ≡ true
  own_lem attempt_id attempt found is =
      rw (found, (IsLost-IsFound s.state now attempt is).0, eq_refl attempt.run_id) refl

  own_of :
      (run_id : String) (attempt : AttemptRecord)
      → get attempt.id s.state.attempts ≡ some attempt
      → own_run s.state run_id attempt.id ≡ true
      → attempt.run_id ≡ run_id
  own_of run_id attempt found own =
      let both = rw found at own in ground (arith, eq_iff attempt.run_id run_id)

  abbrev after : MemoryState Json
  after = (recover_each now (lost_attempt_ids s.state now) s.state).0

  kept_attempt :
      (attempt_id : String)
      → ((attempt : AttemptRecord)
          → get attempt_id s.state.attempts ≡ some attempt
          → ¬ IsLost s.state now attempt)
      → get attempt_id after.attempts ≡ get attempt_id s.state.attempts
  kept_attempt attempt_id none_lost =
      let ends = recover_each_attempts now attempt_id (lost_attempt_ids s.state now) s.state in
      elim (Bool-cases (any (λ i. str_eq i attempt_id) (lost_attempt_ids s.state now))) [
        | inl hit ↦ absurd (
            in_values (λ i. str_eq i attempt_id) ⊥
              (λ a own is here.
                none_lost a
                  (subst (λ i. get i s.state.attempts ≡ some a) ((eq_iff a.id attempt_id).0 here)
                    own)
                  is)
              hit)
        | inr clear ↦
            rw clear at ends ∙ sym (changed_no (stop now) (get attempt_id s.state.attempts))
      ]

  kept_run :
      (run_id : String)
      → ((attempt_id : String) (attempt : AttemptRecord)
          → get attempt_id s.state.attempts ≡ some attempt
          → IsLost s.state now attempt
          → ¬ (attempt.run_id ≡ run_id))
      → get run_id after.runs ≡ get run_id s.state.runs
  kept_run run_id none_lost =
      let ends = recover_each_runs now run_id (lost_attempt_ids s.state now) s.state in
      elim (Bool-cases (any (own_run s.state run_id) (lost_attempt_ids s.state now))) [
        | inl hit ↦ absurd (
            in_values (own_run s.state run_id) ⊥
              (λ a own is here. none_lost a.id a own is (own_of run_id a own here)) hit)
        | inr clear ↦ rw clear at ends ∙ sym (changed_no lose_run (get run_id s.state.runs))
      ]

  -- From a store that keeps the invariant, an attempt is lost if it is running and its lease is
  -- neither acknowledged nor released and has expired or belongs to a runner that has missed its
  -- heartbeats. Recovery fails exactly the lost attempts and queues their runs again, or fails
  -- those that have no attempts left. It leaves all other attempts and runs as they were, the jobs
  -- and the identifier counter too.
  pub recover_lost_attempts-IsRecovered : IsRecovered s now (recover_lost_attempts s now).1
  unfolding recover_lost_attempts recover_lost_attempts_locked
  recover_lost_attempts-IsRecovered = record {
    failed = λ attempt_id attempt found is.
        let running = (IsLost-IsFound s.state now attempt is).0 in
        let hit =
          of_lost (λ i. str_eq i attempt_id) attempt_id attempt found is (eq_refl attempt_id) in
        let ends = recover_each_attempts now attempt_id (lost_attempt_ids s.state now) s.state in
        (
          fail_attempt now attempt,
          rw (hit, found, running) at ends,
          fail_attempt-HasFailed attempt,
        );
    requeued = λ attempt_id attempt run found is there.
        let hit =
          of_lost (own_run s.state attempt.run_id) attempt_id attempt found is
            (own_lem attempt_id attempt found is) in
        let ends = recover_each_runs now attempt.run_id (lost_attempt_ids s.state now) s.state in
        (lose_run run, rw (hit, there) at ends, lose_run-IsRequeued run);
    attempt_kept = kept_attempt;
    run_kept = kept_run;
    jobs_kept = recover_each_jobs now (lost_attempt_ids s.state now) s.state;
    ids_kept = refl;
  }
