-- ===== src/Store/Lease/Refine.antt =====
-- `lease_next_attempt` of crates/gum-store/src/memory.rs against the abstract machine.
use gum.Prelude.{
  ◌≤◌, refl, subst, ◌+◌, ◌%◌, ◌^◌, ◌<◌, ◌≡◌, Bool, true, false, Option, none, some, List, [], ◌∷◌,
  String, arith, leb, Bool-cases, inl, inr, ◌⊎◌,
}
use gum.Prelude.Lists.{All}
use gum.Map.{get, values}
use gum.Map.Keyed.{values-Keyed, get-Keyed}
use gum.Types.{RunStatus, run_status_eq, Result, ok, err}
use gum.Models.{RunRecord, LeaseRecord, RunnerRecord, JobRecord}
use gum.Queries.Params.{LeaseNextAttemptParams}
use gum.Store.{MemoryState, MemoryStore, identifier, next_number}
use gum.Store.Recover.{is_running}
use gum.Store.Recover.Refine.{recover_lost_attempts_locked-Refines}
use gum.Store.Scope.{active_on_runner}
use gum.Store.Lease.{
  LeaseClock, below_limit, fits_runner, admits_job, eligible, select_run, leased_attempt, start_run,
  store_lease, lease_run, lease_selected, lease_for, recovered, lease_next_attempt,
}
use gum.Lifecycle.{HasRoom, core, start, one-Move}
use gum.Lifecycle.Ids.{next_number_lem, write-FreshAbove, insert-FreshAbove, later-FreshAbove}
use gum.Lifecycle.Refine.{StoreInv, Refines, Refines-refl, Refines-trans, Refines-StoreInv}

module _ {Json : Type 0} (state : MemoryState Json) (runner : RunnerRecord) (runner_id : String)
    (clock : LeaseClock) where
  -- What the loop's tests establish for the run that it selects.
  pub record Admitted (run : RunRecord Json) : Type 0 where
    pub queued : run.status ≡ RunStatus.queued
    pub job : JobRecord
    pub of_run : get run.job_id state.jobs ≡ some job
    pub fits : fits_runner state runner runner_id job ≡ true
    pub below : below_limit state job ≡ true

  admits_job-Admitted :
      (run : RunRecord Json) (job : Option JobRecord)
      → run.status ≡ RunStatus.queued
      → get run.job_id state.jobs ≡ job
      → admits_job state runner runner_id clock run job ≡ ok true
      → Admitted run
  unfolding admits_job
  admits_job-Admitted run none queued found e = ground arith
  admits_job-Admitted run (some job) queued found e = record {
    queued = queued;
    job = job;
    of_run = found;
    fits = ground arith;
    below = ground arith;
  }

  eligible_queued :
      (run : RunRecord Json)
      → eligible state runner runner_id clock run ≡ ok true
      → (run.status ≡ RunStatus.queued)
        × (admits_job state runner runner_id clock run (get run.job_id state.jobs) ≡ ok true)
  unfolding eligible run_status_eq
  eligible_queued run e = ground arith

  eligible-Admitted :
      (run : RunRecord Json) → eligible state runner runner_id clock run ≡ ok true → Admitted run
  eligible-Admitted run e =
      let (queued, admits) = eligible_queued run e in
      admits_job-Admitted run (get run.job_id state.jobs) queued refl admits

  pub select_run-Admitted :
      (P : RunRecord Json → Type 0) (runs : List (RunRecord Json)) (run : RunRecord Json)
      → All P runs
      → select_run state runner runner_id clock runs ≡ ok (some run)
      → P run × Admitted run
  unfolding select_run
  select_run-Admitted P [] run all e = absurd (ground arith)
  select_run-Admitted P (first ∷ runs) run (here, rest) e =
      elim (answer (eligible state runner runner_id clock first)) [
        | inl (m, failed) ↦ absurd (ground arith)
        | inr (true, chosen) ↦
            let same : first ≡ run = ground arith in
            subst (λ r. P r × Admitted r) same (here, eligible-Admitted first chosen)
        | inr (false, skipped) ↦ select_run-Admitted P runs run rest (rw (skipped, select_run) at e)
      ]
    where
      answer : (r : Result Bool) → ((m : String) × (r ≡ err m)) ⊎ ((b : Bool) × (r ≡ ok b))
      answer (ok b) = inr (b, refl)
      answer (err m) = inl (m, refl)

-- A job below its limit has room for a run of its own.
pub below_limit-HasRoom :
    {Json : Type 0} (s : MemoryStore Json) (job_id : String) (job : JobRecord)
    → StoreInv s
    → get job_id s.state.jobs ≡ some job
    → below_limit s.state job ≡ true
    → HasRoom (core s) job_id
unfolding below_limit
below_limit-HasRoom s job_id job h found below other limit e k =
    let named = get-Keyed (λ j. j.id) job_id s.state.jobs h.jobs_keyed found in ground arith

module _ {Json : Type 0} (s : MemoryStore Json) (h : StoreInv s) (room : s.ids + 2 < 2 ^ 64)
    (params : LeaseNextAttemptParams) (clock : LeaseClock) where
  store_lease-Refines :
      (run : RunRecord Json) (lease : LeaseRecord)
      → get run.id s.state.runs ≡ some run
      → run.status ≡ RunStatus.queued
      → HasRoom (core s) run.job_id
      → Refines s (record {
        ids = next_number (next_number s.ids);
        state =
            (store_lease s.state run.id
              (leased_attempt
                (identifier "att" (next_number s.ids))
                lease.id
                run.id
                params.runner_id
                run.attempt_count
                clock.started_at)
              lease
              (get run.id s.state.runs)).1;
      })
  unfolding store_lease leased_attempt start_run is_running
  store_lease-Refines run lease found queued has_room =
      let n = next_number s.ids in
      let one : n ≡ s.ids + 1 = next_number_lem s.ids (omega arith) in
      let two : next_number n ≡ n + 1 = next_number_lem n (omega arith) in
      let attempt =
        leased_attempt (identifier "att" n) lease.id run.id params.runner_id run.attempt_count
          clock.started_at in
      rw (found, store_lease)
        (record {
          moves = one-Move (
              start run.id run (start_run run) attempt found queued has_room
                (record {
                  id = refl;
                  job_id = refl;
                  max_attempts = refl;
                  scheduled = refl;
                  trigger = refl;
                })
                refl refl (h.fresh.attempts n (omega arith)) refl refl refl refl refl);
          fresh = record {
            runs = later-FreshAbove "run" s.ids (next_number n) _ (omega arith) (
                write-FreshAbove "run" s.ids run.id run (start_run run) s.state.runs found
                  h.fresh.runs);
            attempts = later-FreshAbove "att" n (next_number n) _ (omega arith) (
                insert-FreshAbove "att" attempt.id s.ids n attempt s.state.attempts refl
                  (omega arith) h.fresh.attempts);
          };
        })

  lease_selected-Refines :
      (runner : RunnerRecord) (selected : Result (Option (RunRecord Json)))
      → select_run s.state runner params.runner_id clock (values s.state.runs) ≡ selected
      → Refines s (lease_selected s params clock selected).1
  unfolding lease_selected lease_run
  lease_selected-Refines runner (err e) selected = Refines-refl s h
  lease_selected-Refines runner (ok none) selected = Refines-refl s h
  lease_selected-Refines runner (ok (some run)) selected =
      let (own, admitted) =
        select_run-Admitted s.state runner params.runner_id clock
          (λ r. get r.id s.state.runs ≡ some r) (values s.state.runs) run
          (values-Keyed (λ r. r.id) s.state.runs h.inv.runs_keyed) selected in
      store_lease-Refines run _ own admitted.queued
        (below_limit-HasRoom s run.job_id admitted.job h admitted.of_run admitted.below)

  lease_for-Refines : (runner : Option RunnerRecord) → Refines s (lease_for s params clock runner).1
  unfolding lease_for
  lease_for-Refines none = Refines-refl s h
  lease_for-Refines (some runner) =
      elim (Bool-cases (
        leb runner.max_concurrent_leases
          (active_on_runner s.state.attempts params.runner_id % 2 ^ 32))) [
            | inl full ↦ rw (full, lease_for) (Refines-refl s h)
            | inr free ↦ rw (free, lease_for) (lease_selected-Refines runner _ refl)
          ]

module _ {Json : Type 0} (s : MemoryStore Json) (h : StoreInv s) (room : s.ids + 2 < 2 ^ 64) where
  -- From a store that keeps the invariant and has two identifiers left, a call to lease makes only
  -- moves of the abstract machine, whatever it returns: a run that it starts was queued and its
  -- job had room.
  pub lease_next_attempt-Refines :
      (params : LeaseNextAttemptParams) (clock : LeaseClock)
      → Refines s (lease_next_attempt s params clock).1
  unfolding lease_next_attempt recovered
  lease_next_attempt-Refines params clock =
      let step = recover_lost_attempts_locked-Refines s clock.entered_at h in
      Refines-trans step (
        lease_for-Refines (recovered s clock) (Refines-StoreInv h step) room params clock
          (get params.runner_id (recovered s clock).state.runners))

module _ {Json : Type 0} (s : MemoryStore Json) (params : LeaseNextAttemptParams)
    (clock : LeaseClock) where
  two_taken : next_number (next_number s.ids) ≤ s.ids + 2
  unfolding next_number
  two_taken = omega arith

  lease_selected_taken :
      (selected : Result (Option (RunRecord Json)))
      → (lease_selected s params clock selected).1.ids ≤ s.ids + 2
  unfolding lease_selected lease_run
  lease_selected_taken (err e) = omega arith
  lease_selected_taken (ok none) = omega arith
  lease_selected_taken (ok (some run)) = two_taken

  lease_for_taken :
      (runner : Option RunnerRecord) → (lease_for s params clock runner).1.ids ≤ s.ids + 2
  unfolding lease_for
  lease_for_taken none = omega arith
  lease_for_taken (some runner) =
      elim (Bool-cases (
        leb runner.max_concurrent_leases
          (active_on_runner s.state.attempts params.runner_id % 2 ^ 32))) [
            | inl full ↦ rw (full, lease_for) (omega arith)
            | inr free ↦ rw (free, lease_for) (lease_selected_taken _)
          ]

module _ {Json : Type 0} (s : MemoryStore Json) where
  -- A call takes at most two identifiers.
  pub lease_next_attempt_taken :
      (params : LeaseNextAttemptParams) (clock : LeaseClock)
      → (lease_next_attempt s params clock).1.ids ≤ s.ids + 2
  unfolding lease_next_attempt recovered
  lease_next_attempt_taken params clock = lease_for_taken (recovered s clock) params clock _
