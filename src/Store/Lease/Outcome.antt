-- ===== src/Store/Lease/Outcome.antt =====
-- `lease_next_attempt` of crates/gum-store/src/memory.rs: what it answers and what it writes.
use gum.Prelude.{
  ◌+◌, ◌%◌, ◌^◌, ◌<◌, ◌≡◌, ◌⊎◌, refl, inl, inr, true, false, Option, none, some, List, [], ◌∷◌,
  String, leb, Bool-cases, arith,
}
use gum.Prelude.Lists.{All}
use gum.Map.{get, insert, values}
use gum.Map.Keyed.{values-Keyed}
use gum.Types.{RunStatus, Result, ok, err, Result-cases}
use gum.Models.{RunRecord, RunnerRecord}
use gum.Queries.Params.{LeaseNextAttemptParams}
use gum.Store.{MemoryState, MemoryStore, next_number}
use gum.Store.Recover.{is_running, recover_lost_attempts}
use gum.Store.Recover.Refine.{recover_lost_attempts_locked-Refines}
use gum.Store.Scope.{active_on_runner}
use gum.Store.Lease.{
  LeaseClock, Leased, eligible, select_run, leased_attempt, new_lease, start_run, store_lease,
  lease_run, lease_selected, lease_for, recovered, lease_next_attempt,
}
use gum.Store.Lease.Refine.{select_run-Admitted, below_limit-HasRoom}
use gum.Lifecycle.{HasRoom, SameRun, core}
use gum.Lifecycle.Ids.{next_number_lem}
use gum.Lifecycle.Refine.{StoreInv, Refines-StoreInv}

module _ {Json : Type 0} where
  -- A waiting run with room under its job's limit has been given a new attempt and a lease for it, and
  -- nothing else is written to runs, attempts, leases and jobs.
  pub record Starts (s : MemoryStore Json) (params : LeaseNextAttemptParams) (leased : Leased Json)
      (t : MemoryStore Json) : Type 0 where
    pub before : RunRecord Json
    pub found : get leased.0.id s.state.runs ≡ some before
    pub queued : before.status ≡ RunStatus.queued
    pub has_room : HasRoom (core s) before.job_id
    pub same : SameRun before leased.0
    pub running : leased.0.status ≡ RunStatus.running
    pub counted : leased.0.attempt_count ≡ (before.attempt_count + 1) % 2 ^ 32
    pub new : get leased.1.id s.state.attempts ≡ none
    pub of_run : leased.1.run_id ≡ leased.0.id
    pub number : leased.1.attempt_number ≡ leased.0.attempt_count
    pub active : is_running leased.1 ≡ true
    pub on_runner : leased.1.runner_id ≡ some params.runner_id
    pub has_lease : leased.1.lease_id ≡ some leased.2.id
    pub of_attempt : leased.2.attempt_id ≡ leased.1.id
    pub runs : t.state.runs ≡ insert leased.0.id leased.0 s.state.runs
    pub attempts : t.state.attempts ≡ insert leased.1.id leased.1 s.state.attempts
    pub leases : t.state.leases ≡ insert leased.2.id leased.2 s.state.leases
    pub jobs : t.state.jobs ≡ s.state.jobs

module _ {Json : Type 0} (s : MemoryStore Json) (params : LeaseNextAttemptParams)
    (clock : LeaseClock) where
  -- The runner has as many leases as it may, or none of the runs passes the loop's tests.
  abbrev pub NothingToLease : RunnerRecord → Type 0
  NothingToLease runner =
      (leb runner.max_concurrent_leases
          (active_on_runner s.state.attempts params.runner_id % 2 ^ 32)
        ≡ true)
      ⊎ All (λ run. eligible s.state runner params.runner_id clock run ≡ ok false)
          (values s.state.runs)

  abbrev pub Outcome : Result (Option (Leased Json)) × MemoryStore Json → Type 0
  Outcome (err e, t) = t ≡ s
  Outcome (ok none, t) =
      (t ≡ s)
      × ((runner : RunnerRecord) × (get params.runner_id s.state.runners ≡ some runner)
          × NothingToLease runner)
  Outcome (ok (some leased), t) = Starts s params leased t

select_run-none :
    {Json : Type 0} (state : MemoryState Json) (runner : RunnerRecord) (runner_id : String)
    (clock : LeaseClock) (runs : List (RunRecord Json))
    → select_run state runner runner_id clock runs ≡ ok none
    → All (λ run. eligible state runner runner_id clock run ≡ ok false) runs
unfolding select_run
select_run-none state runner runner_id clock [] h = tt
select_run-none state runner runner_id clock (run ∷ runs) h =
    elim (Result-cases (eligible state runner runner_id clock run)) [
      | inr (e, failed) ↦ absurd (ground arith)
      | inl (true, chosen) ↦ absurd (ground arith)
      | inl (false, passed) ↦
          (passed, select_run-none state runner runner_id clock runs (rw (passed, select_run) at h))
    ]

module _ {Json : Type 0} (s : MemoryStore Json) (h : StoreInv s) (room : s.ids + 2 < 2 ^ 64)
    (params : LeaseNextAttemptParams) (clock : LeaseClock) where
  lease_run-Starts :
      (run : RunRecord Json)
      → get run.id s.state.runs ≡ some run
      → run.status ≡ RunStatus.queued
      → HasRoom (core s) run.job_id
      → Outcome s params clock (lease_run s params clock run)
  unfolding lease_run store_lease leased_attempt new_lease start_run is_running
  lease_run-Starts run found queued has_room =
      let one : next_number s.ids ≡ s.ids + 1 = next_number_lem s.ids (omega arith) in
      rw (found, store_lease)
        (record {
          before = run;
          found = found;
          queued = queued;
          has_room = has_room;
          same = record {
            id = refl;
            job_id = refl;
            max_attempts = refl;
            scheduled = refl;
            trigger = refl;
          };
          running = refl;
          counted = refl;
          new = h.fresh.attempts (next_number s.ids) (omega arith);
          of_run = refl;
          number = refl;
          active = refl;
          on_runner = refl;
          has_lease = refl;
          of_attempt = refl;
          runs = refl;
          attempts = refl;
          leases = refl;
          jobs = refl;
        })

  lease_selected-Outcome :
      (runner : RunnerRecord) (selected : Result (Option (RunRecord Json)))
      → get params.runner_id s.state.runners ≡ some runner
      → select_run s.state runner params.runner_id clock (values s.state.runs) ≡ selected
      → Outcome s params clock (lease_selected s params clock selected)
  unfolding lease_selected
  lease_selected-Outcome runner (err e) registered selected = refl
  lease_selected-Outcome runner (ok none) registered selected = (
    refl,
    (
      runner,
      registered,
      inr (select_run-none s.state runner params.runner_id clock (values s.state.runs) selected),
    ),
  )
  lease_selected-Outcome runner (ok (some run)) registered selected =
      let (own, admitted) =
        select_run-Admitted s.state runner params.runner_id clock
          (λ r. get r.id s.state.runs ≡ some r) (values s.state.runs) run
          (values-Keyed (λ r. r.id) s.state.runs h.inv.runs_keyed) selected in
      lease_run-Starts run own admitted.queued
        (below_limit-HasRoom s run.job_id admitted.job h admitted.of_run admitted.below)

  lease_for-Outcome :
      (runner : Option RunnerRecord)
      → get params.runner_id s.state.runners ≡ runner
      → Outcome s params clock (lease_for s params clock runner)
  unfolding lease_for
  lease_for-Outcome none registered = refl
  lease_for-Outcome (some runner) registered =
      elim (Bool-cases (
        leb runner.max_concurrent_leases
          (active_on_runner s.state.attempts params.runner_id % 2 ^ 32))) [
            | inl full ↦ rw (full, lease_for) (refl, (runner, registered, inl full))
            | inr free ↦ rw (free, lease_for) (lease_selected-Outcome runner _ registered refl)
          ]

module _ {Json : Type 0} (s : MemoryStore Json) (h : StoreInv s) (room : s.ids + 2 < 2 ^ 64) where
  -- From a store that keeps the invariant and has two identifiers left, a call to lease recovers the lost
  -- attempts and then, by its answer: writes nothing more, where it is an error; writes nothing more
  -- and either the runner is full or no run passes the loop's tests, where it is none; or starts exactly
  -- the run that it gives out, which waited and had room under its job's limit, and writes nothing else
  -- to runs, attempts, leases and jobs.
  pub lease_next_attempt-Outcome :
      (params : LeaseNextAttemptParams) (clock : LeaseClock)
      → Outcome
          (recover_lost_attempts s clock.entered_at).1
          params
          clock
          (lease_next_attempt s params clock)
  unfolding lease_next_attempt recovered recover_lost_attempts
  lease_next_attempt-Outcome params clock =
      let step = recover_lost_attempts_locked-Refines s clock.entered_at h in
      lease_for-Outcome (recovered s clock) (Refines-StoreInv h step) room params clock
        (get params.runner_id (recovered s clock).state.runners) refl
