-- ===== src/Store/Lease/Progress.antt =====
-- crates/gum-store/src/memory.rs: when `lease_next_attempt` gives out a run.
use gum.Prelude.{
  ◌%◌, ◌^◌, ◌≡◌, refl, inl, inr, Bool, true, false, Option, some, none, [], ◌∷◌, String, str_eq,
  arith, leb, Bool-cases,
}
use gum.Prelude.Lists.{All}
use gum.Map.{Map, get, values}
use gum.Map.Keyed.{values-Keyed}
use gum.Types.{Result, ok, err, Result-cases}
use gum.Models.{RunRecord, AttemptRecord, LeaseRecord, RunnerRecord}
use gum.Queries.Params.{LeaseNextAttemptParams}
use gum.Store.{MemoryState, MemoryStore}
use gum.Store.Scope.{active_on_runner}
use gum.Store.Recover.Refine.{recover_lost_attempts_locked-Refines}
use gum.Store.Lease.{
  LeaseClock, Leased, eligible, select_run, store_lease, lease_run, lease_selected, lease_for,
  recovered, lease_next_attempt,
}
use gum.Store.Lease.Refine.{select_run-Admitted}
use gum.Lifecycle.Refine.{StoreInv, Refines-StoreInv}

-- The rate limit that the run's job has, if the loop comes to it, can be read.
abbrev pub is_ok {ℓ} : {A : Type ℓ} → Result A → Bool
is_ok (ok a) = true
is_ok (err e) = false

module _ {Json : Type 0} (state : MemoryState Json) (runner : RunnerRecord) (runner_id : String)
    (clock : LeaseClock) where
  abbrev pub Readable : RunRecord Json → Type 0
  Readable run = is_ok (eligible state runner runner_id clock run) ≡ true

  select_run-finds :
      (runs : Map (RunRecord Json)) (key : String) (run : RunRecord Json)
      → get key runs ≡ some run
      → eligible state runner runner_id clock run ≡ ok true
      → All Readable (values runs)
      → (chosen : RunRecord Json) × (select_run state runner runner_id clock (values runs)
          ≡ ok (some chosen))
  unfolding get values select_run
  select_run-finds [] key run found fits readable = absurd (ground arith)
  select_run-finds ((j, first) ∷ rest) key run found fits (here, later) =
      elim (Result-cases (eligible state runner runner_id clock first)) [
        | inr (e, failed) ↦ absurd (ground arith)
        | inl (true, chosen) ↦ (first, rw (chosen, select_run) refl)
        | inl (false, passed) ↦ elim (Bool-cases (str_eq j key)) [
          | inl same ↦ absurd (ground arith)
          | inr other ↦
              let (chosen, found_later) = select_run-finds rest key run (ground arith) fits later in
              (chosen, rw (passed, select_run) found_later)
        ]
      ]

store_lease-leases :
    {Json : Type 0} (state : MemoryState Json) (run_id : String) (attempt : AttemptRecord)
    (lease : LeaseRecord) (run : RunRecord Json) (o : Option (RunRecord Json))
    → o ≡ some run
    → (leased : Leased Json) × ((store_lease state run_id attempt lease o).0 ≡ ok (some leased))
unfolding store_lease
store_lease-leases state run_id attempt lease run none found = absurd (ground arith)
store_lease-leases state run_id attempt lease run (some r) found = (_, refl)

module _ {Json : Type 0} (s : MemoryStore Json) (h : StoreInv s) (params : LeaseNextAttemptParams)
    (clock : LeaseClock) where
  lease_run-leases :
      (run : RunRecord Json)
      → get run.id s.state.runs ≡ some run
      → (leased : Leased Json) × ((lease_run s params clock run).0 ≡ ok (some leased))
  unfolding lease_run
  lease_run-leases run found =
      store_lease-leases s.state run.id _ _ run (get run.id s.state.runs) found

  lease_for-leases :
      (runner : RunnerRecord) (key : String) (run : RunRecord Json)
      → leb runner.max_concurrent_leases
          (active_on_runner s.state.attempts params.runner_id % 2 ^ 32)
        ≡ false
      → get key s.state.runs ≡ some run
      → eligible s.state runner params.runner_id clock run ≡ ok true
      → All (Readable s.state runner params.runner_id clock) (values s.state.runs)
      → (leased : Leased Json) × ((lease_for s params clock (some runner)).0 ≡ ok (some leased))
  unfolding lease_for lease_selected
  lease_for-leases runner key run free found fits readable =
      let (chosen, selected) =
        select_run-finds s.state runner params.runner_id clock s.state.runs key run found fits
          readable in
      let (own, admitted) =
        select_run-Admitted s.state runner params.runner_id clock
          (λ r. get r.id s.state.runs ≡ some r) (values s.state.runs) chosen
          (values-Keyed (λ r. r.id) s.state.runs h.inv.runs_keyed) selected in
      let (leased, done) = lease_run-leases chosen own in
      (leased, rw (free, selected, lease_for) done)

module _ {Json : Type 0} (s : MemoryStore Json) (h : StoreInv s) where
  -- In a store that keeps the invariant, a call to lease gives out a run whenever, after it has recovered
  -- lost attempts, the runner is registered and has room for a lease, some stored run passes the loop's tests,
  -- and the rate limits that the loop reads are well-formed.
  pub lease_next_attempt-leases :
      (params : LeaseNextAttemptParams) (clock : LeaseClock) (runner : RunnerRecord) (key : String)
      (run : RunRecord Json)
      → get params.runner_id (recovered s clock).state.runners ≡ some runner
      → leb runner.max_concurrent_leases
          (active_on_runner (recovered s clock).state.attempts params.runner_id % 2 ^ 32)
        ≡ false
      → get key (recovered s clock).state.runs ≡ some run
      → eligible (recovered s clock).state runner params.runner_id clock run ≡ ok true
      → All
          (Readable (recovered s clock).state runner params.runner_id clock)
          (values (recovered s clock).state.runs)
      → (leased : Leased Json) × ((lease_next_attempt s params clock).0 ≡ ok (some leased))
  unfolding lease_next_attempt
  lease_next_attempt-leases params clock runner key run registered free found fits readable =
      let after = Refines-StoreInv h (recover_lost_attempts_locked-Refines s clock.entered_at h) in
      let (leased, done) =
        lease_for-leases (recovered s clock) after params clock runner key run free found fits
          readable in
      (leased, rw registered done)
