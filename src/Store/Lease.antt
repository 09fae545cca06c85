-- ===== src/Store/Lease.antt =====
-- crates/gum-store/src/memory.rs: `lease_next_attempt`, which gives a queued run to a runner.
pub mod Refine
pub mod Outcome
pub mod Progress
use gum.Prelude.{
  ℕ, ◌+◌, ◌-◌, ◌%◌, ◌^◌, min, Bool, true, false, not, ◌&&◌, Option, none, some, List, [], ◌∷◌,
  String, str_eq, ltb, leb, if◌then◌else◌,
}
use gum.Prelude.Int.{ℤ, ltb_ℤ, leb_ℤ, add_i64, saturating_sub, secs_to_ms}
use gum.Prelude.Lists.{count}
use gum.Map.{get, insert, values}
use gum.Types.{RunStatus, AttemptStatus, run_status_eq, Result, ok, err, ◌>>=◌}
use gum.Models.{
  RunRecord, AttemptRecord, LeaseRecord, RunnerRecord, JobRecord, FunctionHealthRecord,
}
use gum.Queries.Params.{LeaseNextAttemptParams}
use gum.Queries.RateLimit.{RateLimitSpec, parse_rate_limit_spec}
use gum.Store.{MemoryState, MemoryStore, identifier, next_number}
use gum.Store.Recover.{recover_lost_attempts_locked}
use gum.Store.Scope.{
  job_memory_mb, job_cpu_cores, active_for_job, active_on_runner, active_cpu_cores,
  active_memory_mb, job_matches_rate_limit_scope,
}

-- What the clock reads within one call: on entry, for each run that the loop looks at (by the
-- run's identifier), and for the attempt and the lease.
pub record LeaseClock : Type 0 where
  pub entered_at : ℤ
  pub retry_at : String → ℤ
  pub hold_at : String → ℤ
  pub window_at : String → ℤ
  pub started_at : ℤ
  pub leased_at : ℤ

-- `option.map(|at| at > now).unwrap_or(false)`
unfoldable pub is_after : Option ℤ → ℤ → Bool
is_after none now = false
is_after (some at) now = ltb_ℤ now at

hold_of : Option FunctionHealthRecord → Option ℤ
hold_of none = none
hold_of (some health) = health.hold_until_epoch_ms

-- A job with no class runs on every runner.
unfoldable pub class_fits : Option String → RunnerRecord → Bool
class_fits none runner = true
class_fits (some required) runner = str_eq runner.compute_class required

-- left.saturating_add(right), over u32
unfoldable pub saturating_add_u32 : ℕ → ℕ → ℕ
saturating_add_u32 a b = min (a + b) (2 ^ 32 - 1)

module _ {Json : Type 0} where
  -- `active >= limit` skips the run.
  unfoldable pub below_limit : MemoryState Json → JobRecord → Bool
  below_limit state job = elim job.concurrency_limit [
    | none ↦ true
    | some limit ↦ ltb (active_for_job state.runs state.attempts job.id % 2 ^ 32) limit
  ]

  counts_for_scope : MemoryState Json → JobRecord → RateLimitSpec → ℤ → AttemptRecord → Bool
  counts_for_scope state job spec window_start attempt =
      leb_ℤ window_start attempt.started_at_epoch_ms && elim (get attempt.run_id state.runs) [
        | none ↦ false
        | some run ↦ elim (get run.job_id state.jobs) [
          | none ↦ false
          | some run_job ↦ job_matches_rate_limit_scope run_job job.project_id job.id spec
        ]
      ]

  -- How many attempts of the scope have started in the window that ends now.
  pub recent_starts : MemoryState Json → JobRecord → RateLimitSpec → ℤ → ℕ
  unfolding counts_for_scope
  recent_starts state job spec now =
      count (counts_for_scope state job spec (saturating_sub now spec.window_ms))
        (values state.attempts)

  rate_allows : MemoryState Json → JobRecord → ℤ → Option String → Result Bool
  rate_allows state job now none = ok true
  rate_allows state job now (some rate_limit_spec) = do
    spec ← parse_rate_limit_spec rate_limit_spec
    ok (ltb (recent_starts state job spec now % 2 ^ 32) spec.limit)

  -- The room that the runner has for the job.
  unfoldable pub fits_runner : MemoryState Json → RunnerRecord → String → JobRecord → Bool
  unfolding saturating_add_u32
  fits_runner state runner runner_id job =
      class_fits job.compute_class runner
      && leb (saturating_add_u32 (active_cpu_cores state runner_id) (job_cpu_cores job))
          runner.cpu_cores
      && leb (saturating_add_u32 (active_memory_mb state runner_id) (job_memory_mb job))
          runner.memory_mb

  admits_job :
      MemoryState Json
      → RunnerRecord
      → String
      → LeaseClock
      → RunRecord Json
      → Option JobRecord
      → Result Bool
  unfolding hold_of is_after fits_runner rate_allows below_limit
  admits_job state runner runner_id clock run none = ok false
  admits_job state runner runner_id clock run (some job) =
      if not job.enabled
      then ok false
      else if is_after (hold_of (get job.id state.function_health)) (clock.hold_at run.id)
      then ok false
      else if not (fits_runner state runner runner_id job)
      then ok false
      else if not (below_limit state job)
      then ok false
      else rate_allows state job (clock.window_at run.id) job.rate_limit_spec

  -- The body of the loop: whether the run is selected. An ill-formed rate limit ends the call.
  unfoldable pub eligible :
      MemoryState Json → RunnerRecord → String → LeaseClock → RunRecord Json → Result Bool
  unfolding admits_job
  eligible state runner runner_id clock run =
      if not (run_status_eq run.status RunStatus.queued)
      then ok false
      else if is_after run.retry_after_epoch_ms (clock.retry_at run.id)
      then ok false
      else admits_job state runner runner_id clock run (get run.job_id state.jobs)

  unfoldable pub select_run :
      MemoryState Json
      → RunnerRecord
      → String
      → LeaseClock
      → List (RunRecord Json)
      → Result (Option (RunRecord Json))
  unfolding eligible
  select_run state runner runner_id clock [] = ok none
  select_run state runner runner_id clock (run ∷ runs) =
      let rest = select_run state runner runner_id clock runs in
      do chosen ← eligible state runner runner_id clock run; if chosen then ok (some run) else rest

-- The attempt as it is stored, with its lease.
leased_attempt : String → String → String → String → ℕ → ℤ → AttemptRecord
leased_attempt id lease_id run_id runner_id attempt_count now = record {
  id = id;
  run_id = run_id;
  attempt_number = (attempt_count + 1) % 2 ^ 32;
  status = AttemptStatus.running;
  lease_id = some lease_id;
  runner_id = some runner_id;
  started_at_epoch_ms = now;
  finished_at_epoch_ms = none;
  failure_reason = none;
  failure_class = none;
  cancel_requested_at_epoch_ms = none;
}

new_lease : String → String → LeaseNextAttemptParams → ℤ → LeaseRecord
new_lease id attempt_id params now = record {
  id = id;
  attempt_id = attempt_id;
  runner_id = params.runner_id;
  expires_at_epoch_ms = add_i64 now (secs_to_ms params.lease_ttl_secs);
  acked_at_epoch_ms = none;
  released_at_epoch_ms = none;
  revoke_requested_at_epoch_ms = none;
}

abbrev pub Leased : Type 0 → Type 0
Leased Json = RunRecord Json × AttemptRecord × LeaseRecord

module _ {Json : Type 0} where
  start_run : RunRecord Json → RunRecord Json
  start_run run = record run {
    status = RunStatus.running;
    attempt_count = (run.attempt_count + 1) % 2 ^ 32;
    failure_reason = none;
    failure_class = none;
    retry_after_epoch_ms = none;
    waiting_for_provider_slug = none;
  }

  -- `runs.get_mut(&run.id)`, and the inserts.
  unfoldable pub store_lease :
      MemoryState Json
      → String
      → AttemptRecord
      → LeaseRecord
      → Option (RunRecord Json)
      → Result (Option (Leased Json)) × MemoryState Json
  unfolding start_run
  store_lease state run_id attempt lease none = (err "selected run disappeared before lease", state)
  store_lease state run_id attempt lease (some run) = (
    ok (some (start_run run, attempt, lease)),
    record state {
      runs = insert run_id (start_run run) state.runs;
      attempts = insert attempt.id attempt state.attempts;
      leases = insert lease.id lease state.leases;
    },
  )

  unfoldable pub lease_run :
      MemoryStore Json
      → LeaseNextAttemptParams
      → LeaseClock
      → RunRecord Json
      → Result (Option (Leased Json)) × MemoryStore Json
  unfolding store_lease leased_attempt new_lease
  lease_run s params clock run =
      let n = next_number s.ids in
      let m = next_number n in
      let attempt_id = identifier "att" n in
      let lease_id = identifier "lease" m in
      let attempt =
        leased_attempt attempt_id lease_id run.id params.runner_id run.attempt_count
          clock.started_at in
      let lease = new_lease lease_id attempt_id params clock.leased_at in
      let (result, state) = store_lease s.state run.id attempt lease (get run.id s.state.runs) in
      (result, record { ids = m; state = state })

  unfoldable pub lease_selected :
      MemoryStore Json
      → LeaseNextAttemptParams
      → LeaseClock
      → Result (Option (RunRecord Json))
      → Result (Option (Leased Json)) × MemoryStore Json
  unfolding lease_run
  lease_selected s params clock (err e) = (err e, s)
  lease_selected s params clock (ok none) = (ok none, s)
  lease_selected s params clock (ok (some run)) = lease_run s params clock run

  unfoldable pub lease_for :
      MemoryStore Json
      → LeaseNextAttemptParams
      → LeaseClock
      → Option RunnerRecord
      → Result (Option (Leased Json)) × MemoryStore Json
  unfolding lease_selected select_run
  lease_for s params clock none = (err "runner not registered", s)
  lease_for s params clock (some runner) =
      if leb runner.max_concurrent_leases
        (active_on_runner s.state.attempts params.runner_id % 2 ^ 32)
      then (ok none, s)
      else lease_selected s params clock
          (select_run s.state runner params.runner_id clock (values s.state.runs))

  unfoldable pub recovered : MemoryStore Json → LeaseClock → MemoryStore Json
  recovered s clock = record s { state = (recover_lost_attempts_locked s.state clock.entered_at).0 }

  unfoldable pub lease_next_attempt :
      MemoryStore Json
      → LeaseNextAttemptParams
      → LeaseClock
      → Result (Option (Leased Json)) × MemoryStore Json
  unfolding lease_for recovered
  lease_next_attempt s params clock =
      let s' = recovered s clock in
      lease_for s' params clock (get params.runner_id s'.state.runners)
