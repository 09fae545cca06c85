-- ===== src/Store/Scope.antt =====
-- crates/gum-store/src/memory.rs: what the running attempts of a job, a runner or a rate-limit pool
-- use. Sums and counts are u32, and wrap.
use gum.Prelude.{
  ℕ, ◌+◌, ◌%◌, ◌^◌, Bool, true, false, ◌&&◌, Option, none, some, List, [], ◌∷◌, String, str_eq,
  if◌then◌else◌, unwrap_or, map,
}
use gum.Prelude.Lists.{filter, filter_map, count}
use gum.Map.{Map, get, values}
use gum.Types.{ok, err}
use gum.Models.{RunRecord, AttemptRecord, JobRecord}
use gum.Queries.RateLimit.{RateLimitSpec, parse_rate_limit_spec}
use gum.Store.{MemoryState}
use gum.Store.Recover.{is_running}

-- `left == right`, on optional texts
unfoldable pub opt_str_eq : Option String → Option String → Bool
opt_str_eq none none = true
opt_str_eq (some a) (some b) = str_eq a b
opt_str_eq _ _ = false

unfoldable pub job_memory_mb : JobRecord → ℕ
job_memory_mb job = unwrap_or job.memory_mb 512

unfoldable pub job_cpu_cores : JobRecord → ℕ
job_cpu_cores job = unwrap_or job.cpu_cores 1

-- `iter.sum::<u32>()`
unfoldable pub sum_u32 : List ℕ → ℕ
sum_u32 [] = 0
sum_u32 (x ∷ xs) = (x + sum_u32 xs) % 2 ^ 32

-- The pool that a specification names, if it parses.
parsed_pool : Option String → Option String
parsed_pool none = none
parsed_pool (some raw) = elim (parse_rate_limit_spec raw) [ ok parsed ↦ parsed.pool | err e ↦ none ]

pub job_matches_rate_limit_scope : JobRecord → String → String → RateLimitSpec → Bool
unfolding parsed_pool opt_str_eq
job_matches_rate_limit_scope candidate target_project_id target_job_id spec = elim spec.pool [
  | some pool_name ↦
      if str_eq candidate.project_id target_project_id
      then opt_str_eq (parsed_pool candidate.rate_limit_spec) (some pool_name)
      else false
  | none ↦ str_eq candidate.id target_job_id
]

module _ {Json : Type 0} where
  -- The attempt runs for the job.
  unfoldable pub runs_for : Map (RunRecord Json) → String → AttemptRecord → Bool
  unfolding is_running
  runs_for runs job_id attempt =
      is_running attempt
      && elim (get attempt.run_id runs) [ none ↦ false | some run ↦ str_eq run.job_id job_id ]

  -- How many attempts run for the job.
  unfoldable pub active_for_job : Map (RunRecord Json) → Map AttemptRecord → String → ℕ
  unfolding runs_for
  active_for_job runs attempts job_id = count (runs_for runs job_id) (values attempts)

-- The attempt runs on the runner.
unfoldable pub runs_on : String → AttemptRecord → Bool
unfolding is_running opt_str_eq
runs_on runner_id attempt = is_running attempt && opt_str_eq attempt.runner_id (some runner_id)

unfoldable pub active_on_runner : Map AttemptRecord → String → ℕ
unfolding runs_on
active_on_runner attempts runner_id = count (runs_on runner_id) (values attempts)

module _ {Json : Type 0} where
  job_of_attempt : MemoryState Json → AttemptRecord → Option JobRecord
  job_of_attempt state attempt = elim (get attempt.run_id state.runs) [
    | none ↦ none
    | some run ↦ get run.job_id state.jobs
  ]

  -- The jobs that run on the runner, one for each attempt.
  jobs_on_runner : MemoryState Json → String → List JobRecord
  unfolding runs_on job_of_attempt
  jobs_on_runner state runner_id =
      filter_map (job_of_attempt state) (filter (runs_on runner_id) (values state.attempts))

  unfoldable pub active_cpu_cores : MemoryState Json → String → ℕ
  unfolding jobs_on_runner job_cpu_cores sum_u32
  active_cpu_cores state runner_id = sum_u32 (map job_cpu_cores (jobs_on_runner state runner_id))

  unfoldable pub active_memory_mb : MemoryState Json → String → ℕ
  unfolding jobs_on_runner job_memory_mb sum_u32
  active_memory_mb state runner_id = sum_u32 (map job_memory_mb (jobs_on_runner state runner_id))
