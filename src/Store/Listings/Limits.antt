-- ===== src/Store/Listings/Limits.antt =====
-- crates/gum-store/src/memory.rs: the listings of concurrency limits and rate limits.
use gum.Prelude.{
  ◌%◌, ◌^◌, Bool, true, false, not, ◌&&◌, List, [], ◌∷◌, ◌++◌, String, str_eq, ltb, leb, Option,
  none, some, is_some, map, if◌then◌else◌,
}
use gum.Prelude.Int.{ℤ, leb_ℤ, saturating_sub}
use gum.Prelude.Lists.{length, filter, filter_map, any, count}
use gum.Prelude.Order.{then_with, not_after, cmp_ℤ, cmp_text}
use gum.Prelude.Sort.{sort_by}
use gum.Map.{get, values}
use gum.Types.{RunStatus, run_status_eq, Result, ok, ◌>>=◌}
use gum.Models.{JobRecord, RunRecord, AttemptRecord, ConcurrencyStatusRecord, RateLimitStatusRecord}
use gum.Queries.RateLimit.{RateLimitSpec, parse_rate_limit_spec, rate_limit_scope_key}
use gum.Store.{MemoryState, MemoryStore}
use gum.Store.Recover.{is_running}
use gum.Store.Scope.{job_matches_rate_limit_scope, opt_str_eq}
use gum.Store.Lease.{is_after}

-- `ids.sort()`
unfoldable pub sort_ids : List String → List String
sort_ids ids = sort_by (λ left right. not_after (cmp_text left right)) ids

unfoldable pub cons_new : String → List String → List String
cons_new id [] = id ∷ []
cons_new id (next ∷ rest) = if str_eq id next then next ∷ rest else id ∷ next ∷ rest

-- `ids.dedup()`
unfoldable pub dedup : List String → List String
unfolding cons_new
dedup [] = []
dedup (id ∷ rest) = cons_new id (dedup rest)

-- `ids.contains(&id)`
is_listed : String → List String → Bool
is_listed id ids = any (λ other. str_eq other id) ids

module _ {Json : Type 0} where
  -- The runs of the job whose attempts run, one for each attempt.
  unfoldable pub runs_of_job : MemoryState Json → String → List (RunRecord Json)
  runs_of_job state job_id =
      filter (λ run. str_eq run.job_id job_id)
        (filter_map (λ attempt. get attempt.run_id state.runs)
          (filter is_running (values state.attempts)))

  unfoldable pub active_run_ids_for_job : MemoryState Json → String → List String
  unfolding sort_ids runs_of_job
  active_run_ids_for_job state job_id =
      dedup (sort_ids (map (λ run. run.id) (runs_of_job state job_id)))

  is_queued_for : String → RunRecord Json → Bool
  is_queued_for job_id run = str_eq run.job_id job_id && run_status_eq run.status RunStatus.queued

  unfoldable pub concurrency_status : MemoryState Json → JobRecord → Option ConcurrencyStatusRecord
  unfolding sort_ids is_queued_for
  concurrency_status state job = elim job.concurrency_limit [
    | none ↦ none
    | some limit ↦ some (record {
      job_id = job.id;
      job_name = job.name;
      concurrency_limit = limit;
      active_run_ids = active_run_ids_for_job state job.id;
      queued_run_ids =
          sort_ids (map (λ run. run.id) (filter (is_queued_for job.id) (values state.runs)));
    })
  ]

  unfoldable pub list_concurrency_status : MemoryStore Json → Result (List ConcurrencyStatusRecord)
  unfolding concurrency_status
  list_concurrency_status s = ok (
      sort_by
        (λ left right.
          not_after
            (then_with (cmp_text left.job_name right.job_name) (cmp_text left.job_id right.job_id)))
        (filter_map (concurrency_status s.state) (values s.state.jobs)))

  -- The job of a waiting run has room under its concurrency limit.
  has_room : MemoryState Json → String → Option JobRecord → Bool
  has_room state job_id none = false
  has_room state job_id (some job) = elim job.concurrency_limit [
    | none ↦ true
    | some limit ↦ ltb (length (active_run_ids_for_job state job_id)) limit
  ]

  waits : MemoryState Json → List String → ℤ → RunRecord Json → Bool
  unfolding has_room is_listed
  waits state scope_job_ids now_ms run =
      is_listed run.job_id scope_job_ids
      && run_status_eq run.status RunStatus.queued
      && not (is_after run.retry_after_epoch_ms now_ms)
      && not (opt_str_eq run.failure_class (some "blocked_by_downstream"))
      && has_room state run.job_id (get run.job_id state.jobs)

  waiting_run_ids : MemoryState Json → List String → ℤ → List String
  unfolding waits
  waiting_run_ids state scope_job_ids now_ms =
      map (λ run. run.id)
        (sort_by
          (λ left right. not_after (
            then_with (cmp_ℤ left.scheduled_at_epoch_ms right.scheduled_at_epoch_ms)
              (cmp_text left.id right.id)))
          (filter (waits state scope_job_ids now_ms) (values state.runs)))

  starts_in_scope : MemoryState Json → List String → ℤ → AttemptRecord → Bool
  unfolding is_listed
  starts_in_scope state scope_job_ids window_start_ms attempt =
      leb_ℤ window_start_ms attempt.started_at_epoch_ms && elim (get attempt.run_id state.runs) [
        | none ↦ false
        | some run ↦ is_listed run.job_id scope_job_ids
      ]

  pub rate_limit_status :
      MemoryState Json → ℤ → JobRecord → RateLimitSpec → String → RateLimitStatusRecord
  unfolding waiting_run_ids starts_in_scope sort_ids
  rate_limit_status state now_ms job spec scope_key =
      let scope_jobs =
        filter (λ candidate. job_matches_rate_limit_scope candidate job.project_id job.id spec)
          (values state.jobs) in
      let scope_job_ids = map (λ scope_job. scope_job.id) scope_jobs in
      let window_start_ms = saturating_sub now_ms spec.window_ms in
      let recent =
        count (starts_in_scope state scope_job_ids window_start_ms) (values state.attempts)
        % 2 ^ 32 in
      record {
        scope_key = scope_key;
        scope_kind = if is_some spec.pool then "pool" else "job";
        project_id = job.project_id;
        pool_name = spec.pool;
        limit = spec.limit;
        window_ms = spec.window_ms;
        recent_start_count = recent;
        job_ids = sort_ids scope_job_ids;
        job_names = sort_ids (map (λ scope_job. scope_job.name) scope_jobs);
        waiting_run_ids =
            if leb spec.limit recent then waiting_run_ids state scope_job_ids now_ms else [];
      }

  -- The statuses so far, and one for the job unless its scope is among them.
  add_status :
      MemoryState Json
      → ℤ
      → JobRecord
      → List RateLimitStatusRecord
      → RateLimitSpec
      → List RateLimitStatusRecord
  unfolding rate_limit_status
  add_status state now_ms job statuses spec =
      let scope_key = rate_limit_scope_key job.project_id job.id spec in
      if any (λ status. str_eq status.scope_key scope_key) statuses
      then statuses
      else statuses ++ (rate_limit_status state now_ms job spec scope_key ∷ [])

  collect_statuses :
      MemoryState Json
      → ℤ
      → List JobRecord
      → List RateLimitStatusRecord
      → Result (List RateLimitStatusRecord)
  unfolding add_status
  collect_statuses state now_ms [] statuses = ok statuses
  collect_statuses state now_ms (job ∷ jobs) statuses = elim job.rate_limit_spec [
    | none ↦ collect_statuses state now_ms jobs statuses
    | some raw ↦ do
      spec ← parse_rate_limit_spec raw
      collect_statuses state now_ms jobs (add_status state now_ms job statuses spec)
  ]

  unfoldable pub list_rate_limit_status : MemoryStore Json → ℤ → Result (List RateLimitStatusRecord)
  unfolding collect_statuses
  list_rate_limit_status s now_ms = do
    statuses ← collect_statuses s.state now_ms (values s.state.jobs) []
    ok (
        sort_by
          (λ left right. not_after (
            then_with (cmp_text left.scope_kind right.scope_kind)
              (cmp_text left.scope_key right.scope_key)))
          statuses)
