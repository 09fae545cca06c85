-- ===== src/Api/Service/Views/Concurrency.antt =====
-- crates/gum-api/src/service.rs: what the API says of a run that waits for its job's limit, and what
-- leasing does with it, over the in-memory store.
use gum.Prelude.{
  subst, ◌≡◌, ap, ◌∙◌, sym, inl, inr, Bool, true, false, Option, some, List, [], ◌∷◌, String,
  str_eq, eq_iff, arith, Bool-cases, Option-cases,
}
use gum.Prelude.Int.{ℤ}
use gum.Prelude.Lists.{any, All, filter_map}
use gum.Prelude.Sort.{All-sort_by}
use gum.Map.{Map, get, insert, values, get-insert, get-empty}
use gum.Map.Keyed.{values-Keyed}
use gum.Types.{some_inj, ok, err, Result, Result-cases}
use gum.Models.{JobRecord, RunRecord, ConcurrencyStatusRecord}
use gum.Queries.Schedule.Cron.{Calendar}
use gum.Store.{MemoryStore}
use gum.Store.Deploys.{get_run as store_get_run}
use gum.Store.Lease.{below_limit}
use gum.Store.Instance.{memory_store}
use gum.Store.Listings.Limits.{list_concurrency_status, concurrency_status}
use gum.Store.Listings.Active.{length-active_run_ids}
use gum.Lifecycle.Refine.{StoreInv}
use gum.Api.Routes.{RunResponse}
use gum.Api.Service.Waiting.{at_limit, derive_waiting_reason, run_response}
use gum.Api.Service.Views.{
  collect_by_job, concurrency_status_map, read_limits, respond, respond_option, get_run,
  rate_limit_waiting_run_ids,
}

-- What is found by a job's identifier is a status of that job that has been collected.
get-collect_by_job :
    (P : ConcurrencyStatusRecord → Type 0) (k : String) (m : Map ConcurrencyStatusRecord)
    (statuses : List ConcurrencyStatusRecord) (status : ConcurrencyStatusRecord)
    → ((found : ConcurrencyStatusRecord) → get k m ≡ some found → P found × (found.job_id ≡ k))
    → All P statuses
    → get k (collect_by_job m statuses) ≡ some status
    → P status × (status.job_id ≡ k)
unfolding collect_by_job
get-collect_by_job P k m [] status before all e = before status e
get-collect_by_job P k m (first ∷ rest) status before (here, later) e =
    get-collect_by_job P k (insert first.job_id first m) rest status inserted later e
  where
    inserted :
        (found : ConcurrencyStatusRecord)
        → get k (insert first.job_id first m) ≡ some found
        → P found × (found.job_id ≡ k)
    inserted found there = elim (Bool-cases (str_eq first.job_id k)) [
      | inl same ↦
          let is : first ≡ found = ground (arith, get-insert first.job_id k first m) in
          (subst P is here, ground (arith, eq_iff first.job_id k))
      | inr other ↦ before found (ground (arith, get-insert first.job_id k first m))
    ]

module _ {Json : Type 0} (s : MemoryStore Json) where
  -- A full status is one of a job that leasing refuses.
  record IsExact (status : ConcurrencyStatusRecord) : Type 0 where
    refuses :
        (job : JobRecord)
        → get status.job_id s.state.jobs ≡ some job
        → at_limit (some status) ≡ true
        → below_limit s.state job ≡ false

  status-IsExact :
      StoreInv s
      → (job : JobRecord) (status : ConcurrencyStatusRecord) → get job.id s.state.jobs ≡ some job
      → concurrency_status s.state job ≡ some status
      → IsExact status
  unfolding concurrency_status at_limit below_limit
  status-IsExact h job status own shown = elim (Option-cases job.concurrency_limit) [
    | inl unlimited ↦ absurd (ground arith)
    | inr (limit, limited) ↦
        let counted = length-active_run_ids s.state h.inv.runs_keyed h.inv.single job.id in
        let named : status.job_id ≡ job.id = ground arith in
        record {
          refuses = λ other found full.
              let same : other ≡ job =
                some_inj (sym found ∙ (ap (λ k. get k s.state.jobs) named ∙ own)) in
              subst (λ o. below_limit s.state o ≡ false) (sym same) (ground (arith, counted));
        }
  ]

  statuses-IsExact :
      StoreInv s
      → (jobs : List JobRecord) → All (λ job. get job.id s.state.jobs ≡ some job) jobs
      → All IsExact (filter_map (concurrency_status s.state) jobs)
  statuses-IsExact h [] own = tt
  statuses-IsExact h (job ∷ jobs) (here, later) =
      elim (Option-cases (concurrency_status s.state job)) [
        | inl unlimited ↦ rw (unlimited, filter_map) (statuses-IsExact h jobs later)
        | inr (status, shown) ↦
            rw (shown, filter_map)
              (status-IsExact h job status here shown, statuses-IsExact h jobs later)
      ]

  ok_or_nil : Result (List ConcurrencyStatusRecord) → List ConcurrencyStatusRecord
  ok_or_nil (ok xs) = xs
  ok_or_nil (err e) = []

  listed-IsExact :
      StoreInv s
      → (statuses : List ConcurrencyStatusRecord) → list_concurrency_status s ≡ ok statuses
      → All IsExact statuses
  unfolding list_concurrency_status ok_or_nil
  listed-IsExact h statuses listed = subst (All IsExact) (ap ok_or_nil listed) (
      All-sort_by _ IsExact (filter_map (concurrency_status s.state) (values s.state.jobs)) (
        statuses-IsExact h (values s.state.jobs)
          (values-Keyed (λ j. j.id) s.state.jobs h.jobs_keyed)))

  -- The status that the API finds for a job, if it is full, is one of a job that leasing refuses.
  full-refused :
      StoreInv s
      → (empty_object : Json) (calendar : Calendar) (job_id : String)
      → (concurrency : Map ConcurrencyStatusRecord)
      → concurrency_status_map (memory_store empty_object calendar) s ≡ ok concurrency
      → at_limit (get job_id concurrency) ≡ true
      → (job : JobRecord) → get job_id s.state.jobs ≡ some job
      → below_limit s.state job ≡ false
  unfolding concurrency_status_map at_limit
  full-refused h empty_object calendar job_id concurrency read full job found =
      elim (Result-cases (list_concurrency_status s)) [
        | inr (e, failed) ↦ absurd (ground arith)
        | inl (statuses, listed) ↦ elim (Option-cases (get job_id concurrency)) [
          | inl missing ↦ absurd (ground arith)
          | inr (status, there) ↦
              let collected : concurrency ≡ collect_by_job [] statuses = ground arith in
              let (exact, named) =
                get-collect_by_job IsExact job_id [] statuses status
                  (λ other e.
                    absurd (ground (arith, get-empty {V = ConcurrencyStatusRecord} job_id)))
                  (listed-IsExact h statuses listed) (ap (get job_id) (sym collected) ∙ there) in
              exact.refuses job (ap (λ k. get k s.state.jobs) named ∙ found)
                (ap at_limit (sym there) ∙ full)
        ]
      ]

waits_for_limit :
    {Json : Type 0} (run : RunRecord Json) (concurrency : Option ConcurrencyStatusRecord)
    (limited : Bool)
    → derive_waiting_reason run concurrency limited ≡ some "waiting_on_concurrency"
    → at_limit concurrency ≡ true
unfolding derive_waiting_reason
waits_for_limit run concurrency limited h = ground (
  arith,
  eq_iff "waiting_for_function_health" "waiting_on_concurrency",
  eq_iff "waiting_on_delay" "waiting_on_concurrency",
  eq_iff "waiting_on_retry_delay" "waiting_on_concurrency",
  eq_iff "waiting_on_rate_limit" "waiting_on_concurrency",
)

module _ {Json : Type 0} (empty_object : Json) (calendar : Calendar) (s : MemoryStore Json)
    (run_id : String) (now : ℤ) (response : RunResponse) where
  -- What an answer of `get_run` was made from.
  record IsMade : Type 0 where
    run : RunRecord Json
    concurrency : Map ConcurrencyStatusRecord
    limited : Bool
    read : concurrency_status_map (memory_store empty_object calendar) s ≡ ok concurrency
    made : run_response run (get run.job_id concurrency) limited ≡ response

  get_run-IsMade :
      get_run (memory_store empty_object calendar) s run_id now ≡ ok (some response) → IsMade
  unfolding get_run read_limits respond_option respond store_get_run
  get_run-IsMade answered =
      elim (Result-cases (concurrency_status_map (memory_store empty_object calendar) s)) [
        | inr (e, failed) ↦ absurd (ground arith)
        | inl (concurrency, read) ↦
            elim (Result-cases
              (rate_limit_waiting_run_ids (memory_store empty_object calendar) s now)) [
                | inr (e, failed) ↦ absurd (ground arith)
                | inl (waiting, limits) ↦ elim (Option-cases (get run_id s.state.runs)) [
                  | inl missing ↦ absurd (ground arith)
                  | inr (run, there) ↦ record {
                    run = run;
                    concurrency = concurrency;
                    limited = any (λ id. str_eq id run.id) waiting;
                    read = read;
                    made = ground arith;
                  }
                ]
              ]
      ]

  -- Where the API says that a run waits on concurrency, its job fails the test of the limit that leasing makes, in a
  -- store that keeps the invariant.
  pub get_run-waits :
      (job : JobRecord)
      → StoreInv s
      → get_run (memory_store empty_object calendar) s run_id now ≡ ok (some response)
      → response.waiting_reason ≡ some "waiting_on_concurrency"
      → get response.job_id s.state.jobs ≡ some job
      → below_limit s.state job ≡ false
  unfolding run_response
  get_run-waits job h answered reason found =
      let from = get_run-IsMade answered in
      let same_job : from.run.job_id ≡ response.job_id = ap (λ r. r.job_id) from.made in
      let full =
        waits_for_limit from.run (get from.run.job_id from.concurrency) from.limited
          (ap (λ r. r.waiting_reason) from.made ∙ reason) in
      full-refused s h empty_object calendar from.run.job_id from.concurrency from.read full job
        (ap (λ k. get k s.state.jobs) same_job ∙ found)
