-- ===== src/Store/Listings/Active.antt =====
-- crates/gum-store/src/memory.rs: `active_run_ids_for_job`, beside the count of running attempts
-- that `lease_next_attempt` compares with a job's limit.
use gum.Prelude.{
  some, inl, inr, Option-cases, ℕ, ◌≤◌, ◌≡◌, refl, ap, ◌∙◌, List, [], ◌∷◌, String, str_eq, eq_iff,
  eq_refl, arith, map,
}
use gum.Prelude.Lists.{All, All-filter_map, length, filter, filter_map, count}
use gum.Prelude.Sort.{All-sort_by, length-sort_by, count-sort_by}
use gum.Prelude.Order.{not_after, cmp_text}
use gum.Map.{Map, get, values}
use gum.Map.Keyed.{Keyed, get-Keyed}
use gum.Models.{JobRecord, ConcurrencyStatusRecord, RunRecord, AttemptRecord}
use gum.Types.{ok}
use gum.Store.{MemoryState, MemoryStore}
use gum.Store.Recover.{is_running}
use gum.Store.Scope.{runs_for, active_for_job}
use gum.Store.Listings.Limits.{
  list_concurrency_status, concurrency_status, dedup, cons_new, runs_of_job, sort_ids,
  active_run_ids_for_job,
}
use gum.Lifecycle.Single.{open_for, open_attempts, running_bit}

-- How often the text occurs.
abbrev times : String → List String → ℕ
times id ids = count (λ other. str_eq other id) ids

cons_new-new : (id : String) (ids : List String) → times id ids ≡ 0 → cons_new id ids ≡ id ∷ ids
unfolding cons_new count
cons_new-new id [] h = refl
cons_new-new id (next ∷ rest) h = ground (arith, eq_iff id next, eq_iff next id)

dedup-distinct : (ids : List String) → ((id : String) → times id ids ≤ 1) → dedup ids ≡ ids
unfolding dedup count
dedup-distinct [] h = refl
dedup-distinct (id ∷ rest) h =
    let same = dedup-distinct rest (λ other. omega (arith, h other)) in
    ap (cons_new id) same ∙ cons_new-new id rest (ground (arith, h id, eq_refl id))

module _ {Json : Type 0} (runs : Map (RunRecord Json)) (job_id : String) where
  -- The runs of the job that the listing goes through.
  abbrev listed_runs : List AttemptRecord → List (RunRecord Json)
  listed_runs attempts =
      filter (λ run. str_eq run.job_id job_id)
        (filter_map (λ attempt. get attempt.run_id runs) (filter is_running attempts))

  length-listed :
      (attempts : List AttemptRecord)
      → length (map (λ run. run.id) (listed_runs attempts)) ≡ count (runs_for runs job_id) attempts
  unfolding count runs_for
  length-listed [] = refl
  length-listed (a ∷ as') = ground (arith, length-listed as')

  times-listed :
      (id : String) (attempts : List AttemptRecord)
      → Keyed (λ r. r.id) runs
      → times id (map (λ run. run.id) (listed_runs attempts)) ≤ count (open_for id) attempts
  unfolding count open_for
  times-listed id [] keyed = omega arith
  times-listed id (a ∷ as') keyed = elim (Option-cases (get a.run_id runs)) [
    | inl missing ↦ ground (arith, times-listed id as' keyed)
    | inr (run, found) ↦
        let own = get-Keyed (λ r. r.id) a.run_id runs keyed found in
        ground (arith, times-listed id as' keyed, own, eq_iff a.run_id id)
  ]

-- What a status shows of a job.
abbrev pub ShowsActive : {Json : Type 0} → MemoryState Json → ConcurrencyStatusRecord → Type 0
ShowsActive state status =
    length status.active_run_ids ≡ active_for_job state.runs state.attempts status.job_id

module _ {Json : Type 0} (state : MemoryState Json) (keyed : Keyed (λ r. r.id) state.runs)
    (single : (run_id : String)
      → open_attempts state.attempts run_id ≤ running_bit (get run_id state.runs)) where
  at_most_once :
      (job_id id : String)
      → times id (sort_ids (map (λ run. run.id) (runs_of_job state job_id))) ≤ 1
  unfolding sort_ids runs_of_job open_attempts running_bit
  at_most_once job_id id =
      let once = times-listed state.runs job_id id (values state.attempts) keyed in
      rw
        (count-sort_by (λ left right. not_after (cmp_text left right)) (λ other. str_eq other id)
          (map (λ run. run.id) (listed_runs state.runs job_id (values state.attempts))))
        (ground (arith, single id, once))

  -- Where of each run at most one attempt is running, no run id is listed twice: the listing is as
  -- long as the number of attempts that run for the job.
  pub length-active_run_ids :
      (job_id : String)
      → length (active_run_ids_for_job state job_id)
        ≡ active_for_job state.runs state.attempts job_id
  unfolding active_run_ids_for_job sort_ids runs_of_job active_for_job
  length-active_run_ids job_id =
      rw
        (
          dedup-distinct (sort_ids (map (λ run. run.id) (runs_of_job state job_id)))
              (at_most_once job_id),
          length-sort_by (λ left right. not_after (cmp_text left right))
              (map (λ run. run.id) (runs_of_job state job_id)),
        )
        (length-listed state.runs job_id (values state.attempts))

  status-ShowsActive :
      (job : JobRecord) (status : ConcurrencyStatusRecord)
      → concurrency_status state job ≡ some status
      → ShowsActive state status
  unfolding concurrency_status
  status-ShowsActive job status e = ground (arith, length-active_run_ids job.id)

module _ {Json : Type 0} (s : MemoryStore Json) (keyed : Keyed (λ r. r.id) s.state.runs)
    (single : (run_id : String)
      → open_attempts s.state.attempts run_id ≤ running_bit (get run_id s.state.runs)) where
  pub list_concurrency_status-ShowsActive :
      (statuses : List ConcurrencyStatusRecord) × (list_concurrency_status s ≡ ok statuses)
      × All (ShowsActive s.state) statuses
  unfolding list_concurrency_status
  list_concurrency_status-ShowsActive = (
    _,
    refl,
    All-sort_by _ (ShowsActive s.state)
        (filter_map (concurrency_status s.state) (values s.state.jobs))
        (All-filter_map (ShowsActive s.state) (concurrency_status s.state) (values s.state.jobs)
          (status-ShowsActive s.state keyed single)),
  )
