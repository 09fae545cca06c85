-- ===== src/Lifecycle/Concurrency.antt =====
-- The concurrency limits of jobs under the moves (the limit of lease_next_attempt in crates/gum-
-- store/src/memory.rs).
use gum.Prelude.{
  bit-le-one, Bool-cases, inl, inr, subst, ℕ, ◌%◌, ◌^◌, ◌≤◌, ◌<◌, ◌≡◌, true, false, [], none, some,
  String, str_eq, eq_iff, arith,
}
use gum.Prelude.Lists.{All, count, All-map, All-of_forall, All-of_count-zero, count-eq_of_agree}
use gum.Map.{Map, get, insert, values, get-insert, count-insert, All-get}
use gum.Models.{JobRecord, RunRecord, AttemptRecord}
use gum.Store.Recover.{is_running}
use gum.Store.Scope.{runs_for, active_for_job}
use gum.Lifecycle.{
  Core, HasRoom, Move, submit, start, report, finish, note, withdraw, Moves, stay, more, same_jobs,
}
use gum.Lifecycle.Single.{open_for, open_attempts, running_bit}
use gum.Lifecycle.Invariant.{Inv, Moves-Inv}

-- Each job with a limit, which is a u32, has at most that many attempts running.
pub record Limited {Json : Type 0} (u : Core Json) : Type 0 where
  pub at_job :
      (job_id : String) (job : JobRecord) (limit : ℕ)
      → get job_id u.jobs ≡ some job
      → job.concurrency_limit ≡ some limit
      → (active_for_job u.runs u.attempts job_id ≤ limit) × (limit < 2 ^ 32)

module _ {Json : Type 0} (rs : Map (RunRecord Json)) (as' : Map AttemptRecord)
    (job_id : String) where
  -- A run that is written keeps its job, and so do its attempts.
  runs_for-write :
      (key : String) (run run' : RunRecord Json) (a : AttemptRecord)
      → get key rs ≡ some run
      → run'.job_id ≡ run.job_id
      → runs_for (insert key run' rs) job_id a ≡ runs_for rs job_id a
  unfolding runs_for
  runs_for-write key run run' a found same =
      ground (arith, get-insert key a.run_id run' rs, eq_iff key a.run_id)

  active-write :
      (key : String) (run run' : RunRecord Json)
      → get key rs ≡ some run
      → run'.job_id ≡ run.job_id
      → active_for_job (insert key run' rs) as' job_id ≡ active_for_job rs as' job_id
  unfolding active_for_job
  active-write key run run' found same =
      count-eq_of_agree (runs_for (insert key run' rs) job_id) (runs_for rs job_id) (values as') (
        All-of_forall (λ a. runs_for (insert key run' rs) job_id a ≡ runs_for rs job_id a)
          (values as') (λ a. runs_for-write key run run' a found same))

  -- A new run has no attempts yet.
  runs_for-submit :
      (run : RunRecord Json) (a : AttemptRecord)
      → open_for run.id a ≡ false
      → runs_for (insert run.id run rs) job_id a ≡ runs_for rs job_id a
  unfolding runs_for open_for
  runs_for-submit run a closed =
      ground
        (arith, get-insert run.id a.run_id run rs, eq_iff run.id a.run_id, eq_iff a.run_id run.id)

  active-submit :
      (run : RunRecord Json)
      → open_attempts as' run.id ≡ 0
      → active_for_job (insert run.id run rs) as' job_id ≡ active_for_job rs as' job_id
  unfolding active_for_job open_attempts
  active-submit run none_open =
      count-eq_of_agree (runs_for (insert run.id run rs) job_id) (runs_for rs job_id) (values as') (
        All-map (λ a. open_for run.id a ≡ false)
          (λ a. runs_for (insert run.id run rs) job_id a ≡ runs_for rs job_id a) (values as')
          (λ a closed. runs_for-submit run a closed)
          (All-of_count-zero (open_for run.id) (values as') none_open))

  -- A running attempt that is written counts for no other job.
  active-report :
      (key : String) (a a' : AttemptRecord)
      → get key as' ≡ some a
      → is_running a ≡ true
      → a'.run_id ≡ a.run_id
      → active_for_job rs (insert key a' as') job_id ≤ active_for_job rs as' job_id
  unfolding active_for_job runs_for
  active-report key a a' found running same =
      ground (arith, count-insert (runs_for rs job_id) key a' as')

  runs_for_run :
      (a : AttemptRecord) (run : RunRecord Json)
      → get a.run_id rs ≡ some run
      → str_eq run.job_id job_id ≡ false
      → runs_for rs job_id a ≡ false
  unfolding runs_for
  runs_for_run a run found other = ground arith

  active-start :
      (a : AttemptRecord) (run : RunRecord Json) (limit : ℕ)
      → get a.id as' ≡ none
      → get a.run_id rs ≡ some run
      → active_for_job rs as' job_id ≤ limit
      → limit < 2 ^ 32
      → (run.job_id ≡ job_id → active_for_job rs as' job_id % 2 ^ 32 < limit)
      → active_for_job rs (insert a.id a as') job_id ≤ limit
  unfolding active_for_job
  active-start a run limit fresh found below fits room =
      elim (Bool-cases (str_eq run.job_id job_id)) [
        | inl same ↦
            let left = room ((eq_iff run.job_id job_id).0 same) in
            ground (
              arith,
              bit-le-one (runs_for rs job_id a),
              count-insert (runs_for rs job_id) a.id a as',
            )
        | inr other ↦
            ground
              (arith, runs_for_run a run found other, count-insert (runs_for rs job_id) a.id a as')
      ]

none_open :
    {Json : Type 0} (rs : Map (RunRecord Json)) (as' : Map AttemptRecord) (run_id : String)
    → open_attempts as' run_id ≤ running_bit (get run_id rs)
    → get run_id rs ≡ none
    → open_attempts as' run_id ≡ 0
unfolding running_bit
none_open rs as' run_id h e = ground arith

at_room :
    {Json : Type 0} (u : Core Json) (run_job job_id : String)
    → run_job ≡ job_id
    → HasRoom u run_job
    → HasRoom u job_id
at_room u run_job job_id same = subst (HasRoom u) same

module _ {Json : Type 0} {u v : Core Json} (h : Inv u) (l : Limited u) where
  -- The bound at one job.
  active_bound :
      Move u v
      → (job_id : String) (job : JobRecord) (limit : ℕ) → get job_id u.jobs ≡ some job
      → job.concurrency_limit ≡ some limit
      → active_for_job v.runs v.attempts job_id ≤ limit
  active_bound (submit run fresh _ _ _ _ ej er ea) job_id job limit e k =
      rw (er, ea)
        (omega (
          arith,
          (l.at_job job_id job limit e k).0,
          active-submit u.runs u.attempts job_id run
              (none_open u.runs u.attempts run.id (h.single run.id) fresh),
        ))
  active_bound
        (start key run run' a found queued room same started counted fresh of_run running ej er ea)
        job_id job limit e k =
      let (below, fits) = l.at_job job_id job limit e k in
      rw (er, ea)
        (rw (active-write u.runs (insert a.id a u.attempts) job_id key run run' found same.job_id) (
          active-start u.runs u.attempts job_id a run limit fresh (rw of_run found) below fits
            (λ same_job. at_room u run.job_id job_id same_job room job limit e k)))
  active_bound (report key a a' found running same ej er ea) job_id job limit e k =
      rw (er, ea)
        (omega (
          arith,
          (l.at_job job_id job limit e k).0,
          active-report u.runs u.attempts job_id key a a' found running same.run_id,
        ))
  active_bound
        (finish key a a' run run' found running same ended of_run kept counted stops left ej er ea)
        job_id job limit e k =
      rw (er, ea)
        (rw
          (active-write u.runs (insert key a' u.attempts) job_id a.run_id run run' of_run
            kept.job_id)
          (omega (
            arith,
            (l.at_job job_id job limit e k).0,
            active-report u.runs u.attempts job_id key a a' found running same.run_id,
          )))
  active_bound (note key run run' found same counted kept ej er ea) job_id job limit e k =
      rw (er, ea)
        (rw (active-write u.runs u.attempts job_id key run run' found same.job_id)
          (l.at_job job_id job limit e k).0)
  active_bound (withdraw key run run' found queued same counted ended ej er ea) job_id job limit e
        k =
      rw (er, ea)
        (rw (active-write u.runs u.attempts job_id key run run' found same.job_id)
          (l.at_job job_id job limit e k).0)

  pub Move-Limited : Move u v → Limited v
  Move-Limited m = record {
    at_job = λ job_id job limit e k.
        let e' : get job_id u.jobs ≡ some job = rw (← same_jobs m) e in
        (active_bound m job_id job limit e' k, (l.at_job job_id job limit e' k).1);
  }

module _ {Json : Type 0} {u : Core Json} where
  pub Moves-Limited : {v : Core Json} → Inv u → Limited u → Moves u v → Limited v
  Moves-Limited h l stay = l
  Moves-Limited h l (more ms m) = Move-Limited (Moves-Inv ms h) (Moves-Limited h l ms) m

-- With no attempt there is room, where the limits of the jobs are u32.
pub unstarted-Limited :
    {Json : Type 0} (u : Core Json)
    → u.attempts ≡ []
    → All (λ job. (limit : ℕ) → job.concurrency_limit ≡ some limit → limit < 2 ^ 32) (values u.jobs)
    → Limited u
unfolding active_for_job values count
unstarted-Limited u none_started fit = record {
  at_job = λ job_id job limit found bound. (
    rw none_started (omega arith),
    All-get (λ j. (l : ℕ) → j.concurrency_limit ≡ some l → l < 2 ^ 32) job_id u.jobs fit found limit
        bound,
  );
}
