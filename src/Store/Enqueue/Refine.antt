-- ===== src/Store/Enqueue/Refine.antt =====
-- `enqueue_run` and `replay_run` of crates/gum-store/src/memory.rs against the abstract machine.
use gum.Prelude.{◌≤◌, ap, ◌∙◌, ◌+◌, ◌^◌, ◌<◌, ◌≡◌, refl, Option, none, some, String, arith}
use gum.Prelude.Int.{ℤ}
use gum.Map.{get, insert, All-get}
use gum.Types.{RunStatus, Result, ok, err}
use gum.Models.{RunRecord, JobRecord, RunKeyRecord}
use gum.Queries.Params.{EnqueueRunParams, ReplayRunParams}
use gum.Store.{MemoryState, MemoryStore, identifier, next_id, next_number}
use gum.Store.Enqueue.{
  KeyLookup, duplicate, proceed, attempts_allowed, enqueue_check, queued_run, remember_key, add_run,
  enqueue_new, lookup_key, enqueue_checked, enqueue_run, replay_of, replay_source, replay_run,
  found_key, drop_stale, live_run,
}
use gum.Lifecycle.{submit, one-Move}
use gum.Lifecycle.Counted.{IsCounted}
use gum.Lifecycle.Ids.{next_number_lem, insert-FreshAbove, later-FreshAbove}
use gum.Lifecycle.Refine.{StoreInv, Refines, Refines-refl}

-- The retries of the job, and one more, fit in u32.
abbrev pub RetriesFit : JobRecord → Type 0
RetriesFit job = job.retries + 1 < 2 ^ 32

pub attempts_allowed_lem :
    (job : JobRecord) → RetriesFit job → attempts_allowed job ≡ job.retries + 1
unfolding attempts_allowed
attempts_allowed_lem job h = omega arith

module _ {Json : Type 0} {s t : MemoryStore Json} (h : StoreInv s) (room : s.ids + 1 < 2 ^ 64) where
  -- A run is put under the next identifier.
  pub submit_step :
      (run : RunRecord Json)
      → run.id ≡ identifier "run" (next_number s.ids)
      → run.status ≡ RunStatus.queued
      → run.attempt_count ≡ 0
      → 0 < run.max_attempts
      → run.max_attempts < 2 ^ 32
      → t.ids ≡ next_number s.ids
      → t.state.jobs ≡ s.state.jobs
      → t.state.runs ≡ insert run.id run s.state.runs
      → t.state.attempts ≡ s.state.attempts
      → Refines s t
  submit_step run named queued none_yet some_left fits ei ej er ea =
      let next = next_number_lem s.ids room in
      record {
        moves = one-Move (
            submit run (rw named (h.fresh.runs (next_number s.ids) (omega arith))) queued none_yet
              some_left fits ej er ea);
        fresh = record {
          runs =
              rw (ei, er)
                (insert-FreshAbove "run" run.id s.ids (next_number s.ids) run s.state.runs named
                  (omega arith) h.fresh.runs);
          attempts =
              rw (ei, ea)
                (later-FreshAbove "att" s.ids (next_number s.ids) s.state.attempts (omega arith)
                  h.fresh.attempts);
        };
      }

module _ {Json : Type 0} (s : MemoryStore Json) (h : StoreInv s) (room : s.ids + 1 < 2 ^ 64) where
  replay_source-Refines :
      (source_id : String) (now : ℤ) (source : Option (RunRecord Json))
      → get source_id s.state.runs ≡ source
      → Refines s (replay_source s now source).1
  unfolding replay_source next_id
  replay_source-Refines source_id now none found = Refines-refl s h
  replay_source-Refines source_id now (some source) found =
      let counted = All-get IsCounted source_id s.state.runs h.inv.counted found in
      submit_step h room (replay_of source now (identifier "run" (next_number s.ids))) refl refl
        refl counted.some_allowed counted.fits refl refl refl refl

  -- From a store that keeps the invariant and has an identifier left, a replay makes only moves of
  -- the abstract machine, whatever it returns.
  pub replay_run-Refines :
      (params : ReplayRunParams) (now : ℤ) → Refines s (replay_run s params now).1
  unfolding replay_run
  replay_run-Refines params now =
      replay_source-Refines params.source_run_id now (get params.source_run_id s.state.runs) refl

  -- What the keys leave to do.
  data KeepsLife : KeyLookup Json → Type 0 where
    found : (run : RunRecord Json) → KeepsLife (duplicate run)
    go_on :
        (state : MemoryState Json)
        → state.jobs ≡ s.state.jobs
        → state.runs ≡ s.state.runs
        → state.attempts ≡ s.state.attempts
        → KeepsLife (proceed state)

  drop_stale-KeepsLife :
      (scope : String) (run : Option (RunRecord Json)) → KeepsLife (drop_stale s.state scope run)
  unfolding drop_stale
  drop_stale-KeepsLife scope none = go_on _ refl refl refl
  drop_stale-KeepsLife scope (some run) = found run

  found_key-KeepsLife :
      (now : ℤ) (scope : String) (key : Option RunKeyRecord)
      → KeepsLife (found_key s.state now scope key)
  unfolding found_key
  found_key-KeepsLife now scope none = go_on _ refl refl refl
  found_key-KeepsLife now scope (some existing) =
      drop_stale-KeepsLife scope (live_run s.state now existing)

  lookup_key-KeepsLife :
      (now : ℤ) (params : EnqueueRunParams Json) (key : Option String)
      → params.dedupe_key_value ≡ key
      → KeepsLife (lookup_key s.state now params)
  unfolding lookup_key
  lookup_key-KeepsLife now params none e = rw (e, lookup_key) (go_on _ refl refl refl)
  lookup_key-KeepsLife now params (some key_value) e =
      rw (e, lookup_key) (found_key-KeepsLife now _ _)

  remember_key_keeps :
      (state : MemoryState Json) (run : RunRecord Json) (now : ℤ) (key : Option String)
      → ((remember_key state run now key).jobs ≡ state.jobs)
        × ((remember_key state run now key).runs ≡ state.runs)
        × ((remember_key state run now key).attempts ≡ state.attempts)
  unfolding remember_key
  remember_key_keeps state run now none = (refl, refl, refl)
  remember_key_keeps state run now (some key) = (refl, refl, refl)

  enqueue_new-Refines :
      (params : EnqueueRunParams Json) (job : JobRecord) (now : ℤ) (key : KeyLookup Json)
      → RetriesFit job
      → KeepsLife key
      → Refines s (enqueue_new s params job now key).1
  unfolding enqueue_new next_id add_run
  enqueue_new-Refines params job now key fits (found run) = Refines-refl s h
  enqueue_new-Refines params job now key fits (go_on state ej er ea) =
      let run = queued_run params job now (identifier "run" (next_number s.ids)) in
      let kept = remember_key_keeps state run now params.dedupe_key_value in
      let allowed = attempts_allowed_lem job fits in
      submit_step h room run refl refl refl (omega arith) (omega arith) refl (kept.0 ∙ ej)
        (ap (insert run.id run) (kept.1 ∙ er)) (kept.2 ∙ ea)

  -- A job that passes the checks is the one that was found.
  enqueue_check-ok :
      (params : EnqueueRunParams Json) (found : Option JobRecord) (job : JobRecord)
      → enqueue_check params found ≡ ok job
      → found ≡ some job
  unfolding enqueue_check
  enqueue_check-ok params none job e = ground arith
  enqueue_check-ok params (some other) job e = ground arith

  enqueue_checked-Refines :
      (params : EnqueueRunParams Json) (now : ℤ) (job : Result JobRecord)
      → ((j : JobRecord) → job ≡ ok j → RetriesFit j)
      → Refines s (enqueue_checked s params now job).1
  unfolding enqueue_checked
  enqueue_checked-Refines params now (err e) fits = Refines-refl s h
  enqueue_checked-Refines params now (ok job) fits =
      enqueue_new-Refines params job now (lookup_key s.state now params) (fits job refl)
        (lookup_key-KeepsLife now params params.dedupe_key_value refl)

  -- From a store that keeps the invariant and has an identifier left, with a job of fewer than 2 ^
  -- 32 - 1 retries, enqueuing makes only moves of the abstract machine, whatever it returns.
  pub enqueue_run-Refines :
      (params : EnqueueRunParams Json) (now : ℤ)
      → ((j : JobRecord) → get params.job_id s.state.jobs ≡ some j → RetriesFit j)
      → Refines s (enqueue_run s params now).1
  unfolding enqueue_run
  enqueue_run-Refines params now fits =
      enqueue_checked-Refines params now (enqueue_check params (get params.job_id s.state.jobs))
        (λ job e. fits job (enqueue_check-ok params (get params.job_id s.state.jobs) job e))

module _ {Json : Type 0} (s : MemoryStore Json) where
  next_taken : next_number s.ids ≤ s.ids + 1
  unfolding next_number
  next_taken = omega arith

  enqueue_new_taken :
      (params : EnqueueRunParams Json) (job : JobRecord) (now : ℤ) (key : KeyLookup Json)
      → (enqueue_new s params job now key).1.ids ≤ s.ids + 1
  unfolding enqueue_new next_id
  enqueue_new_taken params job now (duplicate run) = omega arith
  enqueue_new_taken params job now (proceed state) = next_taken

  enqueue_checked_taken :
      (params : EnqueueRunParams Json) (now : ℤ) (job : Result JobRecord)
      → (enqueue_checked s params now job).1.ids ≤ s.ids + 1
  unfolding enqueue_checked
  enqueue_checked_taken params now (err e) = omega arith
  enqueue_checked_taken params now (ok job) = enqueue_new_taken params job now _

  pub enqueue_run_taken :
      (params : EnqueueRunParams Json) (now : ℤ) → (enqueue_run s params now).1.ids ≤ s.ids + 1
  unfolding enqueue_run
  enqueue_run_taken params now = enqueue_checked_taken params now _

  replay_source_taken :
      (now : ℤ) (source : Option (RunRecord Json)) → (replay_source s now source).1.ids ≤ s.ids + 1
  unfolding replay_source next_id
  replay_source_taken now none = omega arith
  replay_source_taken now (some source) = next_taken

  pub replay_run_taken :
      (params : ReplayRunParams) (now : ℤ) → (replay_run s params now).1.ids ≤ s.ids + 1
  unfolding replay_run
  replay_run_taken params now = replay_source_taken now _
