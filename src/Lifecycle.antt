-- ===== src/Lifecycle.antt =====
-- The life of runs and attempts, as an abstract machine: six moves on the runs and the attempts
-- of the store of crates/gum-store/src/memory.rs, while its jobs stay as they are. The modules
-- below hold its invariants and its relation to the store.
pub mod Single
pub mod Steps
pub mod Ids
pub mod Refine
pub mod Counted
pub mod Attempted
pub mod Invariant
pub mod Final
pub mod Concurrency
use gum.Prelude.{
  ◌||◌, is_some, refl, ◌∙◌, ℕ, ◌+◌, ◌%◌, ◌^◌, ◌≤◌, ◌<◌, ◌≡◌, Bool, true, false, Option, none, some,
  String, bit,
}
use gum.Map.{Map, get, insert}
use gum.Types.{RunStatus, AttemptStatus, run_status_eq}
use gum.Models.{JobRecord, RunRecord, AttemptRecord}
use gum.Queries.Disposition.{is_terminal_run}
use gum.Store.{MemoryStore}
use gum.Store.Recover.{is_running}
use gum.Store.Scope.{active_for_job}

pub record Core (Json : Type 0) : Type 0 where
  pub jobs : Map JobRecord
  pub runs : Map (RunRecord Json)
  pub attempts : Map AttemptRecord

-- The part of the store that the moves are about.
abbrev pub core : {Json : Type 0} → MemoryStore Json → Core Json
core s = record { jobs = s.state.jobs; runs = s.state.runs; attempts = s.state.attempts }

-- The run is the same one, with as many attempts allowed.
pub record SameRun {Json : Type 0} (run run' : RunRecord Json) : Type 0 where
  pub id : run'.id ≡ run.id
  pub job_id : run'.job_id ≡ run.job_id
  pub max_attempts : run'.max_attempts ≡ run.max_attempts
  pub scheduled : run'.scheduled_at_epoch_ms ≡ run.scheduled_at_epoch_ms
  pub trigger : run'.trigger_type ≡ run.trigger_type

-- An attempt that is not running has been finished.
abbrev pub IsSettled : AttemptRecord → Type 0
IsSettled a = (is_running a || is_some a.finished_at_epoch_ms) ≡ true

pub record SameAttempt (a a' : AttemptRecord) : Type 0 where
  pub id : a'.id ≡ a.id
  pub run_id : a'.run_id ≡ a.run_id
  pub settled : IsSettled a'

-- The job of the run, if it has a limit, has fewer attempts running.
abbrev pub HasRoom : {Json : Type 0} → Core Json → String → Type 0
HasRoom u job_id =
    (job : JobRecord) (limit : ℕ)
    → get job_id u.jobs ≡ some job
    → job.concurrency_limit ≡ some limit
    → active_for_job u.runs u.attempts job_id % 2 ^ 32 < limit

pub data Move {Json : Type 0} (u v : Core Json) : Type 0 where
  -- a new run waits
  submit :
      (run : RunRecord Json)
      → get run.id u.runs ≡ none
      → run.status ≡ RunStatus.queued
      → run.attempt_count ≡ 0
      → 0 < run.max_attempts
      → run.max_attempts < 2 ^ 32
      → v.jobs ≡ u.jobs
      → v.runs ≡ insert run.id run u.runs
      → v.attempts ≡ u.attempts
      → Move u v
  -- a waiting run gets an attempt
  start :
      (key : String) (run run' : RunRecord Json) (a : AttemptRecord)
      → get key u.runs ≡ some run
      → run.status ≡ RunStatus.queued
      → HasRoom u run.job_id
      → SameRun run run'
      → run'.status ≡ RunStatus.running
      → run'.attempt_count ≡ (run.attempt_count + 1) % 2 ^ 32
      → get a.id u.attempts ≡ none
      → a.run_id ≡ key
      → is_running a ≡ true
      → v.jobs ≡ u.jobs
      → v.runs ≡ insert key run' u.runs
      → v.attempts ≡ insert a.id a u.attempts
      → Move u v
  -- a running attempt is written, its run is not
  report :
      (key : String) (a a' : AttemptRecord)
      → get key u.attempts ≡ some a
      → is_running a ≡ true
      → SameAttempt a a'
      → v.jobs ≡ u.jobs
      → v.runs ≡ u.runs
      → v.attempts ≡ insert key a' u.attempts
      → Move u v
  -- a running attempt ends, and its run ends or waits again
  finish :
      (key : String) (a a' : AttemptRecord) (run run' : RunRecord Json)
      → get key u.attempts ≡ some a
      → is_running a ≡ true
      → SameAttempt a a'
      → is_running a' ≡ false
      → get a.run_id u.runs ≡ some run
      → SameRun run run'
      → run'.attempt_count ≡ run.attempt_count
      → run_status_eq run'.status RunStatus.running ≡ false
      → (run'.status ≡ RunStatus.queued → run.attempt_count < run.max_attempts)
      → v.jobs ≡ u.jobs
      → v.runs ≡ insert a.run_id run' u.runs
      → v.attempts ≡ insert key a' u.attempts
      → Move u v
  -- a run is written, its progress is not
  note :
      (key : String) (run run' : RunRecord Json)
      → get key u.runs ≡ some run
      → SameRun run run'
      → run'.attempt_count ≡ run.attempt_count
      → run'.status ≡ run.status
      → v.jobs ≡ u.jobs
      → v.runs ≡ insert key run' u.runs
      → v.attempts ≡ u.attempts
      → Move u v
  -- a waiting run ends
  withdraw :
      (key : String) (run run' : RunRecord Json)
      → get key u.runs ≡ some run
      → run.status ≡ RunStatus.queued
      → SameRun run run'
      → run'.attempt_count ≡ run.attempt_count
      → is_terminal_run run'.status ≡ true
      → v.jobs ≡ u.jobs
      → v.runs ≡ insert key run' u.runs
      → v.attempts ≡ u.attempts
      → Move u v

-- Any number of moves.
pub data Moves {Json : Type 0} (u : Core Json) : Core Json → Type 0 where
  stay : Moves u u
  more : {v w : Core Json} → Moves u v → Move v w → Moves u w

module _ {Json : Type 0} where
  pub one-Move : {u v : Core Json} → Move u v → Moves u v
  one-Move m = more stay m

  pub Moves-trans : {u v w : Core Json} → Moves u v → Moves v w → Moves u w
  Moves-trans p stay = p
  Moves-trans p (more q m) = more (Moves-trans p q) m

pub same_jobs : {Json : Type 0} {u v : Core Json} → Move u v → v.jobs ≡ u.jobs
same_jobs (submit _ _ _ _ _ _ ej _ _) = ej
same_jobs (start _ _ _ _ _ _ _ _ _ _ _ _ _ ej _ _) = ej
same_jobs (report _ _ _ _ _ _ ej _ _) = ej
same_jobs (finish _ _ _ _ _ _ _ _ _ _ _ _ _ _ ej _ _) = ej
same_jobs (note _ _ _ _ _ _ _ ej _ _) = ej
same_jobs (withdraw _ _ _ _ _ _ _ _ ej _ _) = ej

pub Moves-same_jobs : {Json : Type 0} {u v : Core Json} → Moves u v → v.jobs ≡ u.jobs
Moves-same_jobs stay = refl
Moves-same_jobs (more ms m) = same_jobs m ∙ Moves-same_jobs ms
