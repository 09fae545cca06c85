-- ===== src/Lifecycle/Steps.antt =====
-- One step of an operation as one move, for the moves that make no new identifier.
use gum.Prelude.{ℕ, ◌<◌, ◌≡◌, true, false, some, String}
use gum.Map.{Map, get, insert}
use gum.Types.{RunStatus, run_status_eq}
use gum.Models.{RunRecord, AttemptRecord}
use gum.Queries.Disposition.{is_terminal_run}
use gum.Store.{MemoryStore}
use gum.Store.Recover.{is_running}
use gum.Lifecycle.{SameRun, SameAttempt, report, finish, note, withdraw, one-Move}
use gum.Lifecycle.Ids.{FreshAbove, write-FreshAbove}
use gum.Lifecycle.Refine.{StoreInv, Refines}

fresh_at :
    {V : Type 0} (prefix : String) {i j : ℕ} {m m' : Map V}
    → j ≡ i
    → m' ≡ m
    → FreshAbove prefix i m
    → FreshAbove prefix j m'
fresh_at prefix ei em h = rw (ei, em) h

module _ {Json : Type 0} {s t : MemoryStore Json} (h : StoreInv s) where
  pub report_step :
      (key : String) (a a' : AttemptRecord)
      → get key s.state.attempts ≡ some a
      → is_running a ≡ true
      → SameAttempt a a'
      → t.ids ≡ s.ids
      → t.state.jobs ≡ s.state.jobs
      → t.state.runs ≡ s.state.runs
      → t.state.attempts ≡ insert key a' s.state.attempts
      → Refines s t
  report_step key a a' found running same ei ej er ea = record {
    moves = one-Move (report key a a' found running same ej er ea);
    fresh = record {
      runs = fresh_at "run" ei er h.fresh.runs;
      attempts =
          fresh_at "att" ei ea
            (write-FreshAbove "att" s.ids key a a' s.state.attempts found h.fresh.attempts);
    };
  }

  pub finish_step :
      (key : String) (a a' : AttemptRecord) (run run' : RunRecord Json)
      → get key s.state.attempts ≡ some a
      → is_running a ≡ true
      → SameAttempt a a'
      → is_running a' ≡ false
      → get a.run_id s.state.runs ≡ some run
      → SameRun run run'
      → run'.attempt_count ≡ run.attempt_count
      → run_status_eq run'.status RunStatus.running ≡ false
      → (run'.status ≡ RunStatus.queued → run.attempt_count < run.max_attempts)
      → t.ids ≡ s.ids
      → t.state.jobs ≡ s.state.jobs
      → t.state.runs ≡ insert a.run_id run' s.state.runs
      → t.state.attempts ≡ insert key a' s.state.attempts
      → Refines s t
  finish_step key a a' run run' found running same ended of_run kept counted stops left ei ej er
        ea =
      record {
        moves = one-Move (
            finish key a a' run run' found running same ended of_run kept counted stops left ej er
              ea);
        fresh = record {
          runs =
              fresh_at "run" ei er
                (write-FreshAbove "run" s.ids a.run_id run run' s.state.runs of_run h.fresh.runs);
          attempts =
              fresh_at "att" ei ea
                (write-FreshAbove "att" s.ids key a a' s.state.attempts found h.fresh.attempts);
        };
      }

  pub note_step :
      (key : String) (run run' : RunRecord Json)
      → get key s.state.runs ≡ some run
      → SameRun run run'
      → run'.attempt_count ≡ run.attempt_count
      → run'.status ≡ run.status
      → t.ids ≡ s.ids
      → t.state.jobs ≡ s.state.jobs
      → t.state.runs ≡ insert key run' s.state.runs
      → t.state.attempts ≡ s.state.attempts
      → Refines s t
  note_step key run run' found same counted kept ei ej er ea = record {
    moves = one-Move (note key run run' found same counted kept ej er ea);
    fresh = record {
      runs =
          fresh_at "run" ei er
            (write-FreshAbove "run" s.ids key run run' s.state.runs found h.fresh.runs);
      attempts = fresh_at "att" ei ea h.fresh.attempts;
    };
  }

  pub withdraw_step :
      (key : String) (run run' : RunRecord Json)
      → get key s.state.runs ≡ some run
      → run.status ≡ RunStatus.queued
      → SameRun run run'
      → run'.attempt_count ≡ run.attempt_count
      → is_terminal_run run'.status ≡ true
      → t.ids ≡ s.ids
      → t.state.jobs ≡ s.state.jobs
      → t.state.runs ≡ insert key run' s.state.runs
      → t.state.attempts ≡ s.state.attempts
      → Refines s t
  withdraw_step key run run' found queued same counted ended ei ej er ea = record {
    moves = one-Move (withdraw key run run' found queued same counted ended ej er ea);
    fresh = record {
      runs =
          fresh_at "run" ei er
            (write-FreshAbove "run" s.ids key run run' s.state.runs found h.fresh.runs);
      attempts = fresh_at "att" ei ea h.fresh.attempts;
    };
  }
