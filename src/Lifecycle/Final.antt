-- ===== src/Lifecycle/Final.antt =====
-- Ended runs and ended attempts under the moves (the terminal statuses of crates/gum-
-- store/src/memory.rs).
use gum.Prelude.{◌≡◌, true, Option, none, some, String, eq_iff, arith}
use gum.Map.{get, get-insert, count-pos}
use gum.Types.{RunStatus, run_status_eq}
use gum.Models.{RunRecord, AttemptRecord}
use gum.Queries.Disposition.{is_terminal_run}
use gum.Store.Recover.{is_running}
use gum.Lifecycle.{Core, Move, submit, start, report, finish, note, withdraw, Moves, stay, more}
use gum.Lifecycle.Single.{open_for, open_attempts, running_bit}
use gum.Lifecycle.Invariant.{Inv, Moves-Inv}

abbrev pub status_of : {Json : Type 0} → Option (RunRecord Json) → Option RunStatus
status_of none = none
status_of (some run) = some run.status

module _ {Json : Type 0} {u : Core Json} where
  -- The run of a running attempt is running.
  pub running_run :
      (key : String) (a : AttemptRecord)
      → Inv u
      → get key u.attempts ≡ some a
      → is_running a ≡ true
      → status_of (get a.run_id u.runs) ≡ some RunStatus.running
  unfolding open_attempts open_for running_bit run_status_eq
  running_run key a h found running = ground (
    arith,
    h.single a.run_id,
    eq_iff a.run_id a.run_id,
    count-pos (open_for a.run_id) key u.attempts {v = a},
  )

module _ {Json : Type 0} {u v : Core Json} (h : Inv u) (run_id : String) (status : RunStatus)
    (here : status_of (get run_id u.runs) ≡ some status)
    (over : is_terminal_run status ≡ true) where
  pub Move-final : Move u v → status_of (get run_id v.runs) ≡ some status
  unfolding is_terminal_run
  Move-final (submit run fresh _ _ _ _ ej er ea) =
      rw er (ground (arith, get-insert run.id run_id run u.runs, eq_iff run.id run_id))
  Move-final
        (start key run run' a found queued room same started counted fresh of_run running ej er
          ea) =
      rw er (ground (arith, get-insert key run_id run' u.runs, eq_iff key run_id))
  Move-final (report key a a' found running same ej er ea) = rw er here
  Move-final
        (finish key a a' run run' found running same ended of_run kept counted stops left ej er
          ea) =
      rw er (
        ground (
          arith,
          running_run key a h found running,
          get-insert a.run_id run_id run' u.runs,
          eq_iff a.run_id run_id,
        ))
  Move-final (note key run run' found same counted kept ej er ea) =
      rw er (ground (arith, get-insert key run_id run' u.runs, eq_iff key run_id))
  Move-final (withdraw key run run' found queued same counted ended ej er ea) =
      rw er (ground (arith, get-insert key run_id run' u.runs, eq_iff key run_id))

module _ {Json : Type 0} {u : Core Json} (run_id : String) (status : RunStatus) where
  pub Moves-final :
      {v : Core Json}
      → Inv u
      → status_of (get run_id u.runs) ≡ some status
      → is_terminal_run status ≡ true
      → Moves u v
      → status_of (get run_id v.runs) ≡ some status
  Moves-final h here over stay = here
  Moves-final h here over (more ms m) =
      Move-final (Moves-Inv ms h) run_id status (Moves-final h here over ms) over m
