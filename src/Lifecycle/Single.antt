-- ===== src/Lifecycle/Single.antt =====
-- The running attempts of a run under the moves (crates/gum-store/src/memory.rs).
use gum.Prelude.{
  ℕ, ◌≤◌, ◌≡◌, Bool, true, false, ◌&&◌, Option, none, some, String, str_eq, eq_iff, arith, bit,
  bit-le-one,
}
use gum.Prelude.Lists.{count}
use gum.Map.{Map, get, insert, values, get-insert, count-insert}
use gum.Types.{RunStatus, run_status_eq}
use gum.Models.{RunRecord, AttemptRecord}
use gum.Store.Recover.{is_running}

-- The attempt is a running one of the run.
unfoldable pub open_for : String → AttemptRecord → Bool
open_for run_id a = is_running a && str_eq a.run_id run_id

-- How many attempts of the run are running.
unfoldable pub open_attempts : Map AttemptRecord → String → ℕ
unfolding open_for
open_attempts attempts run_id = count (open_for run_id) (values attempts)

-- 1 for a run that is running, and 0 for any other.
unfoldable pub running_bit : {Json : Type 0} → Option (RunRecord Json) → ℕ
running_bit none = 0
running_bit (some run) = bit (run_status_eq run.status RunStatus.running)

module _ {Json : Type 0} (rs : Map (RunRecord Json)) (as' : Map AttemptRecord) (run_id : String)
    (h : open_attempts as' run_id ≤ running_bit (get run_id rs)) where
  pub single-submit :
      (run : RunRecord Json)
      → get run.id rs ≡ none
      → open_attempts as' run_id ≤ running_bit (get run_id (insert run.id run rs))
  unfolding running_bit
  single-submit run fresh = ground (arith, get-insert run.id run_id run rs, eq_iff run.id run_id)

  pub single-start :
      (key : String) (run run' : RunRecord Json) (a : AttemptRecord)
      → get key rs ≡ some run
      → run.status ≡ RunStatus.queued
      → run'.status ≡ RunStatus.running
      → get a.id as' ≡ none
      → a.run_id ≡ key
      → is_running a ≡ true
      → open_attempts (insert a.id a as') run_id ≤ running_bit (get run_id (insert key run' rs))
  unfolding open_attempts running_bit run_status_eq
  single-start key run run' a found queued started fresh of_run running = ground (
    arith,
    get-insert key run_id run' rs,
    eq_iff key run_id,
    eq_iff a.run_id run_id,
    count-insert (open_for run_id) a.id a as',
  )

  pub single-report :
      (key : String) (a a' : AttemptRecord)
      → get key as' ≡ some a
      → is_running a ≡ true
      → a'.run_id ≡ a.run_id
      → open_attempts (insert key a' as') run_id ≤ running_bit (get run_id rs)
  unfolding open_attempts
  single-report key a a' found running of_run = ground (
    arith,
    eq_iff a.run_id run_id,
    eq_iff a'.run_id run_id,
    count-insert (open_for run_id) key a' as',
  )

  pub single-finish :
      (key : String) (a a' : AttemptRecord) (run' : RunRecord Json)
      → get key as' ≡ some a
      → is_running a ≡ true
      → is_running a' ≡ false
      → open_attempts (insert key a' as') run_id
        ≤ running_bit (get run_id (insert a.run_id run' rs))
  unfolding open_attempts running_bit open_for
  single-finish key a a' run' found running ended = ground (
    arith,
    get-insert a.run_id run_id run' rs,
    eq_iff a.run_id run_id,
    bit-le-one (run_status_eq run'.status RunStatus.running),
    single-bound,
    count-insert (open_for run_id) key a' as',
  )
    where
      single-bound : running_bit (get run_id rs) ≤ 1
      single-bound = ground arith

  -- A write that keeps whether the run is running.
  pub single-write :
      (key : String) (run run' : RunRecord Json)
      → get key rs ≡ some run
      → run_status_eq run'.status RunStatus.running ≡ run_status_eq run.status RunStatus.running
      → open_attempts as' run_id ≤ running_bit (get run_id (insert key run' rs))
  unfolding running_bit
  single-write key run run' found same =
      ground (arith, get-insert key run_id run' rs, eq_iff key run_id)
