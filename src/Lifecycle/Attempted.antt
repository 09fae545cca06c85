-- ===== src/Lifecycle/Attempted.antt =====
-- The attempts of a run that are stored, and the count that the run keeps of them, under the moves
-- (crates/gum-store/src/memory.rs).
use gum.Prelude.{
  ℕ, ◌+◌, ◌%◌, ◌^◌, ◌≤◌, ◌≡◌, Bool, Option, none, some, String, str_eq, eq_iff, arith,
}
use gum.Prelude.Lists.{count}
use gum.Map.{Map, get, insert, values, get-insert, count-insert}
use gum.Types.{RunStatus, run_status_eq}
use gum.Models.{RunRecord, AttemptRecord}
use gum.Lifecycle.Counted.{IsCounted}

-- The attempt is one of the run, in whatever state.
unfoldable pub made_for : String → AttemptRecord → Bool
made_for run_id a = str_eq a.run_id run_id

-- How many attempts of the run there are.
unfoldable pub attempts_made : Map AttemptRecord → String → ℕ
unfolding made_for
attempts_made attempts run_id = count (made_for run_id) (values attempts)

-- What the run says of that; 0 where there is no run.
unfoldable pub attempts_counted : {Json : Type 0} → Option (RunRecord Json) → ℕ
attempts_counted none = 0
attempts_counted (some run) = run.attempt_count

-- A run that waits has not been attempted 2 ^ 32 - 1 times.
room_to_count :
    {Json : Type 0} (run : RunRecord Json)
    → IsCounted run
    → run.status ≡ RunStatus.queued
    → (run.attempt_count + 1) % 2 ^ 32 ≡ run.attempt_count + 1
unfolding run_status_eq
room_to_count run counted queued = ground (arith, counted.within, counted.fits)

module _ {Json : Type 0} (rs : Map (RunRecord Json)) (as' : Map AttemptRecord) (run_id : String)
    (h : attempts_made as' run_id ≤ attempts_counted (get run_id rs)) where
  pub made-submit :
      (run : RunRecord Json)
      → get run.id rs ≡ none
      → attempts_made as' run_id ≤ attempts_counted (get run_id (insert run.id run rs))
  unfolding attempts_counted
  made-submit run fresh = ground (arith, get-insert run.id run_id run rs, eq_iff run.id run_id)

  pub made-start :
      (key : String) (run run' : RunRecord Json) (a : AttemptRecord)
      → get key rs ≡ some run
      → IsCounted run
      → run.status ≡ RunStatus.queued
      → run'.attempt_count ≡ (run.attempt_count + 1) % 2 ^ 32
      → get a.id as' ≡ none
      → a.run_id ≡ key
      → attempts_made (insert a.id a as') run_id
        ≤ attempts_counted (get run_id (insert key run' rs))
  unfolding attempts_made attempts_counted made_for
  made-start key run run' a found counted queued next fresh of_run =
      let one_more = room_to_count run counted queued in
      ground (
        arith,
        get-insert key run_id run' rs,
        eq_iff key run_id,
        eq_iff a.run_id run_id,
        count-insert (made_for run_id) a.id a as',
      )

  pub made-write_attempt :
      (key : String) (a a' : AttemptRecord)
      → get key as' ≡ some a
      → a'.run_id ≡ a.run_id
      → attempts_made (insert key a' as') run_id ≤ attempts_counted (get run_id rs)
  unfolding attempts_made made_for
  made-write_attempt key a a' found of_run = ground (
    arith,
    eq_iff a.run_id run_id,
    eq_iff a'.run_id run_id,
    count-insert (made_for run_id) key a' as',
  )

  pub made-write_run :
      (key : String) (run run' : RunRecord Json)
      → get key rs ≡ some run
      → run'.attempt_count ≡ run.attempt_count
      → attempts_made as' run_id ≤ attempts_counted (get run_id (insert key run' rs))
  unfolding attempts_counted
  made-write_run key run run' found same =
      ground (arith, get-insert key run_id run' rs, eq_iff key run_id)
