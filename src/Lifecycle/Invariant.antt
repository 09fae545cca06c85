-- ===== src/Lifecycle/Invariant.antt =====
-- The invariant of the moves: the running attempts of a run, how often it has been attempted, and
-- the keys of the maps of crates/gum-store/src/memory.rs.
use gum.Prelude.{some, String, [], ◌≤◌, ◌≡◌, refl, sym, ap, ◌∙◌, true, String, arith}
use gum.Prelude.Lists.{count, All, count}
use gum.Map.{insert, get, values, All-insert, All-get}
use gum.Map.Keyed.{Keyed, insert-Keyed, get-Keyed}
use gum.Types.{RunStatus, run_status_eq}
use gum.Models.{RunRecord, AttemptRecord}
use gum.Queries.Disposition.{is_terminal_run}
use gum.Lifecycle.Single.{
  open_attempts, running_bit, single-submit, single-start, single-report, single-finish,
  single-write,
}
use gum.Lifecycle.Attempted.{
  attempts_made, attempts_counted, made-submit, made-start, made-write_attempt, made-write_run,
}
use gum.Lifecycle.Counted.{
  IsCounted, queued-IsCounted, start-IsCounted, end-IsCounted, write-IsCounted, withdraw-IsCounted,
}
use gum.Lifecycle.{
  Core, SameRun, SameAttempt, IsSettled, Move, submit, start, report, finish, note, withdraw, Moves,
  stay, more,
}

pub record Inv {Json : Type 0} (u : Core Json) : Type 0 where
  pub runs_keyed : Keyed (λ r. r.id) u.runs
  pub attempts_keyed : Keyed (λ a. a.id) u.attempts
  pub single : (run_id : String) → open_attempts u.attempts run_id ≤ running_bit (get run_id u.runs)
  pub made :
      (run_id : String) → attempts_made u.attempts run_id ≤ attempts_counted (get run_id u.runs)
  pub counted : All IsCounted (values u.runs)
  pub settled : All IsSettled (values u.attempts)

not_running :
    {Json : Type 0} (run run' : RunRecord Json)
    → run.status ≡ RunStatus.queued
    → is_terminal_run run'.status ≡ true
    → run_status_eq run'.status RunStatus.running ≡ run_status_eq run.status RunStatus.running
unfolding run_status_eq is_terminal_run
not_running run run' queued ended = ground arith

-- A record that replaces one stands under the same key.
own_key :
    {Json : Type 0} {u : Core Json} {key : String} {run run' : RunRecord Json}
    → Inv u
    → get key u.runs ≡ some run
    → SameRun run run'
    → key ≡ run'.id
own_key {u} {key} h found same = sym (same.id ∙ get-Keyed (λ r. r.id) key u.runs h.runs_keyed found)

own_attempt :
    {Json : Type 0} {u : Core Json} {key : String} {a a' : AttemptRecord}
    → Inv u
    → get key u.attempts ≡ some a
    → SameAttempt a a'
    → key ≡ a'.id
own_attempt {u} {key} h found same =
    sym (same.id ∙ get-Keyed (λ a. a.id) key u.attempts h.attempts_keyed found)

module _ {Json : Type 0} {u v : Core Json} where
  pub Move-Inv : Move u v → Inv u → Inv v
  Move-Inv (submit run fresh queued none_yet some_left fits ej er ea) h = record {
    runs_keyed = rw er (insert-Keyed (λ r. r.id) run.id run u.runs refl h.runs_keyed);
    attempts_keyed = rw ea h.attempts_keyed;
    single = λ r. rw (er, ea) (single-submit u.runs u.attempts r (h.single r) run fresh);
    made = λ r. rw (er, ea) (made-submit u.runs u.attempts r (h.made r) run fresh);
    settled = rw ea h.settled;
    counted = rw er (
        All-insert IsCounted run.id run u.runs h.counted
          (queued-IsCounted run none_yet some_left fits));
  }
  Move-Inv
        (start key run run' a found queued room same started counted fresh of_run running ej er ea)
        h =
      record {
        runs_keyed =
            rw er (insert-Keyed (λ r. r.id) key run' u.runs (own_key h found same) h.runs_keyed);
        attempts_keyed = rw ea (insert-Keyed (λ a. a.id) a.id a u.attempts refl h.attempts_keyed);
        single = λ r.
            rw (er, ea)
              (single-start u.runs u.attempts r (h.single r) key run run' a found queued started
                fresh of_run running);
        made = λ r.
            rw (er, ea)
              (made-start u.runs u.attempts r (h.made r) key run run' a found
                (All-get IsCounted key u.runs h.counted found) queued counted fresh of_run);
        settled = rw ea (All-insert IsSettled a.id a u.attempts h.settled (ground arith));
        counted = rw er (
            All-insert IsCounted key run' u.runs h.counted (
              start-IsCounted run' (All-get IsCounted key u.runs h.counted found) queued same
                started counted));
      }
  Move-Inv (report key a a' found running same ej er ea) h = record {
    runs_keyed = rw er h.runs_keyed;
    attempts_keyed =
        rw ea
          (insert-Keyed (λ a. a.id) key a' u.attempts (own_attempt h found same) h.attempts_keyed);
    single = λ r.
        rw (er, ea)
          (single-report u.runs u.attempts r (h.single r) key a a' found running same.run_id);
    made = λ r.
        rw (er, ea) (made-write_attempt u.runs u.attempts r (h.made r) key a a' found same.run_id);
    settled = rw ea (All-insert IsSettled key a' u.attempts h.settled same.settled);
    counted = rw er h.counted;
  }
  Move-Inv
        (finish key a a' run run' found running same ended of_run kept counted stops left ej er ea)
        h =
      record {
        runs_keyed =
            rw er
              (insert-Keyed (λ r. r.id) a.run_id run' u.runs (own_key h of_run kept) h.runs_keyed);
        attempts_keyed = rw ea (
            insert-Keyed (λ a. a.id) key a' u.attempts (own_attempt h found same) h.attempts_keyed);
        single = λ r.
            rw (er, ea)
              (single-finish u.runs u.attempts r (h.single r) key a a' run' found running ended);
        made = λ r.
            rw (er, ea)
              (made-write_run u.runs (insert key a' u.attempts) r
                (made-write_attempt u.runs u.attempts r (h.made r) key a a' found same.run_id)
                a.run_id run run' of_run counted);
        settled = rw ea (All-insert IsSettled key a' u.attempts h.settled same.settled);
        counted = rw er (
            All-insert IsCounted a.run_id run' u.runs h.counted (
              end-IsCounted run' (All-get IsCounted a.run_id u.runs h.counted of_run) kept counted
                left));
      }
  Move-Inv (note key run run' found same counted kept ej er ea) h = record {
    runs_keyed =
        rw er (insert-Keyed (λ r. r.id) key run' u.runs (own_key h found same) h.runs_keyed);
    attempts_keyed = rw ea h.attempts_keyed;
    single = λ r.
        rw (er, ea)
          (single-write u.runs u.attempts r (h.single r) key run run' found
            (ap (λ s. run_status_eq s RunStatus.running) kept));
    made =
        λ r. rw (er, ea) (made-write_run u.runs u.attempts r (h.made r) key run run' found counted);
    settled = rw ea h.settled;
    counted = rw er (
        All-insert IsCounted key run' u.runs h.counted
          (write-IsCounted run' (All-get IsCounted key u.runs h.counted found) same counted kept));
  }
  Move-Inv (withdraw key run run' found queued same counted ended ej er ea) h = record {
    runs_keyed =
        rw er (insert-Keyed (λ r. r.id) key run' u.runs (own_key h found same) h.runs_keyed);
    attempts_keyed = rw ea h.attempts_keyed;
    single = λ r.
        rw (er, ea)
          (single-write u.runs u.attempts r (h.single r) key run run' found
            (not_running run run' queued ended));
    made =
        λ r. rw (er, ea) (made-write_run u.runs u.attempts r (h.made r) key run run' found counted);
    settled = rw ea h.settled;
    counted = rw er (
        All-insert IsCounted key run' u.runs h.counted (
          withdraw-IsCounted run' (All-get IsCounted key u.runs h.counted found) same counted
            ended));
  }

module _ {Json : Type 0} where
  pub Moves-Inv : {u v : Core Json} → Moves u v → Inv u → Inv v
  Moves-Inv stay h = h
  Moves-Inv (more ms m) h = Move-Inv m (Moves-Inv ms h)

-- No run and no attempt, whatever the jobs.
pub empty-Inv : {Json : Type 0} {u : Core Json} → u.runs ≡ [] → u.attempts ≡ [] → Inv u
unfolding open_attempts attempts_made values count
empty-Inv er ea = record {
  runs_keyed = rw er tt;
  attempts_keyed = rw ea tt;
  single = λ r. rw (er, ea) (omega arith);
  made = λ r. rw (er, ea) (omega arith);
  counted = rw er tt;
  settled = rw ea tt;
}
