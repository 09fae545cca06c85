-- ===== src/History/Guarantees.antt =====
-- The store of crates/gum-store/src/memory.rs after histories from its default state.
use gum.Prelude.{ℕ, ◌+◌, ◌^◌, ◌≤◌, ◌<◌, ◌≡◌, true, some, String, arith}
use gum.Map.{get, values, All-get}
use gum.Models.{JobRecord, RunRecord}
use gum.Types.{RunStatus}
use gum.Queries.Schedule.Cron.{Calendar}
use gum.Queries.Disposition.{is_terminal_run}
use gum.Store.{MemoryStore, default}
use gum.Store.Scope.{active_for_job}
use gum.Lifecycle.{core}
use gum.Lifecycle.Single.{open_attempts, running_bit}
use gum.Lifecycle.Attempted.{attempts_made, attempts_counted}
use gum.Lifecycle.Counted.{IsCounted}
use gum.Lifecycle.Final.{status_of}
use gum.Lifecycle.Concurrency.{Limited, Moves-Limited}
use gum.Lifecycle.Refine.{default-StoreInv}
use gum.History.{Calls, History}
use gum.History.Invariant.{Sound, DeploysFit, History-Lasting, Calls-Moved}

-- The default store is sound.
pub default-Sound : {Json : Type 0} → Sound (default {Json = Json})
unfolding values
default-Sound = record { inv = default-StoreInv; fit = tt }

-- After every history of calls and deploys from the default store that takes fewer than 2 ^ 64
-- identifiers and whose deploys bring jobs with fewer than 2 ^ 32 - 1 retries: of each run at most
-- one attempt is running, and none if the run itself is not running.
pub one_running_attempt :
    {Json : Type 0} {empty_object : Json} {calendar : Calendar} {n : ℕ} {s : MemoryStore Json}
    (past : History empty_object calendar default n s)
    → n < 2 ^ 64
    → DeploysFit past
    → (run_id : String)
    → open_attempts s.state.attempts run_id ≤ running_bit (get run_id s.state.runs)
one_running_attempt past room fits run_id =
    (History-Lasting default-Sound (omega arith) past fits).sound.inv.inv.single run_id

-- After every history of calls and deploys from the default store that takes fewer than 2 ^ 64
-- identifiers and whose deploys bring jobs with fewer than 2 ^ 32 - 1 retries, the attempts of a run
-- that the store holds, in whatever state, are at most as many as the run counts, and that is at most
-- its `max_attempts`.
pub attempts_within_allowance :
    {Json : Type 0} {empty_object : Json} {calendar : Calendar} {n : ℕ} {s : MemoryStore Json}
    (past : History empty_object calendar default n s)
    → n < 2 ^ 64
    → DeploysFit past
    → (run_id : String) (run : RunRecord Json) → get run_id s.state.runs ≡ some run
    → (attempts_made s.state.attempts run_id ≤ run.attempt_count)
      × (run.attempt_count ≤ run.max_attempts)
unfolding attempts_counted
attempts_within_allowance {s = s} past room fits run_id run found =
    let inv = (History-Lasting default-Sound (omega arith) past fits).sound.inv.inv in
    let counted = All-get IsCounted run_id s.state.runs inv.counted found in
    (ground (arith, inv.made run_id), omega (arith, counted.within))

-- Once a history has brought a run to a terminal status, every history that goes on from there, with
-- fewer than 2 ^ 64 identifiers taken in all and with deploys that fit, leaves the run in that status.
pub terminal_run_stays :
    {Json : Type 0} {empty_object : Json} {calendar : Calendar} {n k : ℕ} {s t : MemoryStore Json}
    (past : History empty_object calendar default n s)
    (future : History empty_object calendar s k t)
    → n + k < 2 ^ 64
    → DeploysFit past
    → DeploysFit future
    → (run_id : String) (status : RunStatus) → status_of (get run_id s.state.runs) ≡ some status
    → is_terminal_run status ≡ true
    → status_of (get run_id t.state.runs) ≡ some status
terminal_run_stays past future room fits later run_id status here over =
    let before = History-Lasting default-Sound (omega arith) past fits in
    (History-Lasting before.sound (omega (arith, before.taken)) future later).final run_id status
      here over

-- If after a history no job with a concurrency limit has more attempts running than its limit, a u32,
-- then no calls from there on, while no deploy is registered, let a job exceed its limit.
pub concurrency_limit_kept :
    {Json : Type 0} {empty_object : Json} {calendar : Calendar} {n k : ℕ} {s t : MemoryStore Json}
    (past : History empty_object calendar default n s) (future : Calls empty_object calendar s k t)
    → n + k < 2 ^ 64
    → DeploysFit past
    → Limited (core s)
    → (job_id : String) (job : JobRecord) (limit : ℕ) → get job_id t.state.jobs ≡ some job
    → job.concurrency_limit ≡ some limit
    → active_for_job t.state.runs t.state.attempts job_id ≤ limit
concurrency_limit_kept past future room fits limited job_id job limit found bound =
    let before = History-Lasting default-Sound (omega arith) past fits in
    let moved = Calls-Moved before.sound (omega (arith, before.taken)) future in
    ((Moves-Limited before.sound.inv.inv limited moved.refines.moves).at_job job_id job limit found
      bound).0
