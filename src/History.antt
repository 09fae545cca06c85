-- ===== src/History.antt =====
-- Histories of the store: the operations of crates/gum-store/src/memory.rs one after another, each
-- with any arguments, any reading of the clock and any outcome. The mutex makes each call one step.
pub mod Invariant
pub mod Guarantees
pub mod Views
use gum.Prelude.{ℕ, ◌+◌, ◌≡◌, some, List}
use gum.Prelude.Int.{ℤ}
use gum.Types.{Result}
use gum.Models.{ProjectRecord, RunRecord, LogRecord}
use gum.Queries.Params.{
  RegisterDeployParams, EnqueueRunParams, ReplayRunParams, LeaseNextAttemptParams,
  SetDeployStatusParams, RegisterRunnerParams, HeartbeatRunnerParams, ControlLeaseParams,
  CompleteAttemptParams, CancelRunParams, UpsertProviderTargetParams, RecordProviderCheckParams,
  SetProviderHealthParams, SetFunctionHealthParams,
}
use gum.Queries.Schedule.Cron.{Calendar}
use gum.Store.{MemoryStore}
use gum.Store.Deploys.{
  insert_project, register_deploy, upsert_provider_target, record_provider_check,
  set_provider_health, set_function_health, set_deploy_status, append_log,
}
use gum.Store.Runners.{register_runner, heartbeat_runner, try_acquire_control_lease}
use gum.Store.Enqueue.{enqueue_run, replay_run}
use gum.Store.Lease.{LeaseClock, lease_next_attempt}
use gum.Store.Complete.{complete_attempt}
use gum.Store.Cancel.{cancel_run}
use gum.Store.Recover.{recover_lost_attempts}
use gum.Store.Tick.{tick_schedules}
use gum.Store.Tick.Refine.{tick_due_count}

module _ {Json : Type 0} (empty_object : Json) (calendar : Calendar) where
  -- One call, other than a deploy, and the most identifiers that it takes.
  pub data Call (s : MemoryStore Json) : ℕ → MemoryStore Json → Type 0 where
    insert_project_call : (project : ProjectRecord) → Call s 0 (insert_project s project).1
    upsert_provider_target_call :
        (params : UpsertProviderTargetParams Json) (now : ℤ)
        → Call s 0 (upsert_provider_target s params now).1
    record_provider_check_call :
        (params : RecordProviderCheckParams) → Call s 1 (record_provider_check s params).1
    set_provider_health_call :
        (params : SetProviderHealthParams) → Call s 0 (set_provider_health s params).1
    set_function_health_call :
        (params : SetFunctionHealthParams) → Call s 0 (set_function_health s params).1
    set_deploy_status_call :
        (params : SetDeployStatusParams) → Call s 0 (set_deploy_status s params).1
    append_log_call : (log : LogRecord) → Call s 0 (append_log s log).1
    register_runner_call :
        (params : RegisterRunnerParams) (now : ℤ) → Call s 0 (register_runner s params now).1
    heartbeat_runner_call :
        (params : HeartbeatRunnerParams) (now : ℤ) → Call s 0 (heartbeat_runner s params now).1
    try_acquire_control_lease_call :
        (params : ControlLeaseParams) → Call s 0 (try_acquire_control_lease s params).1
    enqueue_run_call :
        (params : EnqueueRunParams Json) (now : ℤ) → Call s 1 (enqueue_run s params now).1
    replay_run_call : (params : ReplayRunParams) (now : ℤ) → Call s 1 (replay_run s params now).1
    lease_next_attempt_call :
        (params : LeaseNextAttemptParams) (clock : LeaseClock)
        → Call s 2 (lease_next_attempt s params clock).1
    complete_attempt_call :
        (params : CompleteAttemptParams) (now : ℤ) → Call s 1 (complete_attempt s params now).1
    cancel_run_call : (params : CancelRunParams) → Call s 0 (cancel_run s params).1
    recover_lost_attempts_call : (now : ℤ) → Call s 0 (recover_lost_attempts s now).1
    tick_schedules_call :
        (now : ℤ) (result : Result (List (RunRecord Json))) (t : MemoryStore Json)
        → tick_schedules empty_object calendar now s ≡ some (result, t)
        → Call s (tick_due_count empty_object calendar now s) t

  -- Calls between which the jobs stay as they are.
  pub data Calls (s : MemoryStore Json) : ℕ → MemoryStore Json → Type 0 where
    none_yet : Calls s 0 s
    call : {n k : ℕ} {t w : MemoryStore Json} → Calls s n t → Call t k w → Calls s (n + k) w

  -- Calls and deploys.
  pub data History (s : MemoryStore Json) : ℕ → MemoryStore Json → Type 0 where
    begin : History s 0 s
    called : {n k : ℕ} {t w : MemoryStore Json} → History s n t → Call t k w → History s (n + k) w
    deployed :
        {n : ℕ} {t : MemoryStore Json} (params : RegisterDeployParams) (now : ℤ)
        → History s n t
        → History s (n + 1) (register_deploy t params now).1
