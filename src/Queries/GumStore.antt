-- ===== src/Queries/GumStore.antt =====
-- crates/gum-store/src/queries.rs: the trait `GumStore`, over an unknown state. An operation that
-- reads the clock takes what it reads; `none` is a tick that panics.
use gum.Prelude.{ℕ, Bool, Option, List, String}
use gum.Prelude.Int.{ℤ}
use gum.Types.{DeployStatus, Result}
use gum.Models.{
  DeployRecord, JobRecord, RunRecord, AttemptRecord, LeaseRecord, RunnerRecord,
  ProviderTargetRecord, ProviderHealthRecord, ProviderCheckRecord, FunctionHealthRecord,
  LeaseStateRecord, RunnerStatusRecord, LeaseStatusRecord, ConcurrencyStatusRecord,
  RateLimitStatusRecord, LogRecord,
}
use gum.Queries.Params.{
  RegisterDeployParams, EnqueueRunParams, EnqueueRunResult, ReplayRunParams, LeaseNextAttemptParams,
  SetDeployStatusParams, RegisterRunnerParams, HeartbeatRunnerParams, ControlLeaseParams,
  CompleteAttemptParams, CancelRunParams, UpsertProviderTargetParams, RecordProviderCheckParams,
  SetProviderHealthParams, SetFunctionHealthParams,
}

pub record GumStore (Json : Type 0) : Type 1 where
  pub State : Type 0
  -- What `lease_next_attempt` reads of the clock.
  pub Clock : Type 0
  pub register_deploy :
      State → RegisterDeployParams → ℤ → Result (DeployRecord × List JobRecord) × State
  pub upsert_provider_target :
      State → UpsertProviderTargetParams Json → ℤ → Result (ProviderTargetRecord Json) × State
  pub record_provider_check : State → RecordProviderCheckParams → Result ProviderCheckRecord × State
  pub set_provider_health : State → SetProviderHealthParams → Result ProviderHealthRecord × State
  pub set_function_health : State → SetFunctionHealthParams → Result FunctionHealthRecord × State
  pub get_function_health : State → String → Result (Option FunctionHealthRecord)
  pub list_provider_targets : State → Result (List (ProviderTargetRecord Json))
  pub list_provider_health : State → Result (List ProviderHealthRecord)
  pub register_runner : State → RegisterRunnerParams → ℤ → Result RunnerRecord × State
  pub heartbeat_runner : State → HeartbeatRunnerParams → ℤ → Result RunnerRecord × State
  pub try_acquire_control_lease : State → ControlLeaseParams → Result Bool × State
  pub get_job : State → String → Result (Option JobRecord)
  pub get_run : State → String → Result (Option (RunRecord Json))
  pub get_deploy : State → String → Result (Option DeployRecord)
  pub set_deploy_status : State → SetDeployStatusParams → Result DeployRecord × State
  pub get_lease_state : State → String → Result (Option LeaseStateRecord)
  pub list_deploys_by_status : State → DeployStatus → ℕ → Result (List DeployRecord)
  pub list_recent_runs : State → ℕ → Result (List (RunRecord Json))
  pub list_recent_runs_for_project : State → String → ℕ → Result (List (RunRecord Json))
  pub list_runners : State → Result (List RunnerStatusRecord)
  pub list_active_leases : State → Result (List LeaseStatusRecord)
  pub list_concurrency_status : State → Result (List ConcurrencyStatusRecord)
  pub list_rate_limit_status : State → ℤ → Result (List RateLimitStatusRecord)
  pub enqueue_run : State → EnqueueRunParams Json → ℤ → Result (EnqueueRunResult Json) × State
  pub replay_run : State → ReplayRunParams → ℤ → Result (RunRecord Json) × State
  pub lease_next_attempt :
      State
      → LeaseNextAttemptParams
      → Clock
      → Result (Option (RunRecord Json × AttemptRecord × LeaseRecord)) × State
  pub complete_attempt :
      State → CompleteAttemptParams → ℤ → Result (AttemptRecord × RunRecord Json) × State
  pub cancel_run : State → CancelRunParams → Result (RunRecord Json) × State
  pub recover_lost_attempts : State → ℤ → Result (List (RunRecord Json)) × State
  pub tick_schedules : State → ℤ → Option (Result (List (RunRecord Json)) × State)
  pub append_log : State → LogRecord → Result (Unit {0}) × State
  pub list_run_logs : State → String → Result (List LogRecord)
