-- ===== src/Models.antt =====
-- crates/gum-store/src/models.rs: the records of the store. Unsigned integers are natural numbers,
-- signed ones integers; `Json` stands for `serde_json::Value`, which the store only passes on.
use gum.Prelude.{ℕ, Bool, Option, List, String}
use gum.Prelude.Int.{ℤ}
use gum.Types.{TriggerType, RunStatus, AttemptStatus, DeployStatus}

pub data ProviderCheckStatus : Type 0 where
  success failure : ProviderCheckStatus

pub data ProviderHealthState : Type 0 where
  healthy degraded down : ProviderHealthState

pub data FunctionHealthState : Type 0 where
  healthy degraded down : FunctionHealthState

pub record ProjectRecord : Type 0 where
  pub id : String
  pub name : String
  pub slug : String
  pub api_key_hash : String

pub record DeployRecord : Type 0 where
  pub id : String
  pub project_id : String
  pub version : String
  pub bundle_url : String
  pub bundle_sha256 : String
  pub sdk_language : String
  pub entrypoint : String
  pub python_version : Option String
  pub deps_mode : Option String
  pub deps_hash : Option String
  pub status : DeployStatus

pub record JobRecord : Type 0 where
  pub id : String
  pub project_id : String
  pub deploy_id : String
  pub name : String
  pub handler_ref : String
  pub trigger_mode : String
  pub schedule_expr : Option String
  pub retries : ℕ
  pub timeout_secs : ℕ
  pub rate_limit_spec : Option String
  pub concurrency_limit : Option ℕ
  pub cpu_cores : Option ℕ
  pub memory_mb : Option ℕ
  pub key_field : Option String
  pub compute_class : Option String
  pub required_secret_names : List String
  pub enabled : Bool
  pub created_at_epoch_ms : ℤ

pub record RunRecord (Json : Type 0) : Type 0 where
  pub id : String
  pub project_id : String
  pub job_id : String
  pub deploy_id : String
  pub trigger_type : TriggerType
  pub status : RunStatus
  pub input_json : Json
  pub attempt_count : ℕ
  pub max_attempts : ℕ
  pub scheduled_at_epoch_ms : ℤ
  pub failure_reason : Option String
  pub failure_class : Option String
  pub retry_after_epoch_ms : Option ℤ
  pub waiting_for_provider_slug : Option String
  pub replay_of_run_id : Option String

pub record AttemptRecord : Type 0 where
  pub id : String
  pub run_id : String
  pub attempt_number : ℕ
  pub status : AttemptStatus
  pub lease_id : Option String
  pub runner_id : Option String
  pub started_at_epoch_ms : ℤ
  pub finished_at_epoch_ms : Option ℤ
  pub failure_reason : Option String
  pub failure_class : Option String
  pub cancel_requested_at_epoch_ms : Option ℤ

pub record LeaseRecord : Type 0 where
  pub id : String
  pub attempt_id : String
  pub runner_id : String
  pub expires_at_epoch_ms : ℤ
  pub acked_at_epoch_ms : Option ℤ
  pub released_at_epoch_ms : Option ℤ
  pub revoke_requested_at_epoch_ms : Option ℤ

pub record RunnerRecord : Type 0 where
  pub id : String
  pub compute_class : String
  pub cpu_cores : ℕ
  pub memory_mb : ℕ
  pub max_concurrent_leases : ℕ
  pub heartbeat_timeout_secs : ℕ
  pub last_heartbeat_at_epoch_ms : ℤ

pub record ControlLeaseRecord : Type 0 where
  pub name : String
  pub holder_id : String
  pub expires_at_epoch_ms : ℤ

pub record ProviderTargetRecord (Json : Type 0) : Type 0 where
  pub id : String
  pub name : String
  pub slug : String
  pub probe_kind : String
  pub probe_config_json : Json
  pub enabled : Bool
  pub created_at_epoch_ms : ℤ

pub record ProviderCheckRecord : Type 0 where
  pub id : String
  pub provider_target_id : String
  pub status : ProviderCheckStatus
  pub latency_ms : Option ℕ
  pub error_class : Option String
  pub status_code : Option ℕ
  pub checked_at_epoch_ms : ℤ

pub record ProviderHealthRecord : Type 0 where
  pub provider_target_id : String
  pub provider_name : String
  pub provider_slug : String
  pub state : ProviderHealthState
  pub reason : Option String
  pub last_changed_at_epoch_ms : ℤ
  pub last_success_at_epoch_ms : Option ℤ
  pub last_failure_at_epoch_ms : Option ℤ
  pub degraded_score : ℤ
  pub down_score : ℤ

pub record FunctionHealthRecord : Type 0 where
  pub job_id : String
  pub state : FunctionHealthState
  pub consecutive_infra_failures : ℕ
  pub reason : Option String
  pub hold_until_epoch_ms : Option ℤ
  pub last_changed_at_epoch_ms : ℤ
  pub last_success_at_epoch_ms : Option ℤ
  pub last_failure_at_epoch_ms : Option ℤ

pub record LeaseStateRecord : Type 0 where
  pub lease_id : String
  pub run_id : String
  pub attempt_id : String
  pub cancel_requested : Bool

pub record RunnerStatusRecord : Type 0 where
  pub id : String
  pub compute_class : String
  pub cpu_cores : ℕ
  pub memory_mb : ℕ
  pub active_cpu_cores : ℕ
  pub active_memory_mb : ℕ
  pub max_concurrent_leases : ℕ
  pub last_heartbeat_at_epoch_ms : ℤ
  pub active_lease_count : ℕ

pub record LeaseStatusRecord : Type 0 where
  pub lease_id : String
  pub run_id : String
  pub attempt_id : String
  pub runner_id : String
  pub expires_at_epoch_ms : ℤ
  pub cancel_requested : Bool

pub record ConcurrencyStatusRecord : Type 0 where
  pub job_id : String
  pub job_name : String
  pub concurrency_limit : ℕ
  pub active_run_ids : List String
  pub queued_run_ids : List String

pub record RateLimitStatusRecord : Type 0 where
  pub scope_key : String
  pub scope_kind : String
  pub project_id : String
  pub pool_name : Option String
  pub limit : ℕ
  pub window_ms : ℤ
  pub recent_start_count : ℕ
  pub job_ids : List String
  pub job_names : List String
  pub waiting_run_ids : List String

pub record RunKeyRecord : Type 0 where
  pub project_id : String
  pub job_id : String
  pub key_value : String
  pub run_id : String
  pub created_at_epoch_ms : ℤ
  pub expires_at_epoch_ms : ℤ

pub record LogRecord : Type 0 where
  pub id : String
  pub run_id : String
  pub attempt_id : String
  pub stream : String
  pub message : String
