-- ===== src/Queries/Params.antt =====
-- crates/gum-store/src/queries.rs: what the operations of the store take.
use gum.Prelude.{ℕ, Bool, Option, List, String}
use gum.Prelude.Int.{ℤ}
use gum.Types.{AttemptStatus, DeployStatus}
use gum.Models.{RunRecord, ProviderCheckStatus, ProviderHealthState, FunctionHealthState}

pub record RegisterJobParams : Type 0 where
  pub id : String
  pub name : String
  pub handler_ref : String
  pub trigger_mode : String
  pub schedule_expr : Option String
  pub retries : ℕ
  pub timeout_secs : ℕ
  pub rate_limit_spec : Option String
  pub concurrency_limit : Option ℕ
  pub cpu_cores : Option ℕ
  pub memory_mb : Option ℕ
  pub key_field : Option String
  pub compute_class : Option String
  pub required_secret_names : List String

pub record RegisterDeployParams : Type 0 where
  pub project_id : String
  pub version : String
  pub bundle_url : String
  pub bundle_sha256 : String
  pub sdk_language : String
  pub entrypoint : String
  pub python_version : Option String
  pub deps_mode : Option String
  pub deps_hash : Option String
  pub jobs : List RegisterJobParams

pub record EnqueueRunParams (Json : Type 0) : Type 0 where
  pub project_id : String
  pub job_id : String
  pub deploy_id : String
  pub input_json : Json
  pub dedupe_key_value : Option String
  pub delay_ms : Option ℤ

pub record EnqueueRunResult (Json : Type 0) : Type 0 where
  pub run : RunRecord Json
  pub deduped : Bool

pub record ReplayRunParams : Type 0 where
  pub source_run_id : String

pub record LeaseNextAttemptParams : Type 0 where
  pub runner_id : String
  pub lease_ttl_secs : ℕ

pub record SetDeployStatusParams : Type 0 where
  pub deploy_id : String
  pub status : DeployStatus

pub record RegisterRunnerParams : Type 0 where
  pub runner_id : String
  pub compute_class : String
  pub cpu_cores : ℕ
  pub memory_mb : ℕ
  pub max_concurrent_leases : ℕ
  pub heartbeat_timeout_secs : ℕ

pub record HeartbeatRunnerParams : Type 0 where
  pub runner_id : String
  pub compute_class : String
  pub cpu_cores : ℕ
  pub memory_mb : ℕ
  pub max_concurrent_leases : ℕ
  pub heartbeat_timeout_secs : ℕ
  pub lease_ttl_secs : ℕ
  pub active_lease_ids : List String

pub record ControlLeaseParams : Type 0 where
  pub lease_name : String
  pub holder_id : String
  pub ttl_secs : ℕ
  pub now_epoch_ms : ℤ

pub record CompleteAttemptParams : Type 0 where
  pub attempt_id : String
  pub runner_id : String
  pub status : AttemptStatus
  pub failure_reason : Option String
  pub failure_class : Option String

pub record CancelRunParams : Type 0 where
  pub run_id : String
  pub requested_at_epoch_ms : ℤ

pub record UpsertProviderTargetParams (Json : Type 0) : Type 0 where
  pub id : String
  pub name : String
  pub slug : String
  pub probe_kind : String
  pub probe_config_json : Json
  pub enabled : Bool

pub record RecordProviderCheckParams : Type 0 where
  pub provider_target_id : String
  pub status : ProviderCheckStatus
  pub latency_ms : Option ℕ
  pub error_class : Option String
  pub status_code : Option ℕ
  pub checked_at_epoch_ms : ℤ

pub record SetProviderHealthParams : Type 0 where
  pub provider_target_id : String
  pub state : ProviderHealthState
  pub reason : Option String
  pub last_changed_at_epoch_ms : ℤ
  pub last_success_at_epoch_ms : Option ℤ
  pub last_failure_at_epoch_ms : Option ℤ
  pub degraded_score : ℤ
  pub down_score : ℤ

pub record SetFunctionHealthParams : Type 0 where
  pub job_id : String
  pub state : FunctionHealthState
  pub consecutive_infra_failures : ℕ
  pub reason : Option String
  pub hold_until_epoch_ms : Option ℤ
  pub last_changed_at_epoch_ms : ℤ
  pub last_success_at_epoch_ms : Option ℤ
  pub last_failure_at_epoch_ms : Option ℤ
