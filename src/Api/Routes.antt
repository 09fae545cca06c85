-- ===== src/Api/Routes.antt =====
-- crates/gum-api/src/routes.rs: the requests and responses of the API.
use gum.Prelude.{ℕ, Bool, Option, List, String}
use gum.Prelude.Int.{ℤ}
use gum.Map.{Map}
use gum.Types.{AttemptStatus, DeployStatus, RunStatus}

pub record RegisteredJob : Type 0 where
  pub id : String
  pub name : String
  pub handler_ref : String
  pub trigger_mode : String
  pub schedule_expr : Option String
  pub retries : ℕ
  pub timeout_secs : ℕ
  pub rate_limit_spec : Option String
  pub concurrency_limit : Option ℕ
  pub cpu_cores : Option ℕ
  pub memory_mb : Option ℕ
  pub key_field : Option String
  pub compute_class : Option String
  pub required_secret_names : List String

pub record RegisterDeployRequest : Type 0 where
  pub project_id : String
  pub version : String
  pub bundle_url : String
  pub bundle_sha256 : String
  pub sdk_language : String
  pub entrypoint : String
  pub python_version : Option String
  pub deps_mode : Option String
  pub deps_hash : Option String
  pub jobs : List RegisteredJob

pub record RegisterDeployResponse : Type 0 where
  pub id : String
  pub registered_jobs : ℕ

pub record PrepareDeployRuntimeResponse : Type 0 where
  pub id : String
  pub status : DeployStatus

pub record EnqueueRunRequest (Json : Type 0) : Type 0 where
  pub input : Json

pub record EnqueueRunResponse : Type 0 where
  pub id : String
  pub status : RunStatus
  pub deduped : Bool

pub record RunResponse : Type 0 where
  pub id : String
  pub job_id : String
  pub status : RunStatus
  pub attempt : ℕ
  pub failure_reason : Option String
  pub failure_class : Option String
  pub retry_after_epoch_ms : Option ℤ
  pub waiting_reason : Option String
  pub waiting_for_provider_slug : Option String
  pub replay_of : Option String

pub record ReplayRunResponse : Type 0 where
  pub id : String
  pub status : RunStatus
  pub replay_of : String

pub record LogLine : Type 0 where
  pub attempt_id : String
  pub stream : String
  pub message : String

pub record LeaseRunRequest : Type 0 where
  pub runner_id : String
  pub lease_ttl_secs : ℕ

pub record LeaseRuntimePrepareRequest : Type 0 where
  pub runner_id : String
  pub lease_ttl_secs : ℕ

pub record LeaseRuntimePrepareResponse : Type 0 where
  pub deploy_id : String
  pub bundle_url : String
  pub entrypoint : String
  pub python_version : Option String
  pub deps_mode : Option String
  pub deps_hash : Option String

pub record LeaseRunResponse (Json : Type 0) : Type 0 where
  pub lease_id : String
  pub attempt_id : String
  pub run_id : String
  pub job_id : String
  pub key : Option String
  pub replay_of : Option String
  pub deploy_id : String
  pub input : Json
  pub bundle_url : String
  pub entrypoint : String
  pub python_version : Option String
  pub deps_mode : Option String
  pub deps_hash : Option String
  pub handler_ref : String
  pub timeout_secs : ℕ
  pub cpu_cores : Option ℕ
  pub memory_mb : Option ℕ
  pub required_secret_names : List String
  pub resolved_secrets : Map String
  pub lease_ttl_secs : ℕ

pub record RegisterRunnerRequest : Type 0 where
  pub runner_id : String
  pub compute_class : String
  pub cpu_cores : ℕ
  pub memory_mb : ℕ
  pub max_concurrent_leases : ℕ
  pub heartbeat_timeout_secs : ℕ

pub record RunnerHeartbeatRequest : Type 0 where
  pub runner_id : String
  pub compute_class : String
  pub cpu_cores : ℕ
  pub memory_mb : ℕ
  pub max_concurrent_leases : ℕ
  pub heartbeat_timeout_secs : ℕ
  pub lease_ttl_secs : ℕ
  pub active_lease_ids : List String

pub record LeaseStateResponse : Type 0 where
  pub lease_id : String
  pub run_id : String
  pub attempt_id : String
  pub cancel_requested : Bool

pub record RunsListResponse : Type 0 where
  pub runs : List RunResponse

pub record RunnerStatusResponse : Type 0 where
  pub id : String
  pub compute_class : String
  pub cpu_cores : ℕ
  pub memory_mb : ℕ
  pub active_cpu_cores : ℕ
  pub active_memory_mb : ℕ
  pub max_concurrent_leases : ℕ
  pub last_heartbeat_at_epoch_ms : ℤ
  pub active_lease_count : ℕ

pub record RunnersListResponse : Type 0 where
  pub runners : List RunnerStatusResponse

pub record LeaseStatusResponse : Type 0 where
  pub lease_id : String
  pub run_id : String
  pub attempt_id : String
  pub runner_id : String
  pub expires_at_epoch_ms : ℤ
  pub cancel_requested : Bool

pub record LeasesListResponse : Type 0 where
  pub leases : List LeaseStatusResponse

pub record ConcurrencyStatusResponse : Type 0 where
  pub job_id : String
  pub job_name : String
  pub concurrency_limit : ℕ
  pub active_count : ℕ
  pub queued_count : ℕ
  pub active_run_ids : List String
  pub queued_run_ids : List String

pub record ConcurrencyListResponse : Type 0 where
  pub concurrency : List ConcurrencyStatusResponse

pub record RateLimitStatusResponse : Type 0 where
  pub scope_key : String
  pub scope_kind : String
  pub pool_name : Option String
  pub limit : ℕ
  pub window_ms : ℤ
  pub recent_start_count : ℕ
  pub waiting_count : ℕ
  pub job_ids : List String
  pub job_names : List String
  pub waiting_run_ids : List String

pub record RateLimitListResponse : Type 0 where
  pub rate_limits : List RateLimitStatusResponse

pub record ProviderHealthResponse : Type 0 where
  pub provider_target_id : String
  pub provider_name : String
  pub provider_slug : String
  pub state : String
  pub reason : Option String
  pub last_changed_at_epoch_ms : ℤ
  pub last_success_at_epoch_ms : Option ℤ
  pub last_failure_at_epoch_ms : Option ℤ
  pub degraded_score : ℤ
  pub down_score : ℤ

pub record ProviderHealthListResponse : Type 0 where
  pub providers : List ProviderHealthResponse

pub record CompleteAttemptRequest : Type 0 where
  pub runner_id : String
  pub status : AttemptStatus
  pub failure_reason : Option String
  pub failure_class : Option String

pub record CompleteRuntimePrepareRequest : Type 0 where
  pub runner_id : String
  pub success : Bool

pub record CancelRunRequest : Type 0 where
  pub reason : Option String

pub record AppendLogRequest : Type 0 where
  pub stream : String
  pub message : String

pub record SetSecretRequest : Type 0 where
  pub name : String
  pub value : String
  pub environment : Option String

pub record SecretMetadataResponse : Type 0 where
  pub project_id : String
  pub environment : String
  pub name : String
  pub backend : String
  pub updated_at_epoch_ms : ℤ
  pub last_used_at_epoch_ms : Option ℤ

pub record SecretsListResponse : Type 0 where
  pub secrets : List SecretMetadataResponse
