-- ===== src/Scheduler/Probes.antt =====
-- crates/gum-scheduler/src/probes.rs: `run_provider_probes`. What comes from serde, reqwest and the
-- environment is the parameter `HttpLibrary`: reading a configuration, headers, and one request.
pub mod Health
pub mod Schedule
pub mod Run
use Prim.Native.String.{◌++◌ as append}
use gum.Prelude.{
  ℕ, ◌+◌, ◌*◌, ◌-◌, ◌^◌, min, Bool, true, false, not, ◌&&◌, ◌||◌, Option, none, some, List, [], ◌∷◌,
  String, str_eq, ltb, leb, ◌==◌, if◌then◌else◌, unwrap_or,
}
use gum.Prelude.Int.{
  ℤ, pos, ◌+ℤ◌, ◌-ℤ◌, leb_ℤ, ltb_ℤ, saturating_sub, secs_to_ms, wrap_i32, clamp_i32, clamp_to,
}
use gum.Map.{Map, get, insert}
use gum.Text.{trim}
use gum.Text.Decimal.{format}
use gum.Types.{Result, ok, err, ◌>>=◌}
use gum.Models.{
  ProviderCheckStatus, ProviderHealthState, ProviderTargetRecord, ProviderHealthRecord,
}
use gum.Queries.Params.{SetProviderHealthParams, RecordProviderCheckParams}
use gum.Queries.GumStore.{GumStore}
use gum.Store.Signals.{provider_state_eq}

pub record HttpProbeConfig : Type 0 where
  pub url : String
  pub interval_secs : Option ℕ
  pub timeout_secs : Option ℕ
  pub degraded_latency_ms : Option ℕ
  pub bearer_env : Option String
  pub headers : Map String

-- What a request comes to: the status of a response, or whether the error is a timeout and whether
-- it is one of connecting.
pub data Response : Type 0 where
  response : ℕ → Response
  transport_error : Bool → Bool → Response

pub record HttpLibrary (Json : Type 0) : Type 1 where
  pub HeaderMap : Type 0
  pub HeaderName : Type 0
  pub HeaderValue : Type 0
  pub no_headers : HeaderMap
  pub insert_header : HeaderName → HeaderValue → HeaderMap → HeaderMap
  -- the texts that a name and a value are made of, or why not
  pub header_name : String → Result HeaderName
  pub header_value : String → Result HeaderValue
  pub authorization : HeaderName
  pub env_var : String → Option String
  -- `serde_json::from_value`
  pub from_value : Json → Result HttpProbeConfig
  -- The request of a round: the url, the headers, the timeout, and the milliseconds that it took.
  pub send : ℕ → String → HeaderMap → ℕ → Response × ℕ

pub record ProbeResult : Type 0 where
  pub status : ProviderCheckStatus
  pub latency_ms : Option ℕ
  pub error_class : Option String
  pub status_code : Option ℕ

unfoldable pub classify_http_status : ℕ → String
classify_http_status status =
    if status == 429
    then "provider_429"
    else if status == 401 || status == 403
    then "provider_auth_error"
    else if leb 500 status && ltb status 600
    then "provider_5xx"
    else "provider_http_error"

unfoldable pub classify_transport_error : Bool → Bool → String
classify_transport_error is_timeout is_connect =
    if is_timeout
    then "provider_timeout"
    else if is_connect
    then "provider_connect_error"
    else "provider_probe_error"

-- `duration.as_millis().min(u32::MAX)`
unfoldable pub elapsed_ms : ℕ → ℕ
elapsed_ms millis = min millis (2 ^ 32 - 1)

unfoldable pub probe_result : Response → ℕ → ProbeResult
unfolding classify_http_status classify_transport_error
probe_result (response status) elapsed =
    if leb 200 status && ltb status 300
    then record {
      status = ProviderCheckStatus.success;
      latency_ms = some elapsed;
      error_class = none;
      status_code = some status;
    }
    else record {
      status = ProviderCheckStatus.failure;
      latency_ms = some elapsed;
      error_class = some (classify_http_status status);
      status_code = some status;
    }
probe_result (transport_error is_timeout is_connect) elapsed = record {
  status = ProviderCheckStatus.failure;
  latency_ms = some elapsed;
  error_class = some (classify_transport_error is_timeout is_connect);
  status_code = none;
}

-- The later of two moments, where there are any.
unfoldable pub latest : Option ℤ → Option ℤ → Option ℤ
latest none other = other
latest (some a) none = some a
latest (some a) (some b) = some (if leb_ℤ a b then b else a)

unfoldable pub probe_due : Option ProviderHealthRecord → ℕ → ℤ → Bool
unfolding latest
probe_due none interval_secs now = true
probe_due (some previous) interval_secs now =
    let last_probe =
      unwrap_or (latest previous.last_success_at_epoch_ms previous.last_failure_at_epoch_ms)
        previous.last_changed_at_epoch_ms in
    leb_ℤ (secs_to_ms interval_secs) (saturating_sub now last_probe)

-- `score.clamp(0, 10)`
unfoldable pub saturating_score : ℤ → ℤ
saturating_score score = clamp_to 10 score

-- The score after a failure or a slow answer; `+` wraps over i32.
unfoldable pub score_up : ℤ → ℤ
unfolding saturating_score
score_up score = saturating_score (wrap_i32 (score +ℤ pos 1))

unfoldable pub probe_failure_reason : String → Option String → Option ℕ → String
probe_failure_reason slug (some error_class) (some status_code) =
    append slug (
      append " probe failed: " (append error_class (append " (" (append (format status_code) ")"))))
probe_failure_reason slug (some error_class) none =
    append slug (append " probe failed: " error_class)
probe_failure_reason slug none (some status_code) =
    append slug (append " probe failed: " (format status_code))
probe_failure_reason slug none none = append slug " probe failed"

unfoldable pub latency_reason : String → ℕ → ℕ → String
latency_reason slug latency degraded = append slug (
    append " probe latency "
      (append (format latency) (append "ms exceeded " (append (format degraded) "ms"))))

-- What the record before says, or what stands for it.
pub record Previous : Type 0 where
  pub state : ProviderHealthState
  pub changed_at : ℤ
  pub success : Option ℤ
  pub failure : Option ℤ
  pub degraded_score : ℤ
  pub down_score : ℤ

unfoldable pub previous_of : Option ProviderHealthRecord → ℤ → Previous
previous_of none now = record {
  state = ProviderHealthState.healthy;
  changed_at = now;
  success = none;
  failure = none;
  degraded_score = pos 0;
  down_score = pos 0;
}
previous_of (some r) now = record {
  state = r.state;
  changed_at = r.last_changed_at_epoch_ms;
  success = r.last_success_at_epoch_ms;
  failure = r.last_failure_at_epoch_ms;
  degraded_score = r.degraded_score;
  down_score = r.down_score;
}

unfoldable pub changed_at : Previous → ProviderHealthState → ℤ → ℤ
changed_at previous state now =
    if provider_state_eq state previous.state then previous.changed_at else now

-- Three failures in a row bring a provider down.
unfoldable pub state_of_score : ℤ → ProviderHealthState
state_of_score down_score =
    if leb_ℤ (pos 3) down_score then ProviderHealthState.down else ProviderHealthState.degraded

unfoldable pub health_of_result :
    String → String → Previous → ProbeResult → ℤ → ℕ → SetProviderHealthParams
unfolding score_up changed_at probe_failure_reason latency_reason state_of_score
health_of_result id slug previous result now degraded_latency_ms = elim result.status [
  | ProviderCheckStatus.success ↦
      let latency = unwrap_or result.latency_ms 0 in
      if ltb degraded_latency_ms latency
      then record {
        provider_target_id = id;
        state = ProviderHealthState.degraded;
        reason = some (latency_reason slug latency degraded_latency_ms);
        last_changed_at_epoch_ms = changed_at previous ProviderHealthState.degraded now;
        last_success_at_epoch_ms = some now;
        last_failure_at_epoch_ms = previous.failure;
        degraded_score = score_up previous.degraded_score;
        down_score = pos 0;
      }
      else record {
        provider_target_id = id;
        state = ProviderHealthState.healthy;
        reason = none;
        last_changed_at_epoch_ms = changed_at previous ProviderHealthState.healthy now;
        last_success_at_epoch_ms = some now;
        last_failure_at_epoch_ms = previous.failure;
        degraded_score = clamp_i32 (previous.degraded_score -ℤ pos 2);
        down_score = pos 0;
      }
  | ProviderCheckStatus.failure ↦
      let down_score = score_up previous.down_score in
      let state = state_of_score down_score in
      record {
        provider_target_id = id;
        state = state;
        reason = some (probe_failure_reason slug result.error_class result.status_code);
        last_changed_at_epoch_ms = changed_at previous state now;
        last_success_at_epoch_ms = previous.success;
        last_failure_at_epoch_ms = some now;
        degraded_score = score_up previous.degraded_score;
        down_score = down_score;
      }
]

module _ {Json : Type 0} where
  unfoldable pub next_health_params :
      ProviderTargetRecord Json
      → Option ProviderHealthRecord
      → ProbeResult
      → ℤ
      → ℕ
      → SetProviderHealthParams
  unfolding health_of_result previous_of
  next_health_params target previous result now degraded_latency_ms =
      health_of_result target.id target.slug (previous_of previous now) result now
        degraded_latency_ms
