-- ===== src/Scheduler/Probes/Run.antt =====
-- crates/gum-scheduler/src/probes.rs: reading the configuration of a probe, and the loop over the
-- targets.
pub mod Leases
use Prim.Native.String.{◌++◌ as append}
use gum.Prelude.{
  ℕ, not, Option, none, some, List, [], ◌∷◌, String, str_eq, if◌then◌else◌, unwrap_or,
}
use gum.Prelude.Int.{ℤ}
use gum.Prelude.Lists.{length}
use gum.Map.{Map, get, insert}
use gum.Text.{trim}
use gum.Types.{Result, ok, err, ◌>>=◌}
use gum.Models.{ProviderCheckStatus, ProviderTargetRecord, ProviderHealthRecord}
use gum.Queries.GumStore.{GumStore}
use gum.Scheduler.Probes.{
  HttpProbeConfig, HttpLibrary, ProbeResult, probe_result, elapsed_ms, probe_due,
  next_health_params,
}

-- `result.map_err(|error| format!("{prefix}{error}"))`
map_error : {A : Type 0} → String → Result A → Result A
map_error prefix (ok a) = ok a
map_error prefix (err e) = err (append prefix e)

module _ {Json : Type 0} (http : HttpLibrary Json) where
  pub record LoadedProbeConfig : Type 0 where
    pub url : String
    pub interval_secs : ℕ
    pub timeout_secs : ℕ
    pub degraded_latency_ms : ℕ
    pub headers : http.HeaderMap

  load_headers : Map String → http.HeaderMap → Result http.HeaderMap
  unfolding map_error
  load_headers [] headers = ok headers
  load_headers ((name, value) ∷ rest) headers = do
    header_name ←
        map_error (append "invalid probe header name " (append name ": ")) (http.header_name name)
    header_value ←
        map_error (append "invalid probe header value for " (append name ": "))
          (http.header_value value)
    load_headers rest (http.insert_header header_name header_value headers)

  bearer_header : String → Option String → http.HeaderMap → Result http.HeaderMap
  unfolding map_error
  bearer_header env_name none headers = err (append "missing bearer token env var: " env_name)
  bearer_header env_name (some token) headers = do
    bearer_value ←
        map_error (append "invalid bearer token for " (append env_name ": "))
          (http.header_value (append "Bearer " token))
    ok (http.insert_header http.authorization bearer_value headers)

  add_bearer : Option String → http.HeaderMap → Result http.HeaderMap
  unfolding bearer_header
  add_bearer none headers = ok headers
  add_bearer (some env_name) headers = bearer_header env_name (http.env_var env_name) headers

  check_url : HttpProbeConfig → Result (Unit {0})
  check_url parsed =
      if str_eq (trim parsed.url) "" then err "probe config url must not be empty" else ok tt

  load_http_probe_config : Json → Result LoadedProbeConfig
  unfolding map_error check_url load_headers add_bearer
  load_http_probe_config config = do
    parsed ← map_error "invalid probe config: " (http.from_value config)
    _ ← check_url parsed
    headers ← load_headers parsed.headers http.no_headers
    all_headers ← add_bearer parsed.bearer_env headers
    ok (record {
      url = parsed.url;
      interval_secs = unwrap_or parsed.interval_secs 30;
      timeout_secs = unwrap_or parsed.timeout_secs 5;
      degraded_latency_ms = unwrap_or parsed.degraded_latency_ms 1500;
      headers = all_headers;
    })

  unfoldable pub load_probe_config : String → Json → Result LoadedProbeConfig
  unfolding load_http_probe_config
  load_probe_config probe_kind config =
      if str_eq probe_kind "http"
      then load_http_probe_config config
      else err (append "unsupported probe kind: " probe_kind)

  -- The request of a round, and how it is judged.
  unfoldable pub execute_http_probe : ℕ → LoadedProbeConfig → ProbeResult
  execute_http_probe round config =
      let (answer, millis) = http.send round config.url config.headers config.timeout_secs in
      probe_result answer (elapsed_ms millis)

  abbrev config_error_result : ProbeResult
  config_error_result = record {
    status = ProviderCheckStatus.failure;
    latency_ms = none;
    error_class = some "provider_probe_config_error";
    status_code = none;
  }

  -- What is to be recorded of a target, with the latency from which it counts as slow; none if its
  -- probe is not due.
  unfoldable pub probe_target :
      ℕ → ProviderTargetRecord Json → Option ProviderHealthRecord → ℤ → Option (ProbeResult × ℕ)
  unfolding execute_http_probe
  probe_target round target previous now =
      elim (load_probe_config target.probe_kind target.probe_config_json) [
        | ok config ↦
            if probe_due previous config.interval_secs now
            then some (execute_http_probe round config, config.degraded_latency_ms)
            else none
        | err message ↦ some (config_error_result, 1500)
      ]

  module _ (S : GumStore Json) where
    -- The check and then the new health of a target; an error of the store ends the run.
    unfoldable pub record_probe :
        ProviderTargetRecord Json
        → Option ProviderHealthRecord
        → ProbeResult
        → ℕ
        → ℤ
        → S.State
        → Result ProviderHealthRecord × S.State
    record_probe target previous result degraded_latency_ms now s =
        let (checked, s') = S.record_provider_check s (record {
          provider_target_id = target.id;
          status = result.status;
          latency_ms = result.latency_ms;
          error_class = result.error_class;
          status_code = result.status_code;
          checked_at_epoch_ms = now;
        }) in
        elim checked [
          | err e ↦ (err e, s')
          | ok _ ↦
              S.set_provider_health s'
                (next_health_params target previous result now degraded_latency_ms)
        ]

    collect_health : Map ProviderHealthRecord → List ProviderHealthRecord → Map ProviderHealthRecord
    collect_health m [] = m
    collect_health m (r ∷ rest) = collect_health (insert r.provider_target_id r m) rest

    cons_updated :
        ProviderHealthRecord
        → Result (List ProviderHealthRecord) × S.State
        → Result (List ProviderHealthRecord) × S.State
    cons_updated r (ok rest, s) = (ok (r ∷ rest), s)
    cons_updated r (err e, s) = (err e, s)

    -- A round is numbered by the targets that are left.
    unfoldable pub probe_each :
        Map ProviderHealthRecord
        → ℤ
        → List (ProviderTargetRecord Json)
        → S.State
        → Result (List ProviderHealthRecord) × S.State
    unfolding cons_updated
    probe_each health now [] s = (ok [], s)
    probe_each health now (target ∷ targets) s =
        if not target.enabled
        then probe_each health now targets s
        else (let previous = get target.id health in
            elim (probe_target (length targets) target previous now) [
              | none ↦ probe_each health now targets s
              | some (result, degraded_latency_ms) ↦
                  let (recorded, s') =
                    record_probe target previous result degraded_latency_ms now s in
                  elim recorded [
                    | err e ↦ (err e, s')
                    | ok r ↦ cons_updated r (probe_each health now targets s')
                  ]
            ])

    unfoldable pub run_provider_probes : S.State → ℤ → Result (List ProviderHealthRecord) × S.State
    unfolding collect_health probe_each
    run_provider_probes s now = elim (S.list_provider_targets s) [
      | err e ↦ (err e, s)
      | ok targets ↦ elim (S.list_provider_health s) [
        | err e ↦ (err e, s)
        | ok records ↦ probe_each (collect_health [] records) now targets s
      ]
    ]
