-- ===== src/Store/Signals.antt =====
-- crates/gum-store/src/memory.rs: what the end of an attempt tells about its provider and its job.
pub mod Keeps
use gum.Prelude.{
  ℕ, ◌+◌, ◌-◌, ◌^◌, min, Bool, true, false, Option, none, some, [], ◌∷◌, ◌++◌, String, str_eq, leb,
  if◌then◌else◌, unwrap_or,
}
use gum.Prelude.Int.{ℤ, pos, ◌+ℤ◌, ◌-ℤ◌, leb_ℤ, add_i64, wrap_i32, clamp_i32, clamp_to}
use gum.Prelude.Lists.{find}
use gum.Map.{get, insert, values}
use gum.Types.{AttemptStatus, attempt_status_eq}
use gum.Models.{
  ProviderCheckStatus, ProviderHealthState, FunctionHealthState, ProviderTargetRecord,
  ProviderHealthRecord, FunctionHealthRecord,
}
use gum.Queries.Failure.{is_infrastructure_failure_class, function_health_hold_delay_ms}
use gum.Queries.Disposition.{is_unhealthy}
use gum.Store.{MemoryState, MemoryStore, next_id}

unfoldable pub provider_state_eq : ProviderHealthState → ProviderHealthState → Bool
provider_state_eq ProviderHealthState.healthy ProviderHealthState.healthy = true
provider_state_eq ProviderHealthState.degraded ProviderHealthState.degraded = true
provider_state_eq ProviderHealthState.down ProviderHealthState.down = true
provider_state_eq _ _ = false

function_state_eq : FunctionHealthState → FunctionHealthState → Bool
function_state_eq FunctionHealthState.healthy FunctionHealthState.healthy = true
function_state_eq FunctionHealthState.degraded FunctionHealthState.degraded = true
function_state_eq FunctionHealthState.down FunctionHealthState.down = true
function_state_eq _ _ = false

module _ {ℓ κ} {A : Type ℓ} {B : Type κ} where
  -- `option.map(f).unwrap_or(d)`
  abbrev map_or : Option A → B → (A → B) → B
  map_or none d f = d
  map_or (some a) d f = f a

  -- `option.and_then(f)`
  abbrev and_then : Option A → (A → Option B) → Option B
  and_then none f = none
  and_then (some a) f = f a

-- The moment of the last change is kept while the state stays.
provider_changed_at : Option ProviderHealthRecord → ProviderHealthState → ℤ → ℤ
unfolding provider_state_eq
provider_changed_at none state now = now
provider_changed_at (some record') state now =
    if provider_state_eq record'.state state then record'.last_changed_at_epoch_ms else now

-- `(score + 1).clamp(0, 10)`, over i32
raise_score : ℤ → ℤ
raise_score score = clamp_to 10 (wrap_i32 (score +ℤ pos 1))

next_provider_health :
    String
    → String
    → String
    → Option ProviderHealthRecord
    → ProviderCheckStatus
    → Option String
    → ℤ
    → ProviderHealthRecord
unfolding provider_changed_at raise_score
next_provider_health id name slug previous ProviderCheckStatus.success error_class now = record {
  provider_target_id = id;
  provider_name = name;
  provider_slug = slug;
  state = ProviderHealthState.healthy;
  reason = none;
  last_changed_at_epoch_ms = provider_changed_at previous ProviderHealthState.healthy now;
  last_success_at_epoch_ms = some now;
  last_failure_at_epoch_ms = and_then previous (λ r. r.last_failure_at_epoch_ms);
  degraded_score = map_or previous (pos 0) (λ r. clamp_i32 (r.degraded_score -ℤ pos 2));
  down_score = pos 0;
}
next_provider_health id name slug previous ProviderCheckStatus.failure error_class now =
    let next_down = raise_score (map_or previous (pos 0) (λ r. r.down_score)) in
    let next_state =
      if leb_ℤ (pos 3) next_down then ProviderHealthState.down else ProviderHealthState.degraded in
    record {
      provider_target_id = id;
      provider_name = name;
      provider_slug = slug;
      state = next_state;
      reason = some (unwrap_or error_class "provider request failed");
      last_changed_at_epoch_ms = provider_changed_at previous next_state now;
      last_success_at_epoch_ms = and_then previous (λ r. r.last_success_at_epoch_ms);
      last_failure_at_epoch_ms = some now;
      degraded_score = raise_score (map_or previous (pos 0) (λ r. r.degraded_score));
      down_score = next_down;
    }

function_changed_at : Option FunctionHealthRecord → FunctionHealthState → ℤ → ℤ
unfolding function_state_eq
function_changed_at none state now = now
function_changed_at (some record') state now =
    if function_state_eq record'.state state then record'.last_changed_at_epoch_ms else now

-- left.saturating_add(1), over u32
raise_count : ℕ → ℕ
raise_count n = min (n + 1) (2 ^ 32 - 1)

state_after_failures : ℕ → FunctionHealthState
state_after_failures n =
    if leb 5 n
    then FunctionHealthState.down
    else if leb 3 n
    then FunctionHealthState.degraded
    else FunctionHealthState.healthy

-- A function that is not healthy is held for thirty seconds.
hold_after : FunctionHealthState → ℤ → Option ℤ
hold_after state now =
    if is_unhealthy state then some (add_i64 now function_health_hold_delay_ms) else none

-- After an infrastructure failure; the count is the new one.
infra_failure_health :
    String → Option FunctionHealthRecord → Option String → ℤ → ℕ → FunctionHealthRecord
unfolding function_changed_at state_after_failures hold_after
infra_failure_health job_id previous failure_class now failures =
    let state_name = state_after_failures failures in
    record {
      job_id = job_id;
      state = state_name;
      consecutive_infra_failures = failures;
      reason = some (unwrap_or failure_class "infrastructure failure");
      hold_until_epoch_ms = hold_after state_name now;
      last_changed_at_epoch_ms = function_changed_at previous state_name now;
      last_success_at_epoch_ms = and_then previous (λ r. r.last_success_at_epoch_ms);
      last_failure_at_epoch_ms = some now;
    }

next_function_health :
    String → Option FunctionHealthRecord → Option String → AttemptStatus → ℤ → FunctionHealthRecord
unfolding function_changed_at raise_count infra_failure_health attempt_status_eq
next_function_health job_id previous failure_class status now =
    if attempt_status_eq status AttemptStatus.succeeded
    then record {
      job_id = job_id;
      state = FunctionHealthState.healthy;
      consecutive_infra_failures = 0;
      reason = none;
      hold_until_epoch_ms = none;
      last_changed_at_epoch_ms = function_changed_at previous FunctionHealthState.healthy now;
      last_success_at_epoch_ms = some now;
      last_failure_at_epoch_ms = and_then previous (λ r. r.last_failure_at_epoch_ms);
    }
    else if is_infrastructure_failure_class failure_class
    then infra_failure_health job_id previous failure_class now
        (raise_count (map_or previous 0 (λ r. r.consecutive_infra_failures)))
    else unwrap_or previous (record {
      job_id = job_id;
      state = FunctionHealthState.healthy;
      consecutive_infra_failures = 0;
      reason = none;
      hold_until_epoch_ms = none;
      last_changed_at_epoch_ms = now;
      last_success_at_epoch_ms = none;
      last_failure_at_epoch_ms = none;
    })

module _ {Json : Type 0} where
  record_signal :
      MemoryStore Json
      → ProviderCheckStatus
      → Option String
      → ℤ
      → Option (ProviderTargetRecord Json)
      → MemoryStore Json
  unfolding next_provider_health
  record_signal s status error_class now none = s
  record_signal s status error_class now (some target) =
      let (id, ids) = next_id s "pcheck" in
      let previous = get target.id s.state.provider_health in
      record {
        ids = ids;
        state = record s.state {
          provider_checks =
              s.state.provider_checks
              ++ (record {
                id = id;
                provider_target_id = target.id;
                status = status;
                latency_ms = none;
                error_class = error_class;
                status_code = none;
                checked_at_epoch_ms = now;
              }
                  ∷ []);
          provider_health =
              insert target.id
                (next_provider_health target.id target.name target.slug previous status error_class
                  now)
                s.state.provider_health;
        };
      }

  unfoldable pub apply_provider_signal_locked :
      MemoryStore Json → String → ProviderCheckStatus → Option String → ℤ → MemoryStore Json
  unfolding record_signal
  apply_provider_signal_locked s provider_slug status error_class now =
      record_signal s status error_class now
        (find (λ candidate. str_eq candidate.slug provider_slug) (values s.state.provider_targets))

  unfoldable pub function_health_for_job : MemoryState Json → String → Option FunctionHealthRecord
  function_health_for_job state job_id = get job_id state.function_health

  unfoldable pub apply_function_signal_locked :
      MemoryState Json → String → Option String → AttemptStatus → ℤ → MemoryState Json
  unfolding next_function_health
  apply_function_signal_locked state job_id failure_class status now = record state {
    function_health =
        insert job_id
          (next_function_health job_id (get job_id state.function_health) failure_class status now)
          state.function_health;
  }
