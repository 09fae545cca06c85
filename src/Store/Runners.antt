-- ===== src/Store/Runners.antt =====
-- crates/gum-store/src/memory.rs: runners and their heartbeats, control leases, and the state of a
-- lease. `now` is the reading of the clock.
pub mod Refine
pub mod Exclusive
use Prim.Native.String.{◌++◌ as append}
use gum.Prelude.{
  Bool, true, false, not, ◌||◌, Option, none, some, List, [], ◌∷◌, String, str_eq, if◌then◌else◌,
  is_some,
}
use gum.Prelude.Int.{ℤ, leb_ℤ, saturating_add, secs_to_ms}
use gum.Map.{get, insert}
use gum.Types.{Result, ok, err}
use gum.Models.{RunnerRecord, LeaseRecord, AttemptRecord, ControlLeaseRecord, LeaseStateRecord}
use gum.Queries.Params.{RegisterRunnerParams, HeartbeatRunnerParams, ControlLeaseParams}
use gum.Store.{MemoryState, MemoryStore}
use gum.Store.Recover.{is_closed}

extend_lease : ℤ → LeaseRecord → LeaseRecord
extend_lease expiry lease = record lease { expires_at_epoch_ms = expiry }

-- What a heartbeat tells of the runner itself.
runner_of : HeartbeatRunnerParams → RegisterRunnerParams
runner_of params = record {
  runner_id = params.runner_id;
  compute_class = params.compute_class;
  cpu_cores = params.cpu_cores;
  memory_mb = params.memory_mb;
  max_concurrent_leases = params.max_concurrent_leases;
  heartbeat_timeout_secs = params.heartbeat_timeout_secs;
}

answer : RunnerRecord → Result (Unit {0}) → Result RunnerRecord
answer runner (ok done) = ok runner
answer runner (err e) = err e

-- The lease is free, or is the caller's own.
can_acquire : ControlLeaseParams → Option ControlLeaseRecord → Bool
can_acquire params none = true
can_acquire params (some existing) =
    str_eq existing.holder_id params.holder_id
    || leb_ℤ existing.expires_at_epoch_ms params.now_epoch_ms

control_lease : ControlLeaseParams → ControlLeaseRecord
control_lease params = record {
  name = params.lease_name;
  holder_id = params.holder_id;
  expires_at_epoch_ms = saturating_add params.now_epoch_ms (secs_to_ms params.ttl_secs);
}

lease_state_of : LeaseRecord → Option AttemptRecord → Option LeaseStateRecord
lease_state_of lease none = none
lease_state_of lease (some attempt) = some (record {
  lease_id = lease.id;
  run_id = attempt.run_id;
  attempt_id = attempt.id;
  cancel_requested =
      is_some lease.revoke_requested_at_epoch_ms || is_some attempt.cancel_requested_at_epoch_ms;
})

module _ {Json : Type 0} where
  upsert_runner_locked :
      MemoryState Json → RegisterRunnerParams → ℤ → RunnerRecord × MemoryState Json
  upsert_runner_locked state params now =
      let runner : RunnerRecord = record {
        id = params.runner_id;
        compute_class = params.compute_class;
        cpu_cores = params.cpu_cores;
        memory_mb = params.memory_mb;
        max_concurrent_leases = params.max_concurrent_leases;
        heartbeat_timeout_secs = params.heartbeat_timeout_secs;
        last_heartbeat_at_epoch_ms = now;
      } in
      (runner, record state { runners = insert params.runner_id runner state.runners })

  unfoldable pub register_runner :
      MemoryStore Json → RegisterRunnerParams → ℤ → Result RunnerRecord × MemoryStore Json
  unfolding upsert_runner_locked
  register_runner s params now =
      let (runner, state) = upsert_runner_locked s.state params now in
      (ok runner, record s { state = state })

  renew_lease :
      MemoryState Json → String → ℤ → String → Option LeaseRecord → Result (MemoryState Json)
  unfolding extend_lease
  renew_lease state runner_id expiry lease_id none = err (append "lease not found: " lease_id)
  renew_lease state runner_id expiry lease_id (some lease) =
      if not (str_eq lease.runner_id runner_id)
      then err (append "runner does not own lease: " lease_id)
      else if is_closed lease
      then ok state
      else ok (record state { leases = insert lease_id (extend_lease expiry lease) state.leases })

  -- The loop over the leases; those before one that is refused stay renewed.
  renew_leases : MemoryState Json → String → ℤ → List String → Result (Unit {0}) × MemoryState Json
  unfolding renew_lease
  renew_leases state runner_id expiry [] = (ok tt, state)
  renew_leases state runner_id expiry (lease_id ∷ rest) =
      elim (renew_lease state runner_id expiry lease_id (get lease_id state.leases)) [
        | err e ↦ (err e, state)
        | ok state' ↦ renew_leases state' runner_id expiry rest
      ]

  pub heartbeat_runner :
      MemoryStore Json → HeartbeatRunnerParams → ℤ → Result RunnerRecord × MemoryStore Json
  unfolding upsert_runner_locked runner_of renew_leases answer
  heartbeat_runner s params heartbeat_at =
      let (runner, state) = upsert_runner_locked s.state (runner_of params) heartbeat_at in
      let expiry = saturating_add heartbeat_at (secs_to_ms params.lease_ttl_secs) in
      let (result, state') = renew_leases state params.runner_id expiry params.active_lease_ids in
      (answer runner result, record s { state = state' })

  unfoldable pub try_acquire_control_lease :
      MemoryStore Json → ControlLeaseParams → Result Bool × MemoryStore Json
  unfolding can_acquire control_lease
  try_acquire_control_lease s params =
      if can_acquire params (get params.lease_name s.state.control_leases)
      then (
        ok true,
        record s {
          state = record s.state {
            control_leases = insert params.lease_name (control_lease params) s.state.control_leases;
          };
        },
      )
      else (ok false, s)

  pub get_lease_state : MemoryStore Json → String → Result (Option LeaseStateRecord)
  unfolding lease_state_of
  get_lease_state s lease_id = elim (get lease_id s.state.leases) [
    | none ↦ ok none
    | some lease ↦ ok (lease_state_of lease (get lease.attempt_id s.state.attempts))
  ]
