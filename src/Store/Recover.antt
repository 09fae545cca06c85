-- ===== src/Store/Recover.antt =====
-- crates/gum-store/src/memory.rs: attempts whose runner has lost its lease.
pub mod Refine
pub mod Leases
pub mod Each
pub mod Lost
pub mod Outcome
use gum.Prelude.{
  Bool, false, ◌||◌, Option, none, some, List, [], ◌∷◌, ◌++◌, String, ltb, if◌then◌else◌, is_some,
}
use gum.Prelude.Int.{ℤ, leb_ℤ, saturating_add, secs_to_ms}
use gum.Prelude.Lists.{filter, filter_map}
use gum.Map.{get, insert, modify, values}
use gum.Types.{RunStatus, AttemptStatus, attempt_status_eq, Result, ok}
use gum.Models.{RunRecord, AttemptRecord, LeaseRecord, RunnerRecord}
use gum.Store.{MemoryState, MemoryStore}

unfoldable pub is_running : AttemptRecord → Bool
unfolding attempt_status_eq
is_running attempt = attempt_status_eq attempt.status AttemptStatus.running

-- Neither acknowledged nor released.
unfoldable pub is_closed : LeaseRecord → Bool
is_closed lease = is_some lease.acked_at_epoch_ms || is_some lease.released_at_epoch_ms

is_stale : Option RunnerRecord → ℤ → Bool
is_stale none now = false
is_stale (some runner) now =
    leb_ℤ
      (saturating_add runner.last_heartbeat_at_epoch_ms (secs_to_ms runner.heartbeat_timeout_secs))
      now

unfoldable pub fail_attempt : ℤ → AttemptRecord → AttemptRecord
fail_attempt now attempt = record attempt {
  status = AttemptStatus.failed;
  failure_reason = some "runner lost lease";
  failure_class = some "gum_internal_error";
  finished_at_epoch_ms = some now;
}

release_lease : ℤ → LeaseRecord → LeaseRecord
release_lease now lease = record lease { released_at_epoch_ms = some now }

module _ {Json : Type 0} where
  -- The closure of `filter_map`: the attempt's identifier, if its lease is open and has expired or
  -- belongs to a runner that has missed its heartbeats.
  lost_by_lease : MemoryState Json → ℤ → AttemptRecord → Option LeaseRecord → Option String
  lost_by_lease state now attempt none = none
  lost_by_lease state now attempt (some lease) =
      if is_closed lease
      then none
      else if leb_ℤ lease.expires_at_epoch_ms now
          || is_stale (get lease.runner_id state.runners) now
      then some attempt.id
      else none

  pub lost_attempt : MemoryState Json → ℤ → AttemptRecord → Option String
  lost_attempt state now attempt = elim attempt.lease_id [
    | none ↦ none
    | some lease_id ↦ lost_by_lease state now attempt (get lease_id state.leases)
  ]

  unfoldable pub lost_attempt_ids : MemoryState Json → ℤ → List String
  unfolding is_running lost_attempt lost_by_lease is_stale is_closed
  lost_attempt_ids state now =
      filter_map (lost_attempt state now) (filter is_running (values state.attempts))

  -- The run goes back to the queue while it has attempts left, and fails otherwise.
  unfoldable pub lose_run : RunRecord Json → RunRecord Json
  lose_run run =
      if ltb run.attempt_count run.max_attempts
      then record run {
        status = RunStatus.queued;
        failure_reason = none;
        failure_class = none;
        retry_after_epoch_ms = none;
        waiting_for_provider_slug = none;
      }
      else record run {
        status = RunStatus.failed;
        failure_reason = some "runner lost lease";
        failure_class = some "gum_internal_error";
        retry_after_epoch_ms = none;
        waiting_for_provider_slug = none;
      }

  release_of : MemoryState Json → ℤ → Option String → MemoryState Json
  unfolding release_lease
  release_of state now none = state
  release_of state now (some lease_id) = record state {
    leases = modify lease_id (release_lease now) state.leases;
  }

  requeue_run :
      MemoryState Json → String → Option (RunRecord Json) → MemoryState Json × List (RunRecord Json)
  unfolding lose_run
  requeue_run state run_id none = (state, [])
  requeue_run state run_id (some run) =
      (record state { runs = insert run_id (lose_run run) state.runs }, lose_run run ∷ [])

  lose_attempt :
      MemoryState Json
      → ℤ
      → String
      → Option AttemptRecord
      → MemoryState Json × List (RunRecord Json)
  unfolding fail_attempt release_of requeue_run is_running
  lose_attempt state now attempt_id none = (state, [])
  lose_attempt state now attempt_id (some attempt) =
      if is_running attempt
      then requeue_run
          (release_of
            (record state {
              attempts = insert attempt_id (fail_attempt now attempt) state.attempts;
            })
            now attempt.lease_id)
          attempt.run_id (get attempt.run_id state.runs)
      else (state, [])

  -- The body of the loop over the lost attempts: the state, and the run that it recovers, if any.
  recover_attempt : MemoryState Json → ℤ → String → MemoryState Json × List (RunRecord Json)
  unfolding lose_attempt
  recover_attempt state now attempt_id =
      lose_attempt state now attempt_id (get attempt_id state.attempts)

  pub recover_each : ℤ → List String → MemoryState Json → MemoryState Json × List (RunRecord Json)
  unfolding recover_attempt
  recover_each now [] state = (state, [])
  recover_each now (id ∷ ids) state =
      let (state', recovered) = recover_attempt state now id in
      let (state'', rest) = recover_each now ids state' in (state'', recovered ++ rest)

  unfoldable pub recover_lost_attempts_locked :
      MemoryState Json → ℤ → MemoryState Json × List (RunRecord Json)
  unfolding lost_attempt_ids recover_each
  recover_lost_attempts_locked state now = recover_each now (lost_attempt_ids state now) state

  unfoldable pub recover_lost_attempts :
      MemoryStore Json → ℤ → Result (List (RunRecord Json)) × MemoryStore Json
  unfolding recover_lost_attempts_locked
  recover_lost_attempts s now =
      let (state', runs) = recover_lost_attempts_locked s.state now in
      (ok runs, record s { state = state' })
