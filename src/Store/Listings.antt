-- ===== src/Store/Listings.antt =====
-- crates/gum-store/src/memory.rs: the listings of providers, deploys, runs, runners and leases.
pub mod Limits
pub mod Active
pub mod Recent
use gum.Prelude.{
  ℕ, ◌%◌, ◌^◌, Bool, not, ◌&&◌, ◌||◌, List, String, str_eq, Option, none, some, is_some, map,
}
use gum.Prelude.Int.{ℤ}
use gum.Prelude.Lists.{take, filter, filter_map}
use gum.Prelude.Order.{Ordering, then_with, not_after, cmp_ℤ, cmp_text}
use gum.Prelude.Sort.{sort_by}
use gum.Map.{get, values}
use gum.Types.{DeployStatus, deploy_status_eq, Result, ok}
use gum.Models.{
  ProviderTargetRecord, ProviderHealthRecord, DeployRecord, RunRecord, RunnerRecord, AttemptRecord,
  LeaseRecord, RunnerStatusRecord, LeaseStatusRecord,
}
use gum.Store.{MemoryState, MemoryStore}
use gum.Store.Recover.{is_closed}
use gum.Store.Scope.{active_on_runner, active_cpu_cores, active_memory_mb}

-- By the moment for which it is scheduled, then by identifier, the latest first.
unfoldable pub cmp_recent : {Json : Type 0} → RunRecord Json → RunRecord Json → Ordering
cmp_recent left right =
    then_with (cmp_ℤ right.scheduled_at_epoch_ms left.scheduled_at_epoch_ms)
      (cmp_text right.id left.id)

-- The lease with its attempt, where that exists.
lease_status : LeaseRecord → Option AttemptRecord → Option LeaseStatusRecord
lease_status lease none = none
lease_status lease (some attempt) = some (record {
  lease_id = lease.id;
  run_id = attempt.run_id;
  attempt_id = attempt.id;
  runner_id = lease.runner_id;
  expires_at_epoch_ms = lease.expires_at_epoch_ms;
  cancel_requested =
      is_some lease.revoke_requested_at_epoch_ms || is_some attempt.cancel_requested_at_epoch_ms;
})

module _ {Json : Type 0} where
  unfoldable pub list_provider_targets :
      MemoryStore Json → Result (List (ProviderTargetRecord Json))
  list_provider_targets s = ok (
      sort_by (λ left right. not_after (cmp_text left.slug right.slug))
        (values s.state.provider_targets))

  unfoldable pub list_provider_health : MemoryStore Json → Result (List ProviderHealthRecord)
  list_provider_health s = ok (
      sort_by (λ left right. not_after (cmp_text left.provider_slug right.provider_slug))
        (values s.state.provider_health))

  unfoldable pub list_deploys_by_status :
      MemoryStore Json → DeployStatus → ℕ → Result (List DeployRecord)
  list_deploys_by_status s status limit = ok (
      take limit (
        sort_by (λ left right. not_after (cmp_text left.id right.id))
          (filter (λ deploy. deploy_status_eq deploy.status status) (values s.state.deploys))))

  -- The newest first, cut off at the limit.
  unfoldable pub newest : ℕ → List (RunRecord Json) → List (RunRecord Json)
  newest limit runs = take limit (sort_by (λ left right. not_after (cmp_recent left right)) runs)

  unfoldable pub list_recent_runs : MemoryStore Json → ℕ → Result (List (RunRecord Json))
  unfolding newest
  list_recent_runs s limit = ok (newest limit (values s.state.runs))

  unfoldable pub list_recent_runs_for_project :
      MemoryStore Json → String → ℕ → Result (List (RunRecord Json))
  unfolding newest
  list_recent_runs_for_project s project_id limit =
      ok (newest limit (filter (λ run. str_eq run.project_id project_id) (values s.state.runs)))

  runner_status : MemoryState Json → RunnerRecord → RunnerStatusRecord
  runner_status state runner = record {
    id = runner.id;
    compute_class = runner.compute_class;
    cpu_cores = runner.cpu_cores;
    memory_mb = runner.memory_mb;
    active_cpu_cores = active_cpu_cores state runner.id;
    active_memory_mb = active_memory_mb state runner.id;
    max_concurrent_leases = runner.max_concurrent_leases;
    last_heartbeat_at_epoch_ms = runner.last_heartbeat_at_epoch_ms;
    active_lease_count = active_on_runner state.attempts runner.id % 2 ^ 32;
  }

  unfoldable pub list_runners : MemoryStore Json → Result (List RunnerStatusRecord)
  unfolding runner_status
  list_runners s = ok (
      sort_by (λ left right. not_after (cmp_text left.id right.id))
        (map (runner_status s.state) (values s.state.runners)))

  unfoldable pub list_active_leases : MemoryStore Json → Result (List LeaseStatusRecord)
  unfolding lease_status
  list_active_leases s = ok (
      sort_by
        (λ left right. not_after (
          then_with (cmp_ℤ left.expires_at_epoch_ms right.expires_at_epoch_ms)
            (cmp_text left.lease_id right.lease_id)))
        (filter_map (λ lease. lease_status lease (get lease.attempt_id s.state.attempts))
          (filter (λ lease. not (is_closed lease)) (values s.state.leases))))
