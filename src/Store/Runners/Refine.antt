-- ===== src/Store/Runners/Refine.antt =====
-- The operations of crates/gum-store/src/memory.rs on runners and control leases, against the
-- abstract machine.
use gum.Prelude.{
  refl, ◌≡◌, Option, none, some, String, List, [], ◌∷◌, arith, Bool-cases, inl, inr, ◌⊎◌, ◌∙◌,
}
use gum.Prelude.Int.{ℤ}
use gum.Map.{get}
use gum.Types.{Result, ok, err}
use gum.Models.{LeaseRecord}
use gum.Queries.Params.{RegisterRunnerParams, HeartbeatRunnerParams, ControlLeaseParams}
use gum.Store.{MemoryState, MemoryStore}
use gum.Store.Runners.{
  upsert_runner_locked, register_runner, renew_lease, renew_leases, heartbeat_runner, can_acquire,
  try_acquire_control_lease,
}
use gum.Store.Signals.Keeps.{Kept}
use gum.Lifecycle.Refine.{StoreInv, Refines, Refines-refl, Refines-drift}

module _ {Json : Type 0} where
  renew_lease-Kept :
      (state state' : MemoryState Json) (runner_id : String) (expiry : ℤ) (lease_id : String)
      (lease : Option LeaseRecord)
      → renew_lease state runner_id expiry lease_id lease ≡ ok state'
      → Kept state state'
  unfolding renew_lease
  renew_lease-Kept state state' runner_id expiry lease_id none e = absurd (ground arith)
  renew_lease-Kept state state' runner_id expiry lease_id (some lease) e = record {
    jobs = ground arith;
    runs = ground arith;
    attempts = ground arith;
  }

  renew_leases-Kept :
      (first state : MemoryState Json) (runner_id : String) (expiry : ℤ) (ids : List String)
      → Kept first state
      → Kept first (renew_leases state runner_id expiry ids).1
  unfolding renew_leases
  renew_leases-Kept first state runner_id expiry [] kept = kept
  renew_leases-Kept first state runner_id expiry (lease_id ∷ rest) kept =
      elim (answered (renew_lease state runner_id expiry lease_id (get lease_id state.leases))) [
        | inl (m, e) ↦ rw (e, renew_leases) kept
        | inr (state', e) ↦
            let step = renew_lease-Kept state state' runner_id expiry lease_id _ e in
            rw (e, renew_leases)
              (renew_leases-Kept first state' runner_id expiry rest (record {
                jobs = step.jobs ∙ kept.jobs;
                runs = step.runs ∙ kept.runs;
                attempts = step.attempts ∙ kept.attempts;
              }))
      ]
    where
      answered :
          (r : Result (MemoryState Json))
          → ((m : String) × (r ≡ err m)) ⊎ ((state' : MemoryState Json) × (r ≡ ok state'))
      answered (ok state') = inr (state', refl)
      answered (err m) = inl (m, refl)

module _ {Json : Type 0} (s : MemoryStore Json) (h : StoreInv s) where
  pub register_runner-Refines :
      (params : RegisterRunnerParams) (now : ℤ) → Refines s (register_runner s params now).1
  unfolding register_runner upsert_runner_locked
  register_runner-Refines params now =
      Refines-drift _ (omega arith) refl refl refl (Refines-refl s h)

  pub heartbeat_runner-Refines :
      (params : HeartbeatRunnerParams) (now : ℤ) → Refines s (heartbeat_runner s params now).1
  unfolding heartbeat_runner upsert_runner_locked
  heartbeat_runner-Refines params now =
      let kept =
        renew_leases-Kept s.state _ params.runner_id _ params.active_lease_ids
          (record { jobs = refl; runs = refl; attempts = refl }) in
      Refines-drift _ (omega arith) kept.jobs kept.runs kept.attempts (Refines-refl s h)

  pub try_acquire_control_lease-Refines :
      (params : ControlLeaseParams) → Refines s (try_acquire_control_lease s params).1
  unfolding try_acquire_control_lease
  try_acquire_control_lease-Refines params =
      elim (Bool-cases (can_acquire params (get params.lease_name s.state.control_leases))) [
        | inl free ↦
            rw (free, try_acquire_control_lease)
              (Refines-drift _ (omega arith) refl refl refl (Refines-refl s h))
        | inr held ↦ rw (held, try_acquire_control_lease) (Refines-refl s h)
      ]

  pub try_acquire_control_lease_taken :
      (params : ControlLeaseParams) → (try_acquire_control_lease s params).1.ids ≡ s.ids
  unfolding try_acquire_control_lease
  try_acquire_control_lease_taken params = ground arith

  pub register_runner_taken :
      (params : RegisterRunnerParams) (now : ℤ) → (register_runner s params now).1.ids ≡ s.ids
  unfolding register_runner
  register_runner_taken params now = refl

  pub heartbeat_runner_taken :
      (params : HeartbeatRunnerParams) (now : ℤ) → (heartbeat_runner s params now).1.ids ≡ s.ids
  unfolding heartbeat_runner
  heartbeat_runner_taken params now = refl
