-- ===== src/Store/Deploys/Leases.antt =====
-- What the probes write to the store of crates/gum-store/src/memory.rs, and the control leases.
use gum.Prelude.{◌≡◌, arith}
use gum.Queries.Params.{RecordProviderCheckParams, SetProviderHealthParams}
use gum.Store.{MemoryStore}
use gum.Store.Deploys.{record_provider_check, set_provider_health, set_health_of}

module _ {Json : Type 0} (s : MemoryStore Json) where
  pub record_provider_check_leases :
      (params : RecordProviderCheckParams)
      → (record_provider_check s params).1.state.control_leases ≡ s.state.control_leases
  unfolding record_provider_check
  record_provider_check_leases params = ground arith

  pub set_provider_health_leases :
      (params : SetProviderHealthParams)
      → (set_provider_health s params).1.state.control_leases ≡ s.state.control_leases
  unfolding set_provider_health set_health_of
  set_provider_health_leases params = ground arith
