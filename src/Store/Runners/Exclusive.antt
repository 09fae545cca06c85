-- ===== src/Store/Runners/Exclusive.antt =====
-- The holders of control leases, in `try_acquire_control_lease` of crates/gum-
-- store/src/memory.rs.
use gum.Prelude.{◌≡◌, refl, true, false, str_eq, eq_iff, arith}
use gum.Prelude.Int.{leb_ℤ, saturating_add, secs_to_ms}
use gum.Map.{get, insert, get-insert}
use gum.Types.{ok}
use gum.Queries.Params.{ControlLeaseParams}
use gum.Store.{MemoryStore}
use gum.Store.Runners.{can_acquire, control_lease, try_acquire_control_lease}

module _ {Json : Type 0} (s : MemoryStore Json) where
  granted-lease :
      (first : ControlLeaseParams) (t : MemoryStore Json)
      → try_acquire_control_lease s first ≡ (ok true, t)
      → t.state.control_leases
        ≡ insert first.lease_name (control_lease first) s.state.control_leases
  unfolding try_acquire_control_lease
  granted-lease first t granted = ground arith

  held_lease :
      (first second : ControlLeaseParams)
      → str_eq first.holder_id second.holder_id ≡ false
      → leb_ℤ (saturating_add first.now_epoch_ms (secs_to_ms first.ttl_secs)) second.now_epoch_ms
        ≡ false
      → first.lease_name ≡ second.lease_name
      → can_acquire second (
          get second.lease_name
            (insert first.lease_name (control_lease first) s.state.control_leases))
        ≡ false
  unfolding can_acquire control_lease
  held_lease first second other running same = ground (
    arith,
    eq_iff first.lease_name second.lease_name,
    get-insert first.lease_name second.lease_name (control_lease first) s.state.control_leases,
  )

-- As long as the control leases are those that the holder left.
pub refused_while_held :
    {Json : Type 0} (s t u : MemoryStore Json) (first second : ControlLeaseParams)
    → try_acquire_control_lease s first ≡ (ok true, t)
    → u.state.control_leases ≡ t.state.control_leases
    → first.lease_name ≡ second.lease_name
    → str_eq first.holder_id second.holder_id ≡ false
    → leb_ℤ (saturating_add first.now_epoch_ms (secs_to_ms first.ttl_secs)) second.now_epoch_ms
      ≡ false
    → try_acquire_control_lease u second ≡ (ok false, u)
unfolding try_acquire_control_lease
refused_while_held s t u first second granted kept same other running =
    let leases = granted-lease s first t granted in
    let held = held_lease s first second other running same in rw (kept, leases, held) refl

-- Once a holder has acquired a control lease, another that asks for it before it expires is refused,
-- and the store stays as it is.
pub control_lease_exclusive :
    {Json : Type 0} (s t : MemoryStore Json) (first second : ControlLeaseParams)
    → try_acquire_control_lease s first ≡ (ok true, t)
    → first.lease_name ≡ second.lease_name
    → str_eq first.holder_id second.holder_id ≡ false
    → leb_ℤ (saturating_add first.now_epoch_ms (secs_to_ms first.ttl_secs)) second.now_epoch_ms
      ≡ false
    → try_acquire_control_lease t second ≡ (ok false, t)
control_lease_exclusive s t first second granted same other running =
    refused_while_held s t t first second granted refl same other running
