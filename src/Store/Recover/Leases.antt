-- ===== src/Store/Recover/Leases.antt =====
-- `recover_lost_attempts` of crates/gum-store/src/memory.rs and the control leases.
use gum.Prelude.{◌≡◌, ◌∙◌, refl, Option, List, [], ◌∷◌, String, arith}
use gum.Prelude.Int.{ℤ}
use gum.Map.{get}
use gum.Models.{AttemptRecord}
use gum.Store.{MemoryState, MemoryStore}
use gum.Store.Recover.{
  release_of, requeue_run, lose_attempt, recover_attempt, recover_each, lost_attempt_ids,
  recover_lost_attempts_locked, recover_lost_attempts,
}

module _ {Json : Type 0} where
  lose_attempt_leases :
      (state : MemoryState Json) (now : ℤ) (id : String) (attempt : Option AttemptRecord)
      → (lose_attempt state now id attempt).0.control_leases ≡ state.control_leases
  unfolding lose_attempt requeue_run release_of
  lose_attempt_leases state now id attempt = ground arith

  recover_each_leases :
      (now : ℤ) (ids : List String) (state : MemoryState Json)
      → (recover_each now ids state).0.control_leases ≡ state.control_leases
  unfolding recover_each recover_attempt
  recover_each_leases now [] state = refl
  recover_each_leases now (id ∷ ids) state =
      recover_each_leases now ids (recover_attempt state now id).0
      ∙ lose_attempt_leases state now id (get id state.attempts)

  pub recover_lost_attempts_leases :
      (s : MemoryStore Json) (now : ℤ)
      → (recover_lost_attempts s now).1.state.control_leases ≡ s.state.control_leases
  unfolding recover_lost_attempts recover_lost_attempts_locked
  recover_lost_attempts_leases s now =
      recover_each_leases now (lost_attempt_ids s.state now) s.state
