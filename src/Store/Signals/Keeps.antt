-- ===== src/Store/Signals/Keeps.antt =====
-- The parts of the state that the health signals of crates/gum-store/src/memory.rs do not write.
use gum.Prelude.{◌+◌, ◌^◌, ◌≤◌, ◌<◌, ◌≡◌, refl, Option, none, some, String, str_eq, arith}
use gum.Prelude.Int.{ℤ}
use gum.Prelude.Lists.{find}
use gum.Map.{values}
use gum.Types.{AttemptStatus}
use gum.Models.{ProviderCheckStatus, ProviderTargetRecord}
use gum.Store.{MemoryState, MemoryStore, next_id}
use gum.Store.Signals.{record_signal, apply_provider_signal_locked, apply_function_signal_locked}
use gum.Lifecycle.Ids.{next_number_lem}

pub record Kept {Json : Type 0} (a b : MemoryState Json) : Type 0 where
  pub jobs : b.jobs ≡ a.jobs
  pub runs : b.runs ≡ a.runs
  pub attempts : b.attempts ≡ a.attempts

-- The part is kept, and identifiers may have been taken.
pub record Signalled {Json : Type 0} (s t : MemoryStore Json) : Type 0 where
  pub kept : Kept s.state t.state
  pub ids : s.ids ≤ t.ids
  pub taken : t.ids ≤ s.ids + 1

module _ {Json : Type 0} (s : MemoryStore Json) (room : s.ids + 1 < 2 ^ 64) where
  record_signal-Signalled :
      (state : MemoryState Json) (status : ProviderCheckStatus) (error_class : Option String)
      (now : ℤ) (target : Option (ProviderTargetRecord Json))
      → Kept s.state state
      → Signalled s (record_signal (record s { state = state }) status error_class now target)
  unfolding record_signal next_id
  record_signal-Signalled state status error_class now none kept = record {
    kept = kept;
    ids = omega arith;
    taken = omega arith;
  }
  record_signal-Signalled state status error_class now (some target) kept =
      let next = next_number_lem s.ids room in
      record {
        kept = record { jobs = kept.jobs; runs = kept.runs; attempts = kept.attempts };
        ids = omega arith;
        taken = omega arith;
      }

  pub apply_provider_signal_locked-Signalled :
      (state : MemoryState Json) (slug : String) (status : ProviderCheckStatus)
      (error_class : Option String) (now : ℤ)
      → Kept s.state state
      → Signalled s
          (apply_provider_signal_locked (record s { state = state }) slug status error_class now)
  unfolding apply_provider_signal_locked
  apply_provider_signal_locked-Signalled state slug status error_class now kept =
      record_signal-Signalled state status error_class now
        (find (λ candidate. str_eq candidate.slug slug) (values state.provider_targets)) kept

pub apply_function_signal_locked-Kept :
    {Json : Type 0} (state : MemoryState Json) (job_id : String) (failure_class : Option String)
    (status : AttemptStatus) (now : ℤ)
    → Kept state (apply_function_signal_locked state job_id failure_class status now)
unfolding apply_function_signal_locked
apply_function_signal_locked-Kept state job_id failure_class status now = record {
  jobs = refl;
  runs = refl;
  attempts = refl;
}
