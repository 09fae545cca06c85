-- ===== src/Store/Complete/Parts.antt =====
-- What `complete_attempt` of crates/gum-store/src/memory.rs relies on: the disposition of a
-- terminal report, the checks, and the signals.
use gum.Prelude.{
  ℕ, ◌+◌, ◌^◌, is_some, ◌≡◌, ◌<◌, true, false, Option, none, some, String, arith, Bool-cases, inl,
  inr,
}
use gum.Prelude.Int.{ℤ}
use gum.Map.{get}
use gum.Types.{RunStatus, AttemptStatus, run_status_eq, attempt_status_eq, ok}
use gum.Models.{AttemptRecord, JobRecord, FunctionHealthRecord}
use gum.Queries.Params.{CompleteAttemptParams}
use gum.Queries.Disposition.{compute_retry_disposition, is_terminal_attempt}
use gum.Store.{MemoryState, MemoryStore}
use gum.Store.Signals.Keeps.{
  Kept, Signalled, apply_provider_signal_locked-Signalled, apply_function_signal_locked-Kept,
}
use gum.Queries.Failure.{is_provider_failure_class}
use gum.Store.Complete.{preflight, signal_provider, signal}

-- What the disposition of a terminal report makes of a run.
pub disposition_stops :
    (params : CompleteAttemptParams) (run_id : String) (count max : ℕ)
    (health : Option FunctionHealthRecord) (now : ℤ)
    → is_terminal_attempt params.status ≡ true
    → let d =
        compute_retry_disposition run_id count max params.status params.failure_reason
          params.failure_class health now in
      (run_status_eq d.next_status RunStatus.running ≡ false)
      × (d.next_status ≡ RunStatus.queued → count < max)
unfolding compute_retry_disposition is_terminal_attempt run_status_eq
disposition_stops params run_id count max health now h = ground arith

-- An attempt that may be reported is open, as far as the report is concerned.
pub preflight_open :
    {Json : Type 0} (state : MemoryState Json) (params : CompleteAttemptParams) (now : ℤ)
    (attempt : AttemptRecord) (lease_id : String)
    → preflight state params now ≡ ok (attempt, lease_id)
    → (get params.attempt_id state.attempts ≡ some attempt)
      × (is_terminal_attempt attempt.status ≡ false)
      × (is_some attempt.finished_at_epoch_ms ≡ false)
unfolding preflight
preflight_open state params now attempt lease_id e = ground arith

module _ {Json : Type 0} (t : MemoryStore Json) (room : t.ids + 1 < 2 ^ 64) where
  signal_provider-Signalled :
      (state : MemoryState Json) (params : CompleteAttemptParams) (now : ℤ) (slug : Option String)
      → Kept t.state state
      → Signalled t (signal_provider (record t { state = state }) params now slug)
  unfolding signal_provider
  signal_provider-Signalled state params now none kept = record {
    kept = kept;
    ids = omega arith;
    taken = omega arith;
  }
  signal_provider-Signalled state params now (some slug) kept =
      elim (Bool-cases (attempt_status_eq params.status AttemptStatus.succeeded)) [
        | inl good ↦
            rw (good, signal_provider)
              (apply_provider_signal_locked-Signalled t room state slug _ _ now kept)
        | inr bad ↦ elim (Bool-cases (is_provider_failure_class params.failure_class)) [
          | inl counts ↦
              rw (bad, counts, signal_provider)
                (apply_provider_signal_locked-Signalled t room state slug _ _ now kept)
          | inr other ↦
              rw (bad, other, signal_provider)
                (record { kept = kept; ids = omega arith; taken = omega arith })
        ]
      ]

  pub signal-Signalled :
      (params : CompleteAttemptParams) (now : ℤ) (job : JobRecord) (slug : Option String)
      → Signalled t (signal t params now job slug)
  unfolding signal
  signal-Signalled params now job slug =
      signal_provider-Signalled _ params now slug
        (apply_function_signal_locked-Kept t.state job.id params.failure_class params.status now)
