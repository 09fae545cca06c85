-- ===== src/Scheduler/Probes/Schedule.antt =====
-- crates/gum-scheduler/src/probes.rs: when a provider is probed again.
use gum.Prelude.{String, ℕ, ◌≡◌, refl, Option, none, some, arith}
use gum.Prelude.Int.{ℤ, ◌≤ℤ◌, leb_ℤ, saturating_sub, secs_to_ms}
use gum.Models.{ProviderTargetRecord, ProviderHealthRecord}
use gum.Scheduler.Probes.{
  ProbeResult, latest, probe_due, next_health_params, health_of_result, previous_of, Previous,
}
use gum.Scheduler.Probes.Health.{recorded}

-- The moment is not later than the other, where there is one.
abbrev pub NotAfter : Option ℤ → ℤ → Type 0
NotAfter none now = Unit
NotAfter (some at) now = at ≤ℤ now

-- No probe of the record before is later than now.
abbrev pub IsPast : Option ProviderHealthRecord → ℤ → Type 0
IsPast none now = Unit
IsPast (some r) now =
    NotAfter r.last_success_at_epoch_ms now × NotAfter r.last_failure_at_epoch_ms now

latest-now :
    (before : Option ℤ) (now : ℤ)
    → NotAfter before now
    → (latest (some now) before ≡ some now) × (latest before (some now) ≡ some now)
unfolding latest
latest-now none now h = (refl, refl)
latest-now (some at) now h = ground arith

last_probe :
    (id slug : String) (previous : Previous) (result : ProbeResult) (now : ℤ) (slow : ℕ)
    → NotAfter previous.success now
    → NotAfter previous.failure now
    → (let params = health_of_result id slug previous result now slow in
        latest params.last_success_at_epoch_ms params.last_failure_at_epoch_ms ≡ some now)
unfolding health_of_result
last_probe id slug previous result now slow success failure = ground (
  arith,
  (latest-now previous.failure now failure).0,
  (latest-now previous.success now success).1,
)

previous-NotAfter :
    (previous : Option ProviderHealthRecord) (now : ℤ)
    → IsPast previous now
    → NotAfter (previous_of previous now).success now
      × NotAfter (previous_of previous now).failure now
unfolding previous_of
previous-NotAfter none now past = (tt, tt)
previous-NotAfter (some r) now past = past

module _ {Json : Type 0} where
  -- After a probe, whatever came of it, the provider is due again exactly once the interval has passed
  -- since that probe, where the probes before it were not later.
  pub probe_due-recorded :
      (target : ProviderTargetRecord Json) (previous : Option ProviderHealthRecord)
      (result : ProbeResult) (now later : ℤ) (degraded_latency_ms interval_secs : ℕ)
      → IsPast previous now
      → probe_due
          (some
            (recorded target (next_health_params target previous result now degraded_latency_ms)))
          interval_secs
          later
        ≡ leb_ℤ (secs_to_ms interval_secs) (saturating_sub later now)
  unfolding probe_due next_health_params
  probe_due-recorded target previous result now later slow interval_secs past =
      let (success, failure) = previous-NotAfter previous now past in
      rw
        (
          last_probe target.id target.slug (previous_of previous now) result now slow success
              failure,
          next_health_params,
          probe_due,
        )
        refl
