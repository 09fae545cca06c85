-- ===== src/Examples/Probing.antt =====
-- The theorems on probes, at a provider that fails.
use gum.Prelude.{inr, ◌≡◌, refl, true, some, none, List, [], ◌∷◌, arith}
use gum.Prelude.Int.{ℤ, pos, leb_ℤ, saturating_sub, secs_to_ms}
use gum.Models.{
  ProviderCheckStatus, ProviderHealthState, ProviderTargetRecord, ProviderHealthRecord,
}
use gum.Scheduler.Probes.{ProbeResult, next_health_params, probe_due}
use gum.Scheduler.Probes.Health.{
  IsScored, WasScored, recorded, state_of, after_probes, next_health_params-IsScored,
  failures_bring_down,
}
use gum.Scheduler.Probes.Schedule.{probe_due-recorded}
use gum.Examples.{Plain}

abbrev provider : ProviderTargetRecord Plain
provider = record {
  id = "t";
  name = "Mailer";
  slug = "mailer";
  probe_kind = "http";
  probe_config_json = tt;
  enabled = true;
  created_at_epoch_ms = pos 1;
}

abbrev timeout : ProbeResult
timeout = record {
  status = ProviderCheckStatus.failure;
  latency_ms = some 900;
  error_class = some "provider_timeout";
  status_code = none;
}

abbrev degraded : ProviderHealthRecord
degraded = record {
  provider_target_id = "t";
  provider_name = "Mailer";
  provider_slug = "mailer";
  state = ProviderHealthState.degraded;
  reason = none;
  last_changed_at_epoch_ms = pos 100;
  last_success_at_epoch_ms = some (pos 50);
  last_failure_at_epoch_ms = some (pos 100);
  degraded_score = pos 1;
  down_score = pos 1;
}

degraded-IsScored : WasScored (some degraded)
degraded-IsScored = record {
  degraded_least = inr (omega arith);
  degraded_most = omega arith;
  down_least = omega arith;
  down_most = omega arith;
  down_iff = ground arith;
}

next_health_params-IsScored_example :
    (let params = next_health_params provider (some degraded) timeout (pos 200) 1500 in
      IsScored params.state params.degraded_score params.down_score)
next_health_params-IsScored_example =
    next_health_params-IsScored provider (some degraded) timeout (pos 200) 1500 degraded-IsScored

abbrev three : List (ProbeResult × ℤ)
three = (timeout, pos 200) ∷ (timeout, pos 300) ∷ (timeout, pos 400) ∷ []

failures_bring_down_example :
    state_of (after_probes provider 1500 (some degraded) three) ≡ some ProviderHealthState.down
failures_bring_down_example =
    failures_bring_down provider 1500 (some degraded) three degraded-IsScored
      (refl, (refl, (refl, tt))) (omega arith)

probe_due-recorded_example :
    probe_due
      (some
        (recorded provider (next_health_params provider (some degraded) timeout (pos 200) 1500)))
      30
      (pos 9000)
    ≡ leb_ℤ (secs_to_ms 30) (saturating_sub (pos 9000) (pos 200))
probe_due-recorded_example =
    probe_due-recorded provider (some degraded) timeout (pos 200) (pos 9000) 1500 30
      (omega arith, omega arith)
