-- ===== src/Scheduler/Probes/Health.antt =====
-- crates/gum-scheduler/src/probes.rs: how the health of a provider goes on from probe to probe.
use gum.Prelude.{
  ℕ, ◌+◌, ◌≤◌, ◌⊎◌, min, ap, ◌∙◌, ◌≡◌, ◌↔◌, refl, Option, none, some, List, [], ◌∷◌, String, arith,
}
use gum.Prelude.Int.{ℤ, pos, ◌≤ℤ◌, ◌+ℤ◌, ◌-ℤ◌, wrap_i32, clamp_to, clamp_i32, pos_part}
use gum.Prelude.Lists.{length, All}
use gum.Models.{
  ProviderCheckStatus, ProviderHealthState, ProviderTargetRecord, ProviderHealthRecord,
}
use gum.Queries.Params.{SetProviderHealthParams}
use gum.Scheduler.Probes.{
  ProbeResult, next_health_params, health_of_result, previous_of, score_up, saturating_score,
  state_of_score, Previous,
}

-- The scores of a health record are in their range, and a provider is down from a score of three. The
-- degraded score of a healthy provider has no least value.
pub record IsScored (state : ProviderHealthState) (degraded_score down_score : ℤ) : Type 0 where
  pub degraded_least : (state ≡ ProviderHealthState.healthy) ⊎ (pos 0 ≤ℤ degraded_score)
  pub degraded_most : degraded_score ≤ℤ pos 10
  pub down_least : pos 0 ≤ℤ down_score
  pub down_most : down_score ≤ℤ pos 10
  pub down_iff : (state ≡ ProviderHealthState.down) ↔ (pos 3 ≤ℤ down_score)

-- The health before a probe, where there is one, had a score that a probe or the store gives.
abbrev pub WasScored : Option ProviderHealthRecord → Type 0
WasScored none = Unit
WasScored (some r) = IsScored r.state r.degraded_score r.down_score

score_up-bounds : (score : ℤ) → (pos 0 ≤ℤ score_up score) × (score_up score ≤ℤ pos 10)
unfolding score_up saturating_score clamp_to
score_up-bounds score = ground arith

falls : (score : ℤ) → score ≤ℤ pos 10 → clamp_i32 (score -ℤ pos 2) ≤ℤ pos 10
unfolding clamp_i32 ◌-ℤ◌
falls score h = ground arith

degraded_before :
    (previous : Option ProviderHealthRecord) (now : ℤ)
    → WasScored previous
    → (previous_of previous now).degraded_score ≤ℤ pos 10
unfolding previous_of
degraded_before none now was = omega arith
degraded_before (some r) now was = was.degraded_most

result-IsScored :
    (id slug : String) (previous : Previous) (result : ProbeResult) (now : ℤ) (slow : ℕ)
    → previous.degraded_score ≤ℤ pos 10
    → (let params = health_of_result id slug previous result now slow in
        IsScored params.state params.degraded_score params.down_score)
unfolding health_of_result state_of_score
result-IsScored id slug previous result now slow bound =
    let up = score_up-bounds previous.degraded_score in
    let down = score_up-bounds previous.down_score in
    let fall = falls previous.degraded_score bound in
    record {
      degraded_least = ground arith;
      degraded_most = ground arith;
      down_least = ground arith;
      down_most = ground arith;
      down_iff = ground arith;
    }

module _ {Json : Type 0} where
  -- Each probe keeps the score of failures between 0 and 10, and that of slow answers at most 10 and,
  -- unless the provider is healthy, not below 0. The provider is down exactly if the score of failures
  -- is three or more.
  pub next_health_params-IsScored :
      (target : ProviderTargetRecord Json) (previous : Option ProviderHealthRecord)
      (result : ProbeResult) (now : ℤ) (degraded_latency_ms : ℕ)
      → WasScored previous
      → (let params = next_health_params target previous result now degraded_latency_ms in
          IsScored params.state params.degraded_score params.down_score)
  unfolding next_health_params
  next_health_params-IsScored target previous result now degraded_latency_ms was =
      result-IsScored target.id target.slug (previous_of previous now) result now
        degraded_latency_ms (degraded_before previous now was)

-- The record that `set_provider_health` stores for a target.
abbrev pub recorded :
    {Json : Type 0} → ProviderTargetRecord Json → SetProviderHealthParams → ProviderHealthRecord
recorded target params = record {
  provider_target_id = params.provider_target_id;
  provider_name = target.name;
  provider_slug = target.slug;
  state = params.state;
  reason = params.reason;
  last_changed_at_epoch_ms = params.last_changed_at_epoch_ms;
  last_success_at_epoch_ms = params.last_success_at_epoch_ms;
  last_failure_at_epoch_ms = params.last_failure_at_epoch_ms;
  degraded_score = params.degraded_score;
  down_score = params.down_score;
}

score_up-once : (n : ℕ) → n ≤ 10 → score_up (pos n) ≡ pos (min 10 (n + 1))
unfolding score_up saturating_score clamp_to wrap_i32 ◌+ℤ◌
score_up-once n h = ground arith

failure_score :
    (id slug : String) (previous : Previous) (result : ProbeResult) (now : ℤ) (slow : ℕ)
    → result.status ≡ ProviderCheckStatus.failure
    → (health_of_result id slug previous result now slow).down_score ≡ score_up previous.down_score
unfolding health_of_result
failure_score id slug previous result now slow failed = ground arith

-- The state of a record, where there is one.
abbrev pub state_of : Option ProviderHealthRecord → Option ProviderHealthState
state_of none = none
state_of (some r) = some r.state

down_before : Option ProviderHealthRecord → ℤ
down_before none = pos 0
down_before (some r) = r.down_score

down_before-previous :
    (previous : Option ProviderHealthRecord) (now : ℤ)
    → (previous_of previous now).down_score ≡ down_before previous
unfolding previous_of down_before
down_before-previous none now = refl
down_before-previous (some r) now = refl

module _ {Json : Type 0} (target : ProviderTargetRecord Json) (slow : ℕ) where
  -- The health of a target after probes with these results at these times.
  abbrev pub after_probes :
      Option ProviderHealthRecord → List (ProbeResult × ℤ) → Option ProviderHealthRecord
  after_probes previous [] = previous
  after_probes previous ((result, now) ∷ rest) =
      after_probes (some (recorded target (next_health_params target previous result now slow)))
        rest

  abbrev pub Failed : ProbeResult × ℤ → Type 0
  Failed (result, now) = result.status ≡ ProviderCheckStatus.failure

  counts_failures :
      (probes : List (ProbeResult × ℤ)) (previous : Option ProviderHealthRecord) (n : ℕ)
      → All Failed probes
      → down_before previous ≡ pos n
      → n ≤ 10
      → down_before (after_probes previous probes) ≡ pos (min 10 (n + length probes))
  unfolding down_before next_health_params
  counts_failures [] previous n failed before h = before ∙ ap pos (omega arith)
  counts_failures ((result, now) ∷ rest) previous n (failed, others) before h =
      let next = some (recorded target (next_health_params target previous result now slow)) in
      let up : down_before next ≡ pos (min 10 (n + 1)) =
        failure_score target.id target.slug (previous_of previous now) result now slow failed
        ∙ (ap score_up (down_before-previous previous now ∙ before) ∙ score_up-once n h) in
      counts_failures rest next (min 10 (n + 1)) others up (omega arith) ∙ ap pos (omega arith)

  after_probes-WasScored :
      (probes : List (ProbeResult × ℤ)) (previous : Option ProviderHealthRecord)
      → WasScored previous
      → WasScored (after_probes previous probes)
  after_probes-WasScored [] previous was = was
  after_probes-WasScored ((result, now) ∷ rest) previous was =
      after_probes-WasScored rest
        (some (recorded target (next_health_params target previous result now slow)))
        (next_health_params-IsScored target previous result now slow was)

  score_number :
      (previous : Option ProviderHealthRecord)
      → WasScored previous
      → (n : ℕ) × (down_before previous ≡ pos n) × (n ≤ 10)
  unfolding down_before
  score_number none was = (0, refl, omega arith)
  score_number (some r) was = (
    pos_part r.down_score,
    ground (arith, was.down_least),
    ground (arith, was.down_least, was.down_most),
  )

  down_state :
      (after : Option ProviderHealthRecord) (n : ℕ)
      → WasScored after
      → down_before after ≡ pos n
      → 3 ≤ n
      → state_of after ≡ some ProviderHealthState.down
  unfolding down_before
  down_state none n was score enough = ground arith
  down_state (some r) n was score enough = ap some (was.down_iff.1 (ground arith))

  -- Three failed probes in a row or more bring a provider down, whatever its health was before, if its
  -- scores were in range.
  pub failures_bring_down :
      (previous : Option ProviderHealthRecord) (probes : List (ProbeResult × ℤ))
      → WasScored previous
      → All Failed probes
      → 3 ≤ length probes
      → state_of (after_probes previous probes) ≡ some ProviderHealthState.down
  failures_bring_down previous probes was failed enough =
      let (n, before, small) = score_number previous was in
      down_state (after_probes previous probes) (min 10 (n + length probes))
        (after_probes-WasScored probes previous was)
        (counts_failures probes previous n failed before small) (omega arith)
