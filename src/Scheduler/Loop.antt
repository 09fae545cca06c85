-- ===== src/Scheduler/Loop.antt =====
-- crates/gum-scheduler/src/main.rs: one round of the scheduler's loop.
pub mod Leader
use gum.Prelude.{Option, none, some, List, String, if◌then◌else◌}
use gum.Prelude.Int.{ℤ}
use gum.Types.{Result, ok, err}
use gum.Models.{RunRecord, ProviderHealthRecord}
use gum.Queries.Params.{ControlLeaseParams}
use gum.Queries.GumStore.{GumStore}
use gum.Api.Json.{JsonLibrary}
use gum.Api.Routes.{RunResponse}
use gum.Api.Service.Runs.{tick_schedules}
use gum.Scheduler.Probes.{HttpLibrary}
use gum.Scheduler.Probes.Run.{run_provider_probes}

-- What a scheduler asks for at the start of a round.
abbrev pub leader_params : String → ℤ → ControlLeaseParams
leader_params leader_id now = record {
  lease_name = "scheduler";
  holder_id = leader_id;
  ttl_secs = 15;
  now_epoch_ms = now;
}

-- A scheduler that is not the leader waits for the next round.
pub data Round (Json : Type 0) : Type 0 where
  standby : Round Json
  led : List (RunRecord Json) → List RunResponse → List ProviderHealthRecord → Round Json

module _ {Json : Type 0} (http : HttpLibrary Json) (json : JsonLibrary Json)
    (S : GumStore Json) where
  finish_round :
      List (RunRecord Json)
      → List RunResponse
      → Result (List ProviderHealthRecord) × S.State
      → Result (Round Json) × S.State
  finish_round recovered created (ok updates, s) = (ok (Round.led recovered created updates), s)
  finish_round recovered created (err e, s) = (err e, s)

  -- The schedules and then the probes; `none` is a panic or a loop without end in a schedule.
  unfoldable pub tick_and_probe :
      ℤ → ℤ → Result (List (RunRecord Json)) × S.State → Option (Result (Round Json) × S.State)
  unfolding finish_round
  tick_and_probe now listed_at (err e, s) = some (err e, s)
  tick_and_probe now listed_at (ok recovered, s) = elim (tick_schedules S json s listed_at now) [
    | none ↦ none
    | some (err e, s') ↦ some (err e, s')
    | some (ok created, s') ↦
        some (finish_round recovered created (run_provider_probes http S s' now))
  ]

  -- The body of the loop up to its sleep, at one reading of the clock; an error ends the scheduler.
  -- The listings of the tick read the clock for themselves.
  unfoldable pub round : String → S.State → ℤ → ℤ → Option (Result (Round Json) × S.State)
  unfolding tick_and_probe
  round leader_id s now listed_at =
      let (acquired, s') = S.try_acquire_control_lease s (leader_params leader_id now) in
      elim acquired [
        | err e ↦ some (err e, s')
        | ok is_leader ↦
            if is_leader
            then tick_and_probe now listed_at (S.recover_lost_attempts s' now)
            else some (ok Round.standby, s')
      ]
