-- ===== src/Examples/Rounds.antt =====
-- The theorem on two schedulers, at a store that has nothing to do.
use gum.Prelude.{◌≡◌, refl, true, false, some, none, []}
use gum.Prelude.Int.{pos, leb_ℤ, saturating_add, secs_to_ms, clamp_i64, wrap_i64, ◌+ℤ◌}
use gum.Types.{ok, err}
use gum.Store.{MemoryStore, default}
use gum.Store.Instance.{memory_store}
use gum.Store.Recover.{recover_lost_attempts, recover_lost_attempts_locked}
use gum.Map.{get, values}
use gum.Prelude.Sort.{sort_by}
use gum.Store.Tick.{tick_schedules as store_tick_schedules}
use gum.Store.Listings.{list_provider_targets, list_provider_health}
use gum.Store.Listings.Limits.{list_concurrency_status, list_rate_limit_status}
use gum.Api.Service.Views.{read_limits}
use gum.Store.Runners.{try_acquire_control_lease}
use gum.Api.Json.{Shape, JsonLibrary}
use gum.Api.Service.Runs.{tick_schedules}
use gum.Scheduler.Probes.{HttpLibrary, Response}
use gum.Scheduler.Probes.Run.{run_provider_probes}
use gum.Scheduler.Loop.{Round, leader_params, round, tick_and_probe}
use gum.Scheduler.Loop.Leader.{round_exclusive}
use gum.Examples.{Plain, no_calendar}

abbrev no_json : JsonLibrary Plain
no_json = record { get_field = λ input field. none; shape = λ input. Shape.null_value }

-- A client whose requests all time out.
abbrev no_answer : HttpLibrary Plain
no_answer = record {
  HeaderMap = Plain;
  HeaderName = Plain;
  HeaderValue = Plain;
  no_headers = tt;
  insert_header = λ name value headers. headers;
  header_name = λ name. ok tt;
  header_value = λ value. ok tt;
  authorization = tt;
  env_var = λ name. none;
  from_value = λ config. err "no configuration";
  send = λ left url headers timeout. (Response.transport_error true false, 900);
}

abbrev led_once : MemoryStore Plain
led_once = (try_acquire_control_lease default (leader_params "one" (pos 1000))).1

one_led :
    round no_answer no_json (memory_store tt no_calendar) "one" default (pos 1000) (pos 1000)
    ≡ some (ok (Round.led [] [] []), led_once)
unfolding round tick_and_probe try_acquire_control_lease recover_lost_attempts tick_schedules
    run_provider_probes recover_lost_attempts_locked get values read_limits list_concurrency_status
    list_rate_limit_status store_tick_schedules list_provider_targets list_provider_health sort_by
one_led = refl

soon : leb_ℤ (saturating_add (pos 1000) (secs_to_ms 15)) (pos 6000) ≡ false
unfolding saturating_add clamp_i64 ◌+ℤ◌ secs_to_ms wrap_i64
soon = refl

round_exclusive_example :
    round no_answer no_json (memory_store tt no_calendar) "two" led_once (pos 6000) (pos 6000)
    ≡ some (ok Round.standby, led_once)
round_exclusive_example =
    round_exclusive no_answer no_json tt no_calendar "one" "two" default led_once (pos 1000)
      (pos 1000) (pos 6000) (pos 6000) [] [] [] one_led refl soon
