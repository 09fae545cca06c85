-- ===== src/Api/Service/Runs.antt =====
-- crates/gum-api/src/service.rs: the functions that enqueue, replay, complete and cancel runs.
pub mod Dedupe
pub mod Leases
use Prim.Native.String.{◌++◌ as append}
use Prim.Native.Nat.{bit_xor}
use mathlib.Core.List.{foldl}
use gum.Prelude.{ℕ, ◌*◌, ◌%◌, ◌^◌, Option, none, some, List, map, String}
use gum.Prelude.Int.{ℤ}
use gum.Text.Decimal.{format}
use gum.Map.{Map}
use gum.Types.{Result, ok, err}
use gum.Models.{RunRecord, ConcurrencyStatusRecord}
use gum.Text.Bytes.{as_bytes}
use gum.Queries.Schedule.Interval.{parse_schedule_interval_ms}
use gum.Queries.GumStore.{GumStore}
use gum.Api.Routes.{
  RunResponse, EnqueueRunRequest, EnqueueRunResponse, ReplayRunResponse, CompleteAttemptRequest,
  AppendLogRequest, CancelRunRequest,
}
use gum.Api.Action.{Action, ◌>>=◌, return, query, lift, required}
use gum.Api.Json.{JsonLibrary}
use gum.Api.Service.Key.{resolve_key_value}
use gum.Api.Service.Views.{read_limits, respond}

-- FNV-1a over u64
unfoldable pub message_fingerprint : String → ℕ
message_fingerprint message =
    foldl (λ hash byte. bit_xor hash byte * 1099511628211 % 2 ^ 64) 1469598103934665603
      (as_bytes message)

-- `delay.map(parse_schedule_interval_ms).transpose()`; `none` is a panic
unfoldable pub delay_of : Option String → Option (Result (Option ℤ))
delay_of none = some (ok none)
delay_of (some delay) = elim (parse_schedule_interval_ms delay) [
  | none ↦ none
  | some (err e) ↦ some (err e)
  | some (ok ms) ↦ some (ok (some ms))
]

log_id : String → String → AppendLogRequest → String
log_id run_id attempt_id request = append "log_" (
    append run_id (
      append "_" (
        append attempt_id (
          append "_"
            (append request.stream (append "_" (format (message_fingerprint request.message))))))))

module _ {Json : Type 0} (S : GumStore Json) (json : JsonLibrary Json) where
  unfoldable pub enqueue_after :
      String
      → String
      → EnqueueRunRequest Json
      → ℤ
      → Result (Option ℤ)
      → Action S.State EnqueueRunResponse
  enqueue_after project_id job_id request now delay = do
    delay_ms ← lift delay
    found ← query (λ s. S.get_job s job_id)
    job ← required "job not found" found
    dedupe_key_value ← lift (resolve_key_value json job.key_field request.input)
    enqueued ← λ s.
        S.enqueue_run s
          (record {
            project_id = project_id;
            job_id = job_id;
            deploy_id = job.deploy_id;
            input_json = request.input;
            dedupe_key_value = dedupe_key_value;
            delay_ms = delay_ms;
          })
          now
    return
        (record { id = enqueued.run.id; status = enqueued.run.status; deduped = enqueued.deduped })

  -- `none` is a delay that the parser panics on.
  unfoldable pub enqueue_run_with_delay :
      S.State
      → String
      → String
      → EnqueueRunRequest Json
      → Option String
      → ℤ
      → Option (Result EnqueueRunResponse × S.State)
  unfolding enqueue_after delay_of
  enqueue_run_with_delay s project_id job_id request delay now = elim (delay_of delay) [
    | none ↦ none
    | some delay_ms ↦ some (enqueue_after project_id job_id request now delay_ms s)
  ]

  unfoldable pub enqueue_run :
      S.State
      → String
      → String
      → EnqueueRunRequest Json
      → ℤ
      → Option (Result EnqueueRunResponse × S.State)
  unfolding enqueue_run_with_delay
  enqueue_run s project_id job_id request now =
      enqueue_run_with_delay s project_id job_id request none now

  unfoldable pub replay_run : String → ℤ → Action S.State ReplayRunResponse
  replay_run run_id now = do
    replay ← λ s. S.replay_run s (record { source_run_id = run_id }) now
    replay_of ← required "replayed run missing source lineage" replay.replay_of_run_id
    return (record { id = replay.id; status = replay.status; replay_of = replay_of })

  -- The response for a run that the store has just written, from the listings after that.
  respond_now : RunRecord Json → ℤ → Action S.State RunResponse
  respond_now run now = do
    (concurrency, waiting) ← query (λ s. read_limits S s now)
    return (respond S concurrency waiting run)

  -- The listings and the clock are read after the report.
  unfoldable pub complete_attempt :
      String → CompleteAttemptRequest → ℤ → ℤ → Action S.State RunResponse
  unfolding respond_now
  complete_attempt attempt_id request now listed_at = do
    (_, run) ← λ s.
        S.complete_attempt s
          (record {
            attempt_id = attempt_id;
            runner_id = request.runner_id;
            status = request.status;
            failure_reason = request.failure_reason;
            failure_class = request.failure_class;
          })
          now
    respond_now run listed_at

  unfoldable pub append_log : String → String → AppendLogRequest → Action S.State (Unit {0})
  unfolding log_id
  append_log run_id attempt_id request s = S.append_log s (record {
    id = log_id run_id attempt_id request;
    run_id = run_id;
    attempt_id = attempt_id;
    stream = request.stream;
    message = request.message;
  })

  unfoldable pub cancel_run : String → CancelRunRequest → ℤ → ℤ → Action S.State RunResponse
  unfolding respond_now
  cancel_run run_id request now listed_at = do
    run ← λ s. S.cancel_run s (record { run_id = run_id; requested_at_epoch_ms = now })
    respond_now run listed_at

  respond_all :
      Map ConcurrencyStatusRecord
      → List String
      → Result (List (RunRecord Json)) × S.State
      → Result (List RunResponse) × S.State
  respond_all concurrency waiting (ok runs, s) = (ok (map (respond S concurrency waiting) runs), s)
  respond_all concurrency waiting (err e, s) = (err e, s)

  -- The listings are read before the tick.
  unfoldable pub tick_schedules : S.State → ℤ → ℤ → Option (Result (List RunResponse) × S.State)
  unfolding respond_all
  tick_schedules s listed_at now = elim (read_limits S s listed_at) [
    | err e ↦ some (err e, s)
    | ok (concurrency, waiting) ↦ elim (S.tick_schedules s now) [
      | none ↦ none
      | some ticked ↦ some (respond_all concurrency waiting ticked)
    ]
  ]
