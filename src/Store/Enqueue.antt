-- ===== src/Store/Enqueue.antt =====
-- crates/gum-store/src/memory.rs: `enqueue_run` and `replay_run`. `now` is the reading of the clock.
pub mod Refine
pub mod Outcome
pub mod Dedupe
use Prim.Native.String.{◌++◌ as append}
use gum.Prelude.{
  ℕ, ◌+◌, ◌%◌, ◌^◌, true, false, not, ◌||◌, Option, none, some, String, str_eq, if◌then◌else◌,
}
use gum.Prelude.Int.{ℤ, ltb_ℤ, add_i64}
use gum.Map.{get, insert, remove}
use gum.Types.{TriggerType, RunStatus, Result, ok, err}
use gum.Models.{JobRecord, RunRecord, RunKeyRecord}
use gum.Queries.Params.{EnqueueRunParams, EnqueueRunResult, ReplayRunParams}
use gum.Queries.Failure.{key_retention_ms}
use gum.Store.{MemoryState, MemoryStore, next_id}

-- `format!("{project_id}:{job_id}:{key_value}")`
unfoldable pub run_key_scope : String → String → String → String
run_key_scope project_id job_id key_value =
    append project_id (append ":" (append job_id (append ":" key_value)))

-- job.retries + 1, over u32
unfoldable pub attempts_allowed : JobRecord → ℕ
attempts_allowed job = (job.retries + 1) % 2 ^ 32

-- What a key stands for: a run that is returned, or a state without the stale key.
pub data KeyLookup (Json : Type 0) : Type 0 where
  duplicate : RunRecord Json → KeyLookup Json
  proceed : MemoryState Json → KeyLookup Json

module _ {Json : Type 0} where
  -- The job that the run is for, or the reason to refuse it.
  enqueue_check : EnqueueRunParams Json → Option JobRecord → Result JobRecord
  enqueue_check params none = err "job not found"
  enqueue_check params (some job) =
      if not job.enabled
      then err "job disabled"
      else if not (str_eq job.project_id params.project_id)
          || not (str_eq job.deploy_id params.deploy_id)
      then err "job/project/deploy mismatch"
      else ok job

  -- The run that a live key names.
  live_run : MemoryState Json → ℤ → RunKeyRecord → Option (RunRecord Json)
  live_run state now existing =
      if ltb_ℤ now existing.expires_at_epoch_ms then get existing.run_id state.runs else none

  drop_stale : MemoryState Json → String → Option (RunRecord Json) → KeyLookup Json
  drop_stale state scope (some run) = duplicate run
  drop_stale state scope none = proceed (record state { run_keys = remove scope state.run_keys })

  found_key : MemoryState Json → ℤ → String → Option RunKeyRecord → KeyLookup Json
  unfolding drop_stale live_run
  found_key state now scope none = proceed state
  found_key state now scope (some existing) = drop_stale state scope (live_run state now existing)

  lookup_key : MemoryState Json → ℤ → EnqueueRunParams Json → KeyLookup Json
  unfolding found_key
  lookup_key state now params = elim params.dedupe_key_value [
    | none ↦ proceed state
    | some key_value ↦
        let scope = run_key_scope params.project_id params.job_id key_value in
        found_key state now scope (get scope state.run_keys)
  ]

  queued_run : EnqueueRunParams Json → JobRecord → ℤ → String → RunRecord Json
  queued_run params job now id = record {
    id = id;
    project_id = params.project_id;
    job_id = params.job_id;
    deploy_id = params.deploy_id;
    trigger_type = TriggerType.enqueue;
    status = RunStatus.queued;
    input_json = params.input_json;
    attempt_count = 0;
    max_attempts = attempts_allowed job;
    scheduled_at_epoch_ms = now;
    failure_reason = none;
    failure_class = none;
    retry_after_epoch_ms = elim params.delay_ms [ none ↦ none | some d ↦ some (add_i64 now d) ];
    waiting_for_provider_slug = none;
    replay_of_run_id = none;
  }

  new_key : RunRecord Json → ℤ → String → RunKeyRecord
  new_key run now key_value = record {
    project_id = run.project_id;
    job_id = run.job_id;
    key_value = key_value;
    run_id = run.id;
    created_at_epoch_ms = now;
    expires_at_epoch_ms = add_i64 now key_retention_ms;
  }

  remember_key : MemoryState Json → RunRecord Json → ℤ → Option String → MemoryState Json
  unfolding new_key
  remember_key state run now none = state
  remember_key state run now (some key_value) = record state {
    run_keys =
        insert (run_key_scope run.project_id run.job_id key_value) (new_key run now key_value)
          state.run_keys;
  }

  add_run : MemoryState Json → RunRecord Json → MemoryState Json
  add_run state run = record state { runs = insert run.id run state.runs }

  enqueue_new :
      MemoryStore Json
      → EnqueueRunParams Json
      → JobRecord
      → ℤ
      → KeyLookup Json
      → Result (EnqueueRunResult Json) × MemoryStore Json
  unfolding queued_run remember_key add_run
  enqueue_new s params job now (duplicate run) = (ok (record { run = run; deduped = true }), s)
  enqueue_new s params job now (proceed state) =
      let (id, ids) = next_id s "run" in
      let run = queued_run params job now id in
      (
        ok (record { run = run; deduped = false }),
        record {
          ids = ids;
          state = add_run (remember_key state run now params.dedupe_key_value) run;
        },
      )

  enqueue_checked :
      MemoryStore Json
      → EnqueueRunParams Json
      → ℤ
      → Result JobRecord
      → Result (EnqueueRunResult Json) × MemoryStore Json
  unfolding enqueue_new lookup_key
  enqueue_checked s params now (err e) = (err e, s)
  enqueue_checked s params now (ok job) =
      enqueue_new s params job now (lookup_key s.state now params)

  unfoldable pub enqueue_run :
      MemoryStore Json
      → EnqueueRunParams Json
      → ℤ
      → Result (EnqueueRunResult Json) × MemoryStore Json
  unfolding enqueue_checked enqueue_check
  enqueue_run s params now =
      enqueue_checked s params now (enqueue_check params (get params.job_id s.state.jobs))

  replay_of : RunRecord Json → ℤ → String → RunRecord Json
  replay_of source now id = record {
    id = id;
    project_id = source.project_id;
    job_id = source.job_id;
    deploy_id = source.deploy_id;
    trigger_type = TriggerType.replay;
    status = RunStatus.queued;
    input_json = source.input_json;
    attempt_count = 0;
    max_attempts = source.max_attempts;
    scheduled_at_epoch_ms = now;
    failure_reason = none;
    failure_class = none;
    retry_after_epoch_ms = none;
    waiting_for_provider_slug = none;
    replay_of_run_id = some source.id;
  }

  replay_source :
      MemoryStore Json → ℤ → Option (RunRecord Json) → Result (RunRecord Json) × MemoryStore Json
  unfolding replay_of add_run
  replay_source s now none = (err "run not found", s)
  replay_source s now (some source) =
      let (id, ids) = next_id s "run" in
      let replay = replay_of source now id in
      (ok replay, record { ids = ids; state = add_run s.state replay })

  pub replay_run :
      MemoryStore Json → ReplayRunParams → ℤ → Result (RunRecord Json) × MemoryStore Json
  unfolding replay_source
  replay_run s params now = replay_source s now (get params.source_run_id s.state.runs)
