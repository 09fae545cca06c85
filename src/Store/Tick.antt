-- ===== src/Store/Tick.antt =====
-- crates/gum-store/src/memory.rs: `tick_schedules`, which queues a run for each due time of each
-- enabled job with a schedule. `none` is a call that does not return.
pub mod Refine
pub mod Leases
pub mod Once
use gum.Prelude.{
  Bool, ◌&&◌, Option, none, some, List, [], ◌∷◌, ◌++◌, String, str_eq, if◌then◌else◌, is_some,
}
use gum.Prelude.Int.{ℤ, leb_ℤ, eqb_ℤ}
use gum.Prelude.Lists.{filter, any}
use gum.Map.{insert, values}
use gum.Types.{TriggerType, RunStatus, trigger_type_eq, Result, ok, err}
use gum.Models.{JobRecord, RunRecord}
use gum.Queries.Schedule.Cron.{Calendar}
use gum.Queries.Schedule.Due.{Call, recurring_due_times_ms}
use gum.Store.{MemoryState, MemoryStore, next_id}
use gum.Store.Enqueue.{attempts_allowed}

max_of : Option ℤ → ℤ → Option ℤ
max_of none b = some b
max_of (some a) b = if leb_ℤ a b then some b else some a

module _ {Json : Type 0} where
  scheduled_for : String → RunRecord Json → Bool
  scheduled_for job_id run =
      str_eq run.job_id job_id && trigger_type_eq run.trigger_type TriggerType.schedule

  -- `.map(|run| run.scheduled_at_epoch_ms).max()`
  latest_of : List (RunRecord Json) → Option ℤ
  latest_of [] = none
  latest_of (run ∷ runs) = max_of (latest_of runs) run.scheduled_at_epoch_ms

  latest_scheduled_ms : MemoryState Json → String → Option ℤ
  unfolding latest_of max_of scheduled_for
  latest_scheduled_ms state job_id = latest_of (filter (scheduled_for job_id) (values state.runs))

  unfoldable pub fires_at : String → ℤ → RunRecord Json → Bool
  unfolding scheduled_for trigger_type_eq
  fires_at job_id due_ms run = scheduled_for job_id run && eqb_ℤ run.scheduled_at_epoch_ms due_ms

  unfoldable pub already_exists : MemoryState Json → String → ℤ → Bool
  unfolding fires_at any
  already_exists state job_id due_ms = any (fires_at job_id due_ms) (values state.runs)

  module _ (empty_object : Json) where
    scheduled_run : JobRecord → ℤ → String → RunRecord Json
    scheduled_run job due_ms id = record {
      id = id;
      project_id = job.project_id;
      job_id = job.id;
      deploy_id = job.deploy_id;
      trigger_type = TriggerType.schedule;
      status = RunStatus.queued;
      input_json = empty_object;
      attempt_count = 0;
      max_attempts = attempts_allowed job;
      scheduled_at_epoch_ms = due_ms;
      failure_reason = none;
      failure_class = none;
      retry_after_epoch_ms = none;
      waiting_for_provider_slug = none;
      replay_of_run_id = none;
    }

    -- One fire time: the store, and the run that is created, if there is none for it yet.
    pub fire : JobRecord → ℤ → MemoryStore Json → MemoryStore Json × List (RunRecord Json)
    unfolding scheduled_run
    fire job due_ms s =
        let (id, ids) = next_id s "run" in
        let run = scheduled_run job due_ms id in
        if already_exists s.state job.id due_ms then (s, []) else (
          record { ids = ids; state = record s.state { runs = insert id run s.state.runs } },
          run ∷ [],
        )

    fire_all : JobRecord → List ℤ → MemoryStore Json → MemoryStore Json × List (RunRecord Json)
    unfolding fire
    fire_all job [] s = (s, [])
    fire_all job (due_ms ∷ rest) s =
        let (s', created) = fire job due_ms s in
        let (s'', more) = fire_all job rest s' in (s'', created ++ more)

    module _ (calendar : Calendar) (now : ℤ) where
      due_times : MemoryStore Json → JobRecord → Call (List ℤ)
      unfolding latest_scheduled_ms
      due_times s job = elim job.schedule_expr [
        | none ↦ some (ok [])
        | some expr ↦
            recurring_due_times_ms calendar expr job.created_at_epoch_ms
              (latest_scheduled_ms s.state job.id) now
      ]

      abbrev Ticked : Type 0
      Ticked = Option (Result (List (RunRecord Json)) × MemoryStore Json)

      abbrev with_created : List (RunRecord Json) → Ticked → Ticked
      with_created created none = none
      with_created created (some (ok more, s)) = some (ok (created ++ more), s)
      with_created created (some (err e, s)) = some (err e, s)

      tick_jobs : List JobRecord → MemoryStore Json → Ticked
      unfolding fire_all due_times
      tick_jobs [] s = some (ok [], s)
      tick_jobs (job ∷ jobs) s = elim (due_times s job) [
        | none ↦ none
        | some (err e) ↦ some (err e, s)
        | some (ok due) ↦
            let (s', created) = fire_all job due s in with_created created (tick_jobs jobs s')
      ]

      is_recurring : JobRecord → Bool
      is_recurring job = job.enabled && is_some job.schedule_expr

      unfoldable pub tick_schedules : MemoryStore Json → Ticked
      unfolding tick_jobs is_recurring
      tick_schedules s = tick_jobs (filter is_recurring (values s.state.jobs)) s
