-- ===== src/Examples/Ticks.antt =====
-- The theorem on ticks, at a job that runs every second.
use gum.Prelude.{ℕ, refl, ◌≡◌, some, none, ◌≤◌, [], ◌∷◌, arith}
use gum.Prelude.Int.{pos, clamp_i64, saturating_add, ◌+ℤ◌, ◌-ℤ◌}
use gum.Prelude.Lists.{any}
use gum.Map.{get, insert, values}
use gum.Text.{trim, strip_prefix, split_last}
use gum.Text.Decimal.{format, parse_i64}
use gum.Queries.Schedule.Interval.{parse_schedule_interval_ms, interval_due}
use gum.Queries.Schedule.Due.{recurring_due_times_ms}
use gum.Store.Enqueue.{attempts_allowed}
use gum.Types.{TriggerType, RunStatus, ok}
use gum.Models.{RunRecord}
use gum.Queries.Params.{RegisterDeployParams}
use gum.Store.{MemoryStore, default, next_id, next_number, identifier}
use gum.Store.Deploys.{insert_project, register_deploy}
use gum.Store.Tick.{tick_schedules, already_exists}
use gum.Store.Tick.Once.{FiresOnce, tick_schedules-FiresOnce}
use gum.Store.Tick.Refine.{Fires, tick_due_count, tick_schedules-Fires}
use gum.History.{begin, called, deployed, insert_project_call}
use gum.History.Invariant.{Lasting, DeploysFit, History-Lasting}
use gum.History.Guarantees.{default-Sound}
use gum.Examples.{Plain, no_calendar, project, deploy, mail_job, with_project}

abbrev clock_deploy : RegisterDeployParams
clock_deploy = record deploy { jobs = record mail_job { schedule_expr = some "1s" } ∷ [] }

abbrev clocked : MemoryStore Plain
clocked = (register_deploy with_project clock_deploy (pos 1000)).1

clocked_past : Lasting default 1 clocked
unfolding DeploysFit
clocked_past =
    History-Lasting {empty_object = tt} {calendar = no_calendar} default-Sound (omega arith)
      (deployed clock_deploy (pos 1000) (called begin (insert_project_call project)))
      ((omega arith, tt), tt)

abbrev tick_run : RunRecord Plain
tick_run = record {
  id = "run_2";
  project_id = "p";
  job_id = "mail";
  deploy_id = "dep_1";
  trigger_type = TriggerType.schedule;
  status = RunStatus.queued;
  input_json = tt;
  attempt_count = 0;
  max_attempts = 2;
  scheduled_at_epoch_ms = pos 2000;
  failure_reason = none;
  failure_class = none;
  retry_after_epoch_ms = none;
  waiting_for_provider_slug = none;
  replay_of_run_id = none;
}

abbrev ticked : MemoryStore Plain
ticked = record { ids = 2; state = record clocked.state { runs = ("run_2", tick_run) ∷ [] } }

outcome : tick_schedules tt no_calendar (pos 2500) clocked ≡ some (ok (tick_run ∷ []), ticked)
unfolding tick_schedules register_deploy insert_project get insert values next_id next_number
    identifier format recurring_due_times_ms trim strip_prefix parse_schedule_interval_ms split_last
    parse_i64 clamp_i64 saturating_add ◌+ℤ◌ ◌-ℤ◌ already_exists any attempts_allowed interval_due
outcome = refl

due_times_count : tick_due_count tt no_calendar (pos 2500) clocked ≡ 1
unfolding tick_due_count tick_schedules register_deploy insert_project get insert values next_id
    next_number identifier format recurring_due_times_ms trim strip_prefix
    parse_schedule_interval_ms split_last parse_i64 clamp_i64 saturating_add ◌+ℤ◌ ◌-ℤ◌
    already_exists any attempts_allowed interval_due
due_times_count = refl

tick_schedules-Fires_example :
    (n : ℕ) × (n ≤ tick_due_count tt no_calendar (pos 2500) clocked) × Fires clocked n ticked
tick_schedules-Fires_example =
    tick_schedules-Fires tt no_calendar (pos 2500) clocked clocked_past.sound.inv
      clocked_past.sound.fit (ok (tick_run ∷ [])) ticked
      (omega (arith, clocked_past.taken, due_times_count)) outcome

nothing_fires : FiresOnce {Json = Plain} []
unfolding get
nothing_fires key other_key run other at_key at_other same = cc

no_runs : FiresOnce clocked.state.runs
unfolding register_deploy insert_project get insert
no_runs = nothing_fires

tick_schedules-FiresOnce_example : FiresOnce ticked.state.runs
tick_schedules-FiresOnce_example =
    tick_schedules-FiresOnce tt no_calendar (pos 2500) clocked clocked_past.sound.inv
      clocked_past.sound.fit (ok (tick_run ∷ [])) ticked
      (omega (arith, clocked_past.taken, due_times_count)) no_runs outcome
