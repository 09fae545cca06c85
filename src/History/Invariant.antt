-- ===== src/History/Invariant.antt =====
-- The invariant of the store of crates/gum-store/src/memory.rs along histories.
use gum.Prelude.{◌≤◌, ℕ, ◌+◌, ◌^◌, ◌<◌, ◌≡◌, true, some, String, arith}
use gum.Prelude.Lists.{All}
use gum.Map.{get, values, All-get}
use gum.Types.{RunStatus}
use gum.Queries.Schedule.Cron.{Calendar}
use gum.Queries.Disposition.{is_terminal_run}
use gum.Store.{MemoryStore}
use gum.Store.Deploys.Refine.{
  insert_project-Refines, insert_project_taken, upsert_provider_target-Refines,
  upsert_provider_target_taken, record_provider_check-Refines, record_provider_check_taken,
  set_provider_health-Refines, set_provider_health_taken, set_function_health-Refines,
  set_function_health_taken, set_deploy_status-Refines, set_deploy_status_taken, append_log-Refines,
  append_log_taken, ParamsFit, register_deploy_keeps, register_deploy_fit, register_deploy-StoreInv,
  register_deploy_taken,
}
use gum.Store.Runners.Refine.{
  register_runner-Refines, register_runner_taken, heartbeat_runner-Refines, heartbeat_runner_taken,
  try_acquire_control_lease-Refines, try_acquire_control_lease_taken,
}
use gum.Store.Enqueue.Refine.{
  RetriesFit, enqueue_run-Refines, enqueue_run_taken, replay_run-Refines, replay_run_taken,
}
use gum.Store.Lease.Refine.{lease_next_attempt-Refines, lease_next_attempt_taken}
use gum.Store.Complete.Refine.{complete_attempt-Refines, complete_attempt_taken}
use gum.Store.Cancel.Refine.{cancel_run-Refines, cancel_run_taken}
use gum.Store.Recover.Refine.{recover_lost_attempts-Refines, recover_lost_attempts_taken}
use gum.Store.Tick.Refine.{tick_schedules-Refines}
use gum.Lifecycle.{Moves-same_jobs}
use gum.Lifecycle.Final.{status_of, Moves-final}
use gum.Lifecycle.Refine.{StoreInv, Refines, Refines-refl, Refines-trans, Refines-StoreInv}
use gum.History.{
  Call, Calls, none_yet, call, History, begin, called, deployed, insert_project_call,
  upsert_provider_target_call, record_provider_check_call, set_provider_health_call,
  set_function_health_call, set_deploy_status_call, append_log_call, register_runner_call,
  heartbeat_runner_call, try_acquire_control_lease_call, enqueue_run_call, replay_run_call,
  lease_next_attempt_call, complete_attempt_call, cancel_run_call, recover_lost_attempts_call,
  tick_schedules_call,
}

-- The invariant of the store, and that the retries of its jobs fit in u32.
pub record Sound {Json : Type 0} (s : MemoryStore Json) : Type 0 where
  pub inv : StoreInv s
  pub fit : All RetriesFit (values s.state.jobs)

-- What a call does to a store that is sound.
pub record Moved {Json : Type 0} (s : MemoryStore Json) (k : ℕ) (t : MemoryStore Json)
    : Type 0 where
  pub refines : Refines s t
  pub taken : t.ids ≤ s.ids + k

module _ {Json : Type 0} where
  Moved-Sound :
      {s : MemoryStore Json} {k : ℕ} {t : MemoryStore Json} → Sound s → Moved s k t → Sound t
  Moved-Sound h m = record {
    inv = Refines-StoreInv h.inv m.refines;
    fit = rw (Moves-same_jobs m.refines.moves) h.fit;
  }

  -- What every history keeps, a deploy included.
  pub record Lasting (s : MemoryStore Json) (n : ℕ) (t : MemoryStore Json) : Type 0 where
    pub sound : Sound t
    pub taken : t.ids ≤ s.ids + n
    pub final :
        (run_id : String) (status : RunStatus)
        → status_of (get run_id s.state.runs) ≡ some status
        → is_terminal_run status ≡ true
        → status_of (get run_id t.state.runs) ≡ some status

module _ {Json : Type 0} {empty_object : Json} {calendar : Calendar} where
  Call-Moved :
      {s : MemoryStore Json} {k : ℕ} {t : MemoryStore Json}
      → Sound s
      → s.ids + k < 2 ^ 64
      → Call empty_object calendar s k t
      → Moved s k t
  Call-Moved {s} h room (insert_project_call project) = record {
    refines = insert_project-Refines s h.inv project;
    taken = omega (arith, insert_project_taken s h.inv project);
  }
  Call-Moved {s} h room (upsert_provider_target_call params now) = record {
    refines = upsert_provider_target-Refines s h.inv params now;
    taken = omega (arith, upsert_provider_target_taken s h.inv params now);
  }
  Call-Moved {s} h room (set_provider_health_call params) = record {
    refines = set_provider_health-Refines s h.inv params;
    taken = omega (arith, set_provider_health_taken s h.inv params);
  }
  Call-Moved {s} h room (set_function_health_call params) = record {
    refines = set_function_health-Refines s h.inv params;
    taken = omega (arith, set_function_health_taken s h.inv params);
  }
  Call-Moved {s} h room (set_deploy_status_call params) = record {
    refines = set_deploy_status-Refines s h.inv params;
    taken = omega (arith, set_deploy_status_taken s h.inv params);
  }
  Call-Moved {s} h room (append_log_call log) = record {
    refines = append_log-Refines s h.inv log;
    taken = omega (arith, append_log_taken s h.inv log);
  }
  Call-Moved {s} h room (register_runner_call params now) = record {
    refines = register_runner-Refines s h.inv params now;
    taken = omega (arith, register_runner_taken s h.inv params now);
  }
  Call-Moved {s} h room (heartbeat_runner_call params now) = record {
    refines = heartbeat_runner-Refines s h.inv params now;
    taken = omega (arith, heartbeat_runner_taken s h.inv params now);
  }
  Call-Moved {s} h room (try_acquire_control_lease_call params) = record {
    refines = try_acquire_control_lease-Refines s h.inv params;
    taken = omega (arith, try_acquire_control_lease_taken s h.inv params);
  }
  Call-Moved {s} h room (cancel_run_call params) = record {
    refines = cancel_run-Refines s params h.inv;
    taken = omega (arith, cancel_run_taken s params h.inv);
  }
  Call-Moved {s} h room (recover_lost_attempts_call now) = record {
    refines = recover_lost_attempts-Refines s now h.inv;
    taken = omega (arith, recover_lost_attempts_taken s now);
  }
  Call-Moved {s} h room (record_provider_check_call params) = record {
    refines = record_provider_check-Refines s h.inv params room;
    taken = record_provider_check_taken s h.inv params;
  }
  Call-Moved {s} h room (enqueue_run_call params now) = record {
    refines =
        enqueue_run-Refines s h.inv room params now
          (λ job found. All-get RetriesFit params.job_id s.state.jobs h.fit found);
    taken = enqueue_run_taken s params now;
  }
  Call-Moved {s} h room (replay_run_call params now) = record {
    refines = replay_run-Refines s h.inv room params now;
    taken = replay_run_taken s params now;
  }
  Call-Moved {s} h room (lease_next_attempt_call params clock) = record {
    refines = lease_next_attempt-Refines s h.inv room params clock;
    taken = lease_next_attempt_taken s params clock;
  }
  Call-Moved {s} h room (complete_attempt_call params now) = record {
    refines = complete_attempt-Refines s h.inv room params now;
    taken = complete_attempt_taken s h.inv room params now;
  }
  Call-Moved {s} h room (tick_schedules_call now result t e) =
      let ended = tick_schedules-Refines empty_object calendar now s h.inv h.fit result t room e in
      record { refines = ended.0; taken = ended.1 }

  pub Calls-Moved :
      {s : MemoryStore Json} {n : ℕ} {t : MemoryStore Json}
      → Sound s
      → s.ids + n < 2 ^ 64
      → Calls empty_object calendar s n t
      → Moved s n t
  Calls-Moved {s} h room none_yet = record { refines = Refines-refl s h.inv; taken = omega arith }
  Calls-Moved {s} h room (call before last) =
      let first = Calls-Moved h (omega arith) before in
      let then = Call-Moved (Moved-Sound h first) (omega (arith, first.taken)) last in
      record {
        refines = Refines-trans first.refines then.refines;
        taken = omega (arith, first.taken, then.taken);
      }

  -- The deploys of a history bring jobs whose retries fit in u32 with one more.
  unfoldable pub DeploysFit :
      {s : MemoryStore Json} {n : ℕ} {t : MemoryStore Json}
      → History empty_object calendar s n t
      → Type 0
  DeploysFit begin = Unit
  DeploysFit (called before last) = DeploysFit before
  DeploysFit (deployed params now before) = ParamsFit params.jobs × DeploysFit before

  pub History-Lasting :
      {s : MemoryStore Json} {n : ℕ} {t : MemoryStore Json}
      → Sound s
      → s.ids + n < 2 ^ 64
      → (past : History empty_object calendar s n t) → DeploysFit past
      → Lasting s n t
  unfolding DeploysFit
  History-Lasting h room begin fits = record {
    sound = h;
    taken = omega arith;
    final = λ run_id status here over. here;
  }
  History-Lasting h room (called before last) fits =
      let first = History-Lasting h (omega arith) before fits in
      let then = Call-Moved first.sound (omega (arith, first.taken)) last in
      record {
        sound = Moved-Sound first.sound then;
        taken = omega (arith, first.taken, then.taken);
        final = λ run_id status here over.
            Moves-final run_id status first.sound.inv.inv (first.final run_id status here over) over
              then.refines.moves;
      }
  History-Lasting h room (deployed {t = t} params now before) (fit, fits) =
      let first = History-Lasting h (omega arith) before fits in
      let kept = register_deploy_keeps t params now in
      record {
        sound = record {
          inv = register_deploy-StoreInv t params now (omega (arith, first.taken)) first.sound.inv;
          fit = register_deploy_fit t params now fit first.sound.fit;
        };
        taken = omega (arith, first.taken, register_deploy_taken t params now);
        final = λ run_id status here over. rw kept.0 (first.final run_id status here over);
      }
