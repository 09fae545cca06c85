-- ===== src/Examples.antt =====
-- A small run of the store: one project with one job, whose run is enqueued, leased and completed.
-- The modules below apply the theorems to it.
pub mod Histories
pub mod Operations
pub mod Ticks
pub mod Reports
pub mod Views
pub mod Probing
pub mod Server
pub mod Calls
pub mod Rounds
use gum.Prelude.{ℕ, refl, ◌≡◌, true, false, Option, none, some, List, [], ◌∷◌, String}
use gum.Prelude.Int.{ℤ, pos}
use gum.Types.{AttemptStatus}
use gum.Models.{ProjectRecord}
use gum.Queries.Params.{
  RegisterDeployParams, RegisterJobParams, RegisterRunnerParams, EnqueueRunParams,
  LeaseNextAttemptParams, CompleteAttemptParams, CancelRunParams,
}
use gum.Queries.Schedule.Cron.{Calendar}
use gum.Store.{MemoryStore, default}
use gum.Store.Deploys.{insert_project, register_deploy}
use gum.Store.Runners.{register_runner}
use gum.Store.Enqueue.{enqueue_run}
use gum.Store.Lease.{LeaseClock, lease_next_attempt}
use gum.Store.Complete.{complete_attempt}

-- A calendar that knows no time.
abbrev pub no_calendar : Calendar
no_calendar = record {
  Zone = Unit;
  utc = tt;
  parse_zone = λ name. none;
  local_time = λ zone at. none;
}

abbrev pub Plain : Type 0
Plain = Unit

abbrev pub project : ProjectRecord
project = record { id = "p"; name = "P"; slug = "p"; api_key_hash = "h" }

abbrev pub mail_job : RegisterJobParams
mail_job = record {
  id = "mail";
  name = "mail";
  handler_ref = "app:mail";
  trigger_mode = "both";
  schedule_expr = none;
  retries = 1;
  timeout_secs = 60;
  rate_limit_spec = none;
  concurrency_limit = some 1;
  cpu_cores = none;
  memory_mb = none;
  key_field = none;
  compute_class = none;
  required_secret_names = [];
}

abbrev pub deploy : RegisterDeployParams
deploy = record {
  project_id = "p";
  version = "1";
  bundle_url = "u";
  bundle_sha256 = "s";
  sdk_language = "python";
  entrypoint = "app";
  python_version = none;
  deps_mode = none;
  deps_hash = none;
  jobs = mail_job ∷ [];
}

abbrev pub mail : EnqueueRunParams Plain
mail = record {
  project_id = "p";
  job_id = "mail";
  deploy_id = "dep_1";
  input_json = tt;
  dedupe_key_value = some "k";
  delay_ms = none;
}

abbrev pub runner : RegisterRunnerParams
runner = record {
  runner_id = "r";
  compute_class = "standard";
  cpu_cores = 4;
  memory_mb = 4096;
  max_concurrent_leases = 2;
  heartbeat_timeout_secs = 30;
}

abbrev pub lease_params : LeaseNextAttemptParams
lease_params = record { runner_id = "r"; lease_ttl_secs = 60 }

abbrev pub at_once : LeaseClock
at_once = record {
  entered_at = pos 2000;
  retry_at = λ run_id. pos 2000;
  hold_at = λ run_id. pos 2000;
  window_at = λ run_id. pos 2000;
  started_at = pos 2000;
  leased_at = pos 2000;
}

abbrev pub success : CompleteAttemptParams
success = record {
  attempt_id = "att_3";
  runner_id = "r";
  status = AttemptStatus.succeeded;
  failure_reason = none;
  failure_class = none;
}

abbrev pub with_project : MemoryStore Plain
with_project = (insert_project default project).1

abbrev pub deployed_store : MemoryStore Plain
deployed_store = (register_deploy with_project deploy (pos 1000)).1

abbrev pub ready : MemoryStore Plain
ready = (register_runner deployed_store runner (pos 1000)).1

abbrev pub waiting : MemoryStore Plain
waiting = (enqueue_run ready mail (pos 1500)).1

abbrev pub busy : MemoryStore Plain
busy = (lease_next_attempt waiting lease_params at_once).1

abbrev pub done : MemoryStore Plain
done = (complete_attempt busy success (pos 3000)).1

abbrev pub cancel_mail : CancelRunParams
cancel_mail = record { run_id = "run_2"; requested_at_epoch_ms = pos 4000 }
