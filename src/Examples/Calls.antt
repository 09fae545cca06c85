-- ===== src/Examples/Calls.antt =====
-- The theorems on the service's functions, at the small run and at a job with a key field.
use gum.Prelude.{◌≡◌, refl, true, false, some, none, List, [], ◌∷◌, String, arith}
use gum.Prelude.Int.{pos, add_i64, ltb_ℤ, secs_to_ms, wrap_i64, clamp_i64, ◌+ℤ◌}
use gum.Prelude.Lists.{any, count, find}
use gum.Prelude.Sort.{sort_by}
use gum.Prelude.Order.{cmp_text}
use gum.Map.{get, insert, values, modify}
use gum.Text.{split_once, rsplit_once, split_last}
use gum.Text.Decimal.{format, parse, parse_i64}
use gum.Types.{TriggerType, RunStatus, ok, err, run_status_eq, attempt_status_eq}
use gum.Models.{JobRecord, RunRecord}
use gum.Queries.Params.{RegisterJobParams, RegisterDeployParams, EnqueueRunParams}
use gum.Queries.Failure.{key_retention_ms}
use gum.Queries.GumStore.{GumStore}
use gum.Queries.Schedule.Interval.{parse_schedule_interval_ms}
use gum.Queries.RateLimit.{parse_rate_limit_spec}
use gum.Store.{MemoryStore, default, identifier, next_number, next_id}
use gum.Store.Deploys.{
  insert_project, register_deploy as store_register_deploy, get_job, get_run as store_get_run,
}
use gum.Store.Enqueue.{enqueue_run, attempts_allowed, run_key_scope}
use gum.Store.Runners.{register_runner}
use gum.Store.Recover.{recover_lost_attempts_locked, is_running, is_closed}
use gum.Store.Lease.{lease_next_attempt, class_fits, fits_runner, below_limit, is_after}
use gum.Store.Scope.{
  active_cpu_cores, active_memory_mb, active_on_runner, active_for_job, job_cpu_cores,
  job_memory_mb, opt_str_eq,
}
use gum.Store.Instance.{memory_store}
use gum.Store.Listings.Limits.{
  list_concurrency_status, list_rate_limit_status, active_run_ids_for_job, concurrency_status,
  dedup, cons_new, sort_ids, runs_of_job,
}
use gum.History.{called, enqueue_run_call}
use gum.History.Invariant.{DeploysFit, Lasting, History-Lasting}
use gum.History.Guarantees.{default-Sound}
use gum.Api.Json.{Shape, JsonLibrary}
use gum.Api.Routes.{
  RegisteredJob, RegisterDeployRequest, EnqueueRunRequest, EnqueueRunResponse, RunResponse,
}
use gum.Api.Service.Key.{resolve_key_value}
use gum.Api.Service.Pools.{validate_rate_limit_pools, check_pools}
use gum.Api.Service.Pools.Agree.{here, there, pools_agree}
use gum.Api.Service.Deploys.{register_deploy, check_schedules, store_deploy}
use gum.Api.Service.Deploys.Refused.{register_deploy-refused}
use gum.Api.Service.Runs.{enqueue_run_with_delay, enqueue_after, delay_of}
use gum.Api.Service.Runs.Dedupe.{enqueue_run_with_delay-dedupes}
use gum.Api.Service.Views.{
  get_run, read_limits, concurrency_status_map, rate_limit_waiting_run_ids, respond, respond_option,
  collect_by_job,
}
use gum.Api.Service.Views.Concurrency.{get_run-waits}
use gum.Api.Service.Waiting.{run_response, derive_waiting_reason, at_limit}
use gum.Examples.{Plain, no_calendar, project, mail, busy}
use gum.Examples.Histories.{past_ready, past_busy, mail_record}

abbrev registered_job : String → RegisteredJob
registered_job id = record {
  id = id;
  name = id;
  handler_ref = "app:mail";
  trigger_mode = "both";
  schedule_expr = none;
  retries = 1;
  timeout_secs = 60;
  rate_limit_spec = some "eu:20/m";
  concurrency_limit = none;
  cpu_cores = none;
  memory_mb = none;
  key_field = none;
  compute_class = none;
  required_secret_names = [];
}

abbrev two_jobs : List RegisteredJob
two_jobs = registered_job "mail" ∷ registered_job "digest" ∷ []

pools_accepted : validate_rate_limit_pools two_jobs ≡ ok tt
unfolding validate_rate_limit_pools check_pools parse_rate_limit_spec rsplit_once split_once parse
    get insert
pools_accepted = refl

eu_parsed :
    parse_rate_limit_spec "eu:20/m"
    ≡ ok (record { pool = some "eu"; limit = 20; window_ms = pos 60000 })
unfolding parse_rate_limit_spec rsplit_once split_once parse
eu_parsed = refl

pools_agree_example : ◌≡◌ {A = String} "eu:20/m" "eu:20/m"
pools_agree_example =
    pools_agree two_jobs "eu" "eu:20/m" "eu:20/m" pools_accepted
      (here (record { spec = _; written = refl; parsed = eu_parsed; shared = refl }))
      (there (here (record { spec = _; written = refl; parsed = eu_parsed; shared = refl })))

abbrev server : GumStore Plain
server = memory_store tt no_calendar

abbrev deploy_request : RegisterDeployRequest
deploy_request = record {
  project_id = "p";
  version = "1";
  bundle_url = "u";
  bundle_sha256 = "s";
  sdk_language = "python";
  entrypoint = "app";
  python_version = none;
  deps_mode = none;
  deps_hash = none;
  jobs = two_jobs;
}

-- There is no project yet.
deploy_refused :
    register_deploy server no_calendar default deploy_request (pos 1)
    ≡ some (err "project not found", default)
unfolding register_deploy validate_rate_limit_pools check_pools parse_rate_limit_spec rsplit_once
    split_once parse get insert check_schedules store_deploy store_register_deploy
deploy_refused = refl

register_deploy-refused_example : default {Json = Plain} ≡ default
register_deploy-refused_example =
    register_deploy-refused tt no_calendar default default deploy_request (pos 1)
      "project not found" deploy_refused

-- An input that is the text of its only field.
abbrev text_json : JsonLibrary String
text_json = record {
  get_field = λ input field. some input;
  shape = λ input. Shape.string_value input;
}

abbrev keyed_job : RegisterJobParams
keyed_job = record {
  id = "mail";
  name = "mail";
  handler_ref = "app:mail";
  trigger_mode = "both";
  schedule_expr = none;
  retries = 1;
  timeout_secs = 60;
  rate_limit_spec = none;
  concurrency_limit = some 1;
  cpu_cores = none;
  memory_mb = none;
  key_field = some "to";
  compute_class = none;
  required_secret_names = [];
}

abbrev keyed_deploy : RegisterDeployParams
keyed_deploy = record {
  project_id = "p";
  version = "1";
  bundle_url = "u";
  bundle_sha256 = "s";
  sdk_language = "python";
  entrypoint = "app";
  python_version = none;
  deps_mode = none;
  deps_hash = none;
  jobs = keyed_job ∷ [];
}

abbrev keyed_record : JobRecord
keyed_record = record mail_record { key_field = some "to" }

abbrev keyed_store : MemoryStore String
keyed_store = (store_register_deploy (insert_project default project).1 keyed_deploy (pos 1000)).1

abbrev text_server : GumStore String
text_server = memory_store "{}" no_calendar

abbrev to_ann : EnqueueRunRequest String
to_ann = record { input = "ann" }

abbrev answer : EnqueueRunResponse
answer = record { id = "run_2"; status = RunStatus.queued; deduped = false }

abbrev sent_params : EnqueueRunParams String
sent_params = record {
  project_id = "p";
  job_id = "mail";
  deploy_id = "dep_1";
  input_json = "ann";
  dedupe_key_value = some "ann";
  delay_ms = none;
}

abbrev sent : MemoryStore String
sent = (enqueue_run keyed_store sent_params (pos 2000)).1

keyed_there : get "mail" keyed_store.state.jobs ≡ some keyed_record
unfolding insert_project store_register_deploy get insert identifier next_number next_id format
keyed_there = refl

ann_resolved : resolve_key_value text_json (some "to") "ann" ≡ ok (some "ann")
unfolding resolve_key_value
ann_resolved = refl

first_answer :
    enqueue_run_with_delay text_server text_json keyed_store "p" "mail" to_ann none (pos 2000)
    ≡ some (ok answer, sent)
unfolding enqueue_run_with_delay delay_of enqueue_after get_job resolve_key_value insert_project
    store_register_deploy get insert identifier next_number next_id format enqueue_run
    attempts_allowed run_key_scope
first_answer = refl

soon : ltb_ℤ (pos 3000) (add_i64 (pos 2000) key_retention_ms) ≡ true
unfolding add_i64 wrap_i64 ◌+ℤ◌
soon = refl

-- The run has ended since.
abbrev ended_run : RunRecord String
ended_run = record {
  id = "run_2";
  project_id = "p";
  job_id = "mail";
  deploy_id = "dep_1";
  trigger_type = TriggerType.enqueue;
  status = RunStatus.succeeded;
  input_json = "ann";
  attempt_count = 1;
  max_attempts = 2;
  scheduled_at_epoch_ms = pos 2000;
  failure_reason = none;
  failure_class = none;
  retry_after_epoch_ms = none;
  waiting_for_provider_slug = none;
  replay_of_run_id = none;
}

abbrev ended : MemoryStore String
ended = record sent {
  state = record sent.state { runs = insert "run_2" ended_run sent.state.runs };
}

five_seconds : delay_of (some "5s") ≡ some (ok (some (pos 5000)))
unfolding delay_of parse_schedule_interval_ms parse split_last parse_i64 clamp_i64
five_seconds = refl

enqueue_run_with_delay-dedupes_example :
    enqueue_run_with_delay text_server text_json ended "p" "mail" to_ann (some "5s") (pos 3000)
    ≡ some (ok (record { id = "run_2"; status = RunStatus.succeeded; deduped = true }), ended)
unfolding insert_project store_register_deploy get insert identifier next_number next_id format
    enqueue_run attempts_allowed run_key_scope
enqueue_run_with_delay-dedupes_example =
    enqueue_run_with_delay-dedupes "{}" no_calendar text_json "p" "mail" "ann" keyed_record
      keyed_store sent ended to_ann to_ann (pos 2000) (pos 3000) answer ended_run keyed_there
      ann_resolved ann_resolved refl soon refl refl refl none (some "5s") (some (pos 5000))
      five_seconds first_answer

abbrev second_mail : EnqueueRunParams Plain
second_mail = record mail { dedupe_key_value = none }

-- While the run of the job is on its way, a second one waits.
abbrev two_runs : MemoryStore Plain
two_runs = (enqueue_run busy second_mail (pos 2500)).1

two_runs_past : Lasting default 5 two_runs
unfolding DeploysFit past_busy past_ready
two_runs_past =
    History-Lasting default-Sound (omega arith)
      (called past_busy (enqueue_run_call second_mail (pos 2500))) ((omega arith, tt), tt)

abbrev second_response : RunResponse
second_response = record {
  id = "run_5";
  job_id = "mail";
  status = RunStatus.queued;
  attempt = 0;
  failure_reason = none;
  failure_class = none;
  retry_after_epoch_ms = none;
  waiting_reason = some "waiting_on_concurrency";
  waiting_for_provider_slug = none;
  replay_of = none;
}

second_answered : get_run server two_runs "run_5" (pos 2600) ≡ ok (some second_response)
unfolding insert_project store_register_deploy register_runner enqueue_run lease_next_attempt get
    insert values identifier next_number next_id format recover_lost_attempts_locked class_fits
    active_cpu_cores active_memory_mb active_on_runner active_for_job count run_status_eq
    attempt_status_eq job_cpu_cores job_memory_mb fits_runner below_limit is_running find modify
    opt_str_eq is_after add_i64 secs_to_ms is_closed wrap_i64 ◌+ℤ◌ attempts_allowed get_run
    read_limits concurrency_status_map rate_limit_waiting_run_ids respond respond_option
    collect_by_job list_concurrency_status list_rate_limit_status active_run_ids_for_job
    concurrency_status dedup cons_new sort_ids runs_of_job run_response derive_waiting_reason
    at_limit store_get_run sort_by cmp_text any
second_answered = refl

mail_there : get "mail" two_runs.state.jobs ≡ some mail_record
unfolding insert_project store_register_deploy register_runner enqueue_run lease_next_attempt get
    insert values identifier next_number next_id format recover_lost_attempts_locked class_fits
    active_cpu_cores active_memory_mb active_on_runner active_for_job count run_status_eq
    attempt_status_eq job_cpu_cores job_memory_mb fits_runner below_limit is_running find modify
    opt_str_eq is_after add_i64 secs_to_ms is_closed wrap_i64 ◌+ℤ◌ attempts_allowed
mail_there = refl

get_run-waits_example : below_limit two_runs.state mail_record ≡ false
get_run-waits_example =
    get_run-waits tt no_calendar two_runs "run_5" (pos 2600) second_response mail_record
      two_runs_past.sound.inv second_answered refl mail_there
