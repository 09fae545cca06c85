-- ===== src/Api/Service/Runs/Dedupe.antt =====
-- crates/gum-api/src/service.rs: enqueuing twice with the same key, over the in-memory store.
use gum.Prelude.{
  ◌≡◌, ◌∙◌, sym, refl, ap, inl, inr, false, true, Option, some, String, arith, Option-cases,
}
use gum.Prelude.Int.{ℤ, add_i64, ltb_ℤ}
use gum.Map.{get}
use gum.Types.{some_inj, Result, ok, err}
use gum.Models.{JobRecord, RunRecord}
use gum.Queries.Failure.{key_retention_ms}
use gum.Queries.Params.{EnqueueRunParams, EnqueueRunResult}
use gum.Queries.Schedule.Cron.{Calendar}
use gum.Store.{MemoryStore}
use gum.Store.Deploys.{get_job}
use gum.Store.Enqueue.{enqueue_run, run_key_scope}
use gum.Store.Enqueue.Dedupe.{enqueue_dedupes}
use gum.Store.Instance.{memory_store}
use gum.Api.Action.{continue, return}
use gum.Api.Json.{JsonLibrary}
use gum.Api.Routes.{EnqueueRunRequest, EnqueueRunResponse}
use gum.Api.Service.Key.{resolve_key_value}
use gum.Api.Service.Runs.{enqueue_run_with_delay, enqueue_after, delay_of}

module _ {Json : Type 0} where
  answer_of : EnqueueRunResult Json → EnqueueRunResponse
  answer_of enqueued = record {
    id = enqueued.run.id;
    status = enqueued.run.status;
    deduped = enqueued.deduped;
  }

  params_of :
      String
      → String
      → JobRecord
      → EnqueueRunRequest Json
      → String
      → Option ℤ
      → EnqueueRunParams Json
  params_of project_id job_id job request key delay_ms = record {
    project_id = project_id;
    job_id = job_id;
    deploy_id = job.deploy_id;
    input_json = request.input;
    dedupe_key_value = some key;
    delay_ms = delay_ms;
  }

  module _ (empty_object : Json) (calendar : Calendar) (json : JsonLibrary Json)
      (project_id job_id key : String) (job : JobRecord) where
    -- With the job at hand and the key resolved, enqueuing is the store's.
    enqueue_after-resolved :
        (s : MemoryStore Json) (request : EnqueueRunRequest Json) (now : ℤ) (delay_ms : Option ℤ)
        → get job_id s.state.jobs ≡ some job
        → resolve_key_value json job.key_field request.input ≡ ok (some key)
        → enqueue_after
            (memory_store empty_object calendar)
            json
            project_id
            job_id
            request
            now
            (ok delay_ms)
            s
          ≡ continue
              (enqueue_run s (params_of project_id job_id job request key delay_ms) now)
              (λ enqueued. return (answer_of enqueued))
    unfolding enqueue_after get_job params_of answer_of
    enqueue_after-resolved s request now delay_ms found resolved = rw (found, resolved) refl

    module _ (s t u : MemoryStore Json) (request again : EnqueueRunRequest Json) (now later : ℤ)
        (response : EnqueueRunResponse) (run : RunRecord Json)
        (found : get job_id s.state.jobs ≡ some job)
        (first_key : resolve_key_value json job.key_field request.input ≡ ok (some key))
        (second_key : resolve_key_value json job.key_field again.input ≡ ok (some key))
        (new : response.deduped ≡ false)
        (retained : ltb_ℤ later (add_i64 now key_retention_ms) ≡ true)
        (kept : get (run_key_scope project_id job_id key) u.state.run_keys
          ≡ get (run_key_scope project_id job_id key) t.state.run_keys)
        (same_job : get job_id u.state.jobs ≡ get job_id s.state.jobs)
        (there : get response.id u.state.runs ≡ some run) where
      -- The answer to the second request.
      abbrev same_run : Result EnqueueRunResponse × MemoryStore Json
      same_run = (ok (record { id = run.id; status = run.status; deduped = true }), u)

      stored_answer :
          (delay_ms again_ms : Option ℤ) (o : Result (EnqueueRunResult Json) × MemoryStore Json)
          → enqueue_run s (params_of project_id job_id job request key delay_ms) now ≡ o
          → continue o (λ enqueued. return (answer_of enqueued)) ≡ (ok response, t)
          → enqueue_after
              (memory_store empty_object calendar)
              json
              project_id
              job_id
              again
              later
              (ok again_ms)
              u
            ≡ same_run
      unfolding answer_of params_of
      stored_answer delay_ms again_ms (err e, t') is answered = ground arith
      stored_answer delay_ms again_ms (ok result, t') is answered =
          let params = params_of project_id job_id job request key delay_ms in
          let same : t' ≡ t = ground arith in
          let made : enqueue_run s params now ≡ (ok result, t) =
            is ∙ ap (λ u. (ok result, u)) same in
          let sent : answer_of result ≡ response = ground arith in
          let fresh : result.deduped ≡ false = ap (λ r. r.deduped) sent ∙ new in
          let named : result.run.id ≡ response.id = ap (λ r. r.id) sent in
          let again_made =
            enqueue_dedupes s t u params again.input again_ms key now later result run refl made
              fresh retained kept same_job (ap (λ id. get id u.state.runs) named ∙ there) in
          enqueue_after-resolved u again later again_ms (same_job ∙ found) second_key
          ∙ ap (λ o. continue o (λ enqueued. return (answer_of enqueued))) again_made

      after_delay :
          (delay : Result (Option ℤ)) (again_ms : Option ℤ)
          → enqueue_after
              (memory_store empty_object calendar)
              json
              project_id
              job_id
              request
              now
              delay
              s
            ≡ (ok response, t)
          → enqueue_after
              (memory_store empty_object calendar)
              json
              project_id
              job_id
              again
              later
              (ok again_ms)
              u
            ≡ same_run
      unfolding enqueue_after
      after_delay (err e) again_ms h = ground arith
      after_delay (ok delay_ms) again_ms h =
          stored_answer delay_ms again_ms
            (enqueue_run s (params_of project_id job_id job request key delay_ms) now) refl
            (sym (enqueue_after-resolved s request now delay_ms found first_key) ∙ h)

      -- Once the API has enqueued a new run of a job with a key field, every request for the same job whose
      -- input has the same value there, the text of a scalar, and whose delay can be read is answered with
      -- that run, as a duplicate, and leaves the store as it is, until the key expires: in every later store
      -- that still has the key's entry, the job as it was and the run, whatever has become of the run since.
      pub enqueue_run_with_delay-dedupes :
          (delay again_delay : Option String) (again_ms : Option ℤ)
          → delay_of again_delay ≡ some (ok again_ms)
          → enqueue_run_with_delay
              (memory_store empty_object calendar)
              json
              s
              project_id
              job_id
              request
              delay
              now
            ≡ some (ok response, t)
          → enqueue_run_with_delay
              (memory_store empty_object calendar)
              json
              u
              project_id
              job_id
              again
              again_delay
              later
            ≡ some (ok (record { id = run.id; status = run.status; deduped = true }), u)
      unfolding enqueue_run_with_delay
      enqueue_run_with_delay-dedupes delay again_delay again_ms readable h =
          elim (Option-cases (delay_of delay)) [
            | inl panics ↦ ground arith
            | inr (delay_ms, read) ↦
                rw (readable, enqueue_run_with_delay)
                  (ap some (
                    after_delay delay_ms again_ms
                      (some_inj (rw (read, enqueue_run_with_delay) at h))))
          ]
