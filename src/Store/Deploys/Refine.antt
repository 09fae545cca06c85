-- ===== src/Store/Deploys/Refine.antt =====
-- The operations of crates/gum-store/src/memory.rs on deploys, provider targets, health records
-- and logs, against the abstract machine.
use gum.Prelude.{
  refl, ◌+◌, ◌^◌, ◌<◌, ◌≤◌, ◌≡◌, Option, none, some, String, List, [], ◌∷◌, arith, Bool-cases, inl,
  inr,
}
use gum.Prelude.Int.{ℤ}
use gum.Prelude.Lists.{All}
use gum.Map.{Map, values, contains_key, All-insert}
use gum.Map.Keyed.{Keyed, insert-Keyed}
use gum.Models.{JobRecord, ProviderTargetRecord, DeployRecord, ProjectRecord, LogRecord}
use gum.Queries.Params.{
  RegisterDeployParams, RegisterJobParams, UpsertProviderTargetParams, RecordProviderCheckParams,
  SetProviderHealthParams, SetFunctionHealthParams, SetDeployStatusParams,
}
use gum.Store.{MemoryStore, next_id, next_number}
use gum.Store.Deploys.{
  new_job, insert_jobs, insert_project, register_deploy, upsert_provider_target,
  record_provider_check, set_health_of, set_provider_health, set_function_health, set_status_of,
  set_deploy_status, append_log,
}
use gum.Store.Enqueue.Refine.{RetriesFit}
use gum.Lifecycle.Ids.{next_number_lem, later-FreshAbove}
use gum.Lifecycle.Refine.{StoreInv, Refines, Refines-refl, Refines-drift}

module _ {Json : Type 0} (s : MemoryStore Json) (h : StoreInv s) where
  -- A store with the same jobs, runs, attempts and counter.
  beside :
      (t : MemoryStore Json)
      → t.ids ≡ s.ids
      → t.state.jobs ≡ s.state.jobs
      → t.state.runs ≡ s.state.runs
      → t.state.attempts ≡ s.state.attempts
      → Refines s t
  beside t ei ej er ea = Refines-drift t (omega arith) ej er ea (Refines-refl s h)

  pub insert_project-Refines : (project : ProjectRecord) → Refines s (insert_project s project).1
  unfolding insert_project
  insert_project-Refines project = beside _ refl refl refl refl

  pub upsert_provider_target-Refines :
      (params : UpsertProviderTargetParams Json) (now : ℤ)
      → Refines s (upsert_provider_target s params now).1
  unfolding upsert_provider_target
  upsert_provider_target-Refines params now = beside _ refl refl refl refl

  pub record_provider_check-Refines :
      (params : RecordProviderCheckParams)
      → s.ids + 1 < 2 ^ 64
      → Refines s (record_provider_check s params).1
  unfolding record_provider_check next_id
  record_provider_check-Refines params room =
      elim (Bool-cases (contains_key params.provider_target_id s.state.provider_targets)) [
        | inl there ↦
            rw (there, record_provider_check)
              (Refines-drift _ (omega (arith, next_number_lem s.ids room)) refl refl refl
                (Refines-refl s h))
        | inr missing ↦ rw (missing, record_provider_check) (Refines-refl s h)
      ]

  pub record_provider_check_taken :
      (params : RecordProviderCheckParams) → (record_provider_check s params).1.ids ≤ s.ids + 1
  unfolding record_provider_check next_id next_number
  record_provider_check_taken params =
      elim (Bool-cases (contains_key params.provider_target_id s.state.provider_targets)) [
        | inl there ↦ rw (there, record_provider_check) (omega arith)
        | inr missing ↦ rw (missing, record_provider_check) (omega arith)
      ]

  pub set_provider_health_taken :
      (params : SetProviderHealthParams) → (set_provider_health s params).1.ids ≡ s.ids
  unfolding set_provider_health set_health_of
  set_provider_health_taken params = ground arith

  pub set_deploy_status_taken :
      (params : SetDeployStatusParams) → (set_deploy_status s params).1.ids ≡ s.ids
  unfolding set_deploy_status set_status_of
  set_deploy_status_taken params = ground arith

  set_health_of-Refines :
      (params : SetProviderHealthParams) (target : Option (ProviderTargetRecord Json))
      → Refines s (set_health_of s params target).1
  unfolding set_health_of
  set_health_of-Refines params none = Refines-refl s h
  set_health_of-Refines params (some target) = beside _ refl refl refl refl

  pub set_provider_health-Refines :
      (params : SetProviderHealthParams) → Refines s (set_provider_health s params).1
  unfolding set_provider_health
  set_provider_health-Refines params = set_health_of-Refines params _

  pub set_function_health-Refines :
      (params : SetFunctionHealthParams) → Refines s (set_function_health s params).1
  unfolding set_function_health
  set_function_health-Refines params = beside _ refl refl refl refl

  set_status_of-Refines :
      (params : SetDeployStatusParams) (deploy : Option DeployRecord)
      → Refines s (set_status_of s params deploy).1
  unfolding set_status_of
  set_status_of-Refines params none = Refines-refl s h
  set_status_of-Refines params (some deploy) = beside _ refl refl refl refl

  pub set_deploy_status-Refines :
      (params : SetDeployStatusParams) → Refines s (set_deploy_status s params).1
  unfolding set_deploy_status
  set_deploy_status-Refines params = set_status_of-Refines params _

  pub append_log-Refines : (log : LogRecord) → Refines s (append_log s log).1
  unfolding append_log
  append_log-Refines log = beside _ refl refl refl refl

  pub insert_project_taken : (project : ProjectRecord) → (insert_project s project).1.ids ≡ s.ids
  unfolding insert_project
  insert_project_taken project = refl

  pub upsert_provider_target_taken :
      (params : UpsertProviderTargetParams Json) (now : ℤ)
      → (upsert_provider_target s params now).1.ids ≡ s.ids
  unfolding upsert_provider_target
  upsert_provider_target_taken params now = refl

  pub set_function_health_taken :
      (params : SetFunctionHealthParams) → (set_function_health s params).1.ids ≡ s.ids
  unfolding set_function_health
  set_function_health_taken params = refl

  pub append_log_taken : (log : LogRecord) → (append_log s log).1.ids ≡ s.ids
  unfolding append_log
  append_log_taken log = refl

-- The retries of the jobs that a deploy brings.
abbrev pub ParamsFit : List RegisterJobParams → Type 0
ParamsFit jobs = All (λ job. job.retries + 1 < 2 ^ 32) jobs

module _ (project_id deploy_id : String) (now : ℤ) where
  insert_jobs-Keyed :
      (added : List RegisterJobParams) (jobs : Map JobRecord)
      → Keyed (λ j. j.id) jobs
      → Keyed (λ j. j.id) (insert_jobs project_id deploy_id now added jobs).0
  unfolding insert_jobs new_job
  insert_jobs-Keyed [] jobs h = h
  insert_jobs-Keyed (job ∷ rest) jobs h =
      insert_jobs-Keyed rest _ (insert-Keyed (λ j. j.id) job.id _ jobs refl h)

  insert_jobs-fit :
      (added : List RegisterJobParams) (jobs : Map JobRecord)
      → ParamsFit added
      → All RetriesFit (values jobs)
      → All RetriesFit (values (insert_jobs project_id deploy_id now added jobs).0)
  unfolding insert_jobs new_job
  insert_jobs-fit [] jobs fit h = h
  insert_jobs-fit (job ∷ rest) jobs (here, fit) h =
      insert_jobs-fit rest _ fit (All-insert RetriesFit job.id _ jobs h here)

-- What a deploy leaves of the runs: all of them, whatever becomes of the jobs.
module _ {Json : Type 0} (s : MemoryStore Json) (params : RegisterDeployParams) (now : ℤ) where
  pub register_deploy_keeps :
      ((register_deploy s params now).1.state.runs ≡ s.state.runs)
      × ((register_deploy s params now).1.state.attempts ≡ s.state.attempts)
  unfolding register_deploy
  register_deploy_keeps = elim (Bool-cases (contains_key params.project_id s.state.projects)) [
    | inl there ↦ rw (there, register_deploy) (refl, refl)
    | inr missing ↦ rw (missing, register_deploy) (refl, refl)
  ]

  pub register_deploy_fit :
      ParamsFit params.jobs
      → All RetriesFit (values s.state.jobs)
      → All RetriesFit (values (register_deploy s params now).1.state.jobs)
  unfolding register_deploy
  register_deploy_fit fit h = elim (Bool-cases (contains_key params.project_id s.state.projects)) [
    | inl there ↦
        rw (there, register_deploy)
          (insert_jobs-fit params.project_id _ now params.jobs s.state.jobs fit h)
    | inr missing ↦ rw (missing, register_deploy) h
  ]

  pub register_deploy-StoreInv :
      s.ids + 1 < 2 ^ 64 → StoreInv s → StoreInv (register_deploy s params now).1
  unfolding register_deploy next_id
  register_deploy-StoreInv room h =
      let next = next_number_lem s.ids room in
      elim (Bool-cases (contains_key params.project_id s.state.projects)) [
        | inl there ↦
            rw (there, register_deploy)
              (record {
                inv = record {
                  runs_keyed = h.inv.runs_keyed;
                  attempts_keyed = h.inv.attempts_keyed;
                  single = h.inv.single;
                  made = h.inv.made;
                  counted = h.inv.counted;
                  settled = h.inv.settled;
                };
                fresh = record {
                  runs = later-FreshAbove "run" s.ids _ _ (omega arith) h.fresh.runs;
                  attempts = later-FreshAbove "att" s.ids _ _ (omega arith) h.fresh.attempts;
                };
                jobs_keyed =
                    insert_jobs-Keyed params.project_id _ now params.jobs s.state.jobs h.jobs_keyed;
              })
        | inr missing ↦ rw (missing, register_deploy) h
      ]

  pub register_deploy_taken : (register_deploy s params now).1.ids ≤ s.ids + 1
  unfolding register_deploy next_id next_number
  register_deploy_taken = elim (Bool-cases (contains_key params.project_id s.state.projects)) [
    | inl there ↦ rw (there, register_deploy) (omega arith)
    | inr missing ↦ rw (missing, register_deploy) (omega arith)
  ]
