-- ===== src/Store/Enqueue/Outcome.antt =====
-- `enqueue_run` and `replay_run` of crates/gum-store/src/memory.rs: what they answer and write.
use gum.Prelude.{◌+◌, ◌^◌, ◌<◌, ◌⊎◌, ◌≡◌, refl, true, false, Option, none, some, String, arith}
use gum.Prelude.Int.{ℤ}
use gum.Map.{get, insert}
use gum.Types.{RunStatus, TriggerType, Result, ok, err}
use gum.Models.{JobRecord, RunRecord}
use gum.Queries.Params.{EnqueueRunParams, EnqueueRunResult, ReplayRunParams}
use gum.Store.{MemoryStore, identifier, next_id, next_number}
use gum.Store.Enqueue.{KeyLookup, duplicate, proceed, add_run, replay_of, replay_source, replay_run}
use gum.Lifecycle.Ids.{next_number_lem}
use gum.Lifecycle.Refine.{StoreInv}

module _ {Json : Type 0} where
  -- One new run that waits is there, and nothing else is written to runs, attempts, leases and jobs.
  pub record Adds (s : MemoryStore Json) (run : RunRecord Json) (t : MemoryStore Json)
      : Type 0 where
    pub new : get run.id s.state.runs ≡ none
    pub queued : run.status ≡ RunStatus.queued
    pub count : run.attempt_count ≡ 0
    pub runs : t.state.runs ≡ insert run.id run s.state.runs
    pub attempts : t.state.attempts ≡ s.state.attempts
    pub leases : t.state.leases ≡ s.state.leases
    pub jobs : t.state.jobs ≡ s.state.jobs

  -- What of the source a replay has.
  pub record Copies (source run : RunRecord Json) : Type 0 where
    pub of_source : run.replay_of_run_id ≡ some source.id
    pub trigger : run.trigger_type ≡ TriggerType.replay
    pub project_id : run.project_id ≡ source.project_id
    pub job_id : run.job_id ≡ source.job_id
    pub deploy_id : run.deploy_id ≡ source.deploy_id
    pub input : run.input_json ≡ source.input_json
    pub allowed : run.max_attempts ≡ source.max_attempts
    pub at_once : run.retry_after_epoch_ms ≡ none

  -- What of the call and the job a new run has.
  pub record Obeys (params : EnqueueRunParams Json) (job : JobRecord) (run : RunRecord Json)
      : Type 0 where
    pub trigger : run.trigger_type ≡ TriggerType.enqueue
    pub project_id : run.project_id ≡ params.project_id
    pub job_id : run.job_id ≡ params.job_id
    pub deploy_id : run.deploy_id ≡ params.deploy_id
    pub input : run.input_json ≡ params.input_json
    pub allowed : run.max_attempts ≡ job.retries + 1

module _ {Json : Type 0} (s : MemoryStore Json) where
  abbrev pub Replays : Option (RunRecord Json) → Result (RunRecord Json) × MemoryStore Json → Type 0
  Replays none ended = ended ≡ (err "run not found", s)
  Replays (some source) (result, t) =
      (run : RunRecord Json) × (result ≡ ok run) × Copies source run × Adds s run t

  -- The job is there, is enabled, and is of the call's project and deploy.
  abbrev pub IsOpen : EnqueueRunParams Json → JobRecord → Type 0
  IsOpen params job =
      (get params.job_id s.state.jobs ≡ some job)
      × (job.enabled ≡ true)
      × (job.project_id ≡ params.project_id)
      × (job.deploy_id ≡ params.deploy_id)

  -- A run that is there, for a call with a key.
  abbrev pub IsKeyed : EnqueueRunParams Json → RunRecord Json → Type 0
  IsKeyed params run =
      (key : String) × (params.dedupe_key_value ≡ some key)
      × ((id : String) × (get id s.state.runs ≡ some run))

  -- By the answer: an error and a duplicate write nothing, a new run is the only one.
  abbrev pub Enqueues :
      EnqueueRunParams Json → Result (EnqueueRunResult Json) × MemoryStore Json → Type 0
  Enqueues params (err e, t) = (t ≡ s) × ((job : JobRecord) → ¬ IsOpen params job)
  Enqueues params (ok result, t) =
      ((result.deduped ≡ true) × (t ≡ s) × IsKeyed params result.run)
      ⊎ ((result.deduped ≡ false)
          × ((job : JobRecord) × IsOpen params job
              × Obeys params job result.run
              × Adds s result.run t))

module _ {Json : Type 0} (s : MemoryStore Json) (h : StoreInv s) (room : s.ids + 1 < 2 ^ 64) where
  new_id : get (identifier "run" (next_number s.ids)) s.state.runs ≡ none
  new_id =
      let next = next_number_lem s.ids (omega arith) in
      h.fresh.runs (next_number s.ids) (omega arith)

  replay_source-Replays :
      (source : Option (RunRecord Json)) (now : ℤ) → Replays s source (replay_source s now source)
  unfolding replay_source next_id add_run replay_of
  replay_source-Replays none now = refl
  replay_source-Replays (some source) now = (
    replay_of source now (identifier "run" (next_number s.ids)),
    refl,
    record {
      of_source = refl;
      trigger = refl;
      project_id = refl;
      job_id = refl;
      deploy_id = refl;
      input = refl;
      allowed = refl;
      at_once = refl;
    },
    record {
      new = new_id;
      queued = refl;
      count = refl;
      runs = refl;
      attempts = refl;
      leases = refl;
      jobs = refl;
    },
  )

  -- From a store that keeps the invariant and has an identifier left, replaying a run that is there adds
  -- one new run, which waits, names the run as its source and has its job, deploy, input and number of
  -- attempts; nothing else is written to runs, attempts, leases and jobs. For a run that is not there the
  -- answer is an error and the store stays as it is.
  pub replay_run-Replays :
      (params : ReplayRunParams) (now : ℤ)
      → Replays s (get params.source_run_id s.state.runs) (replay_run s params now)
  unfolding replay_run
  replay_run-Replays params now = replay_source-Replays (get params.source_run_id s.state.runs) now

  -- What the keys leave as it was.
  abbrev Untouched : EnqueueRunParams Json → KeyLookup Json → Type 0
  Untouched params (duplicate run) = IsKeyed s params run
  Untouched params (proceed state) =
      (state.jobs ≡ s.state.jobs)
      × (state.runs ≡ s.state.runs)
      × (state.attempts ≡ s.state.attempts)
      × (state.leases ≡ s.state.leases)
