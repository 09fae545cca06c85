-- ===== src/Store/Enqueue/Dedupe.antt =====
-- The keys of enqueued runs, in `enqueue_run` of crates/gum-store/src/memory.rs.
use gum.Prelude.{subst, ◌≡◌, refl, true, false, Option, none, some, String, eq_iff, arith, ◌∙◌, ap}
use gum.Prelude.Int.{ℤ, ltb_ℤ, add_i64}
use gum.Map.{get, get-insert}
use gum.Types.{Result, ok, err}
use gum.Models.{JobRecord, RunRecord}
use gum.Queries.Params.{EnqueueRunParams, EnqueueRunResult}
use gum.Queries.Failure.{key_retention_ms}
use gum.Store.{MemoryState, MemoryStore, identifier, next_number, next_id}
use gum.Store.Enqueue.{
  KeyLookup, duplicate, proceed, run_key_scope, enqueue_check, live_run, drop_stale, found_key,
  lookup_key, queued_run, new_key, remember_key, add_run, enqueue_new, enqueue_checked, enqueue_run,
}

-- What is stored under the key of a call that makes a run.
remembered_key :
    {Json : Type 0} (params : EnqueueRunParams Json) (key : String) (state : MemoryState Json)
    (run : RunRecord Json) (now : ℤ)
    → run.project_id ≡ params.project_id
    → run.job_id ≡ params.job_id
    → get
        (run_key_scope params.project_id params.job_id key)
        (add_run (remember_key state run now (some key)) run).run_keys
      ≡ some (new_key run now key)
unfolding remember_key add_run
remembered_key params key state run now project job = ground (
  arith,
  eq_iff (run_key_scope run.project_id run.job_id key)
      (run_key_scope params.project_id params.job_id key),
  get-insert (run_key_scope run.project_id run.job_id key)
      (run_key_scope params.project_id params.job_id key) (new_key run now key) state.run_keys,
)

-- A store with the entry of the key and with its run finds the run.
found_again :
    {Json : Type 0} (params : EnqueueRunParams Json) (key : String) (state : MemoryState Json)
    (made run : RunRecord Json) (now later : ℤ)
    → params.dedupe_key_value ≡ some key
    → get (run_key_scope params.project_id params.job_id key) state.run_keys
      ≡ some (new_key made now key)
    → get made.id state.runs ≡ some run
    → ltb_ℤ later (add_i64 now key_retention_ms) ≡ true
    → lookup_key state later params ≡ duplicate run
unfolding lookup_key new_key found_key drop_stale live_run
found_again params key state made run now later keyed entry there retained = ground arith

module _ {Json : Type 0} (s t : MemoryStore Json) (params : EnqueueRunParams Json) (now : ℤ)
    (result : EnqueueRunResult Json) where
  -- What a call that makes a run has done.
  record Made : Type 0 where
    state : MemoryState Json
    job : JobRecord
    checked : enqueue_check params (get params.job_id s.state.jobs) ≡ ok job
    left : t.state ≡ add_run (remember_key state result.run now params.dedupe_key_value) result.run
    project_id : result.run.project_id ≡ params.project_id
    job_id : result.run.job_id ≡ params.job_id

  new-Made :
      (job : JobRecord) (key : KeyLookup Json)
      → enqueue_check params (get params.job_id s.state.jobs) ≡ ok job
      → lookup_key s.state now params ≡ key
      → enqueue_new s params job now key ≡ (ok result, t)
      → result.deduped ≡ false
      → Made
  unfolding enqueue_new queued_run next_id
  new-Made job (duplicate run) checked found e new = absurd (ground arith)
  new-Made job (proceed state) checked found e new =
      let run = queued_run params job now (identifier "run" (next_number s.ids)) in
      let same : result.run ≡ run = ground arith in
      let left : t.state ≡ add_run (remember_key state run now params.dedupe_key_value) run =
        ground arith in
      record {
        state = state;
        job = job;
        checked = checked;
        left = rw same left;
        project_id = ap (λ r. r.project_id) same;
        job_id = ap (λ r. r.job_id) same;
      }

  checked-Made :
      (checked : Result JobRecord)
      → enqueue_check params (get params.job_id s.state.jobs) ≡ checked
      → enqueue_checked s params now checked ≡ (ok result, t)
      → result.deduped ≡ false
      → Made
  unfolding enqueue_checked
  checked-Made (err e) is made new = absurd (ground arith)
  checked-Made (ok job) is made new = new-Made job (lookup_key s.state now params) is refl made new

  run-Made : enqueue_run s params now ≡ (ok result, t) → result.deduped ≡ false → Made
  unfolding enqueue_run
  run-Made = checked-Made (enqueue_check params (get params.job_id s.state.jobs)) refl

-- The check reads neither the input nor the delay.
same_check :
    {Json : Type 0} (params : EnqueueRunParams Json) (input_json : Json) (delay_ms : Option ℤ)
    (job : Option JobRecord)
    → enqueue_check (record params { input_json = input_json; delay_ms = delay_ms }) job
      ≡ enqueue_check params job
unfolding enqueue_check
same_check params input_json delay_ms none = refl
same_check params input_json delay_ms (some job) = refl

-- Once a call with a dedupe key has made a run, every call for the same job and deploy with the same
-- key, whatever its input and its delay, returns that run and leaves the store as it is, until the key
-- expires: in every later store that still has the key's entry, the job as it was and the run,
-- whatever has become of the run since.
pub enqueue_dedupes :
    {Json : Type 0} (s t u : MemoryStore Json) (params : EnqueueRunParams Json) (input_json : Json)
    (delay_ms : Option ℤ) (key : String) (now later : ℤ) (result : EnqueueRunResult Json)
    (run : RunRecord Json)
    → params.dedupe_key_value ≡ some key
    → enqueue_run s params now ≡ (ok result, t)
    → result.deduped ≡ false
    → ltb_ℤ later (add_i64 now key_retention_ms) ≡ true
    → get (run_key_scope params.project_id params.job_id key) u.state.run_keys
      ≡ get (run_key_scope params.project_id params.job_id key) t.state.run_keys
    → get params.job_id u.state.jobs ≡ get params.job_id s.state.jobs
    → get result.run.id u.state.runs ≡ some run
    → enqueue_run u (record params { input_json = input_json; delay_ms = delay_ms }) later
      ≡ (ok (record { run = run; deduped = true }), u)
unfolding enqueue_run enqueue_checked enqueue_new
enqueue_dedupes s t u params input_json delay_ms key now later result run keyed made new retained
      kept same_job there =
    let call = run-Made s t params now result made new in
    let again = record params { input_json = input_json; delay_ms = delay_ms } in
    let left : t.state ≡ add_run (remember_key call.state result.run now (some key)) result.run =
      subst (λ k. t.state ≡ add_run (remember_key call.state result.run now k) result.run) keyed
        call.left in
    let entry =
      kept
      ∙ ap
          (λ (st : MemoryState _).
            get (run_key_scope params.project_id params.job_id key) st.run_keys)
          left
      ∙ remembered_key params key call.state result.run now call.project_id call.job_id in
    let found : lookup_key u.state later again ≡ duplicate run =
      found_again again key u.state result.run run now later keyed entry there retained in
    let checked : enqueue_check again (get params.job_id u.state.jobs) ≡ ok call.job =
      same_check params input_json delay_ms (get params.job_id u.state.jobs)
      ∙ (ap (enqueue_check params) same_job ∙ call.checked) in
    rw (checked, found) refl
