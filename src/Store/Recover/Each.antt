-- ===== src/Store/Recover/Each.antt =====
-- The loop of `recover_lost_attempts_locked` in crates/gum-store/src/memory.rs: what it writes for
-- the attempts that it is given.
use gum.Prelude.{
  Bool, ◌&&◌, ◌||◌, ◌≡◌, ◌∙◌, refl, ap, sym, true, false, Option, none, some, List, [], ◌∷◌, String,
  str_eq, eq_iff, if◌then◌else◌, arith, Bool-cases, inl, inr,
}
use gum.Prelude.Int.{ℤ}
use gum.Prelude.Lists.{any}
use gum.Map.{Map, get, insert, get-insert}
use gum.Models.{RunRecord, AttemptRecord}
use gum.Store.{MemoryState}
use gum.Store.Recover.{
  is_running, fail_attempt, lose_run, release_of, requeue_run, lose_attempt, recover_attempt,
  recover_each,
}

-- What the loop does to an attempt that it is given.
abbrev pub stop : ℤ → AttemptRecord → AttemptRecord
stop now attempt = if is_running attempt then fail_attempt now attempt else attempt

abbrev pub changed : {A : Type 0} → Bool → (A → A) → Option A → Option A
changed hit f none = none
changed hit f (some a) = some (if hit then f a else a)

pub changed_no : {A : Type 0} (f : A → A) (o : Option A) → o ≡ changed false f o
changed_no f none = refl
changed_no f (some a) = refl

changed-missing :
    {A : Type 0} (k key : String) (f : A → A) (m : Map A)
    → get k m ≡ none
    → get key m ≡ changed (str_eq k key) f (get key m)
changed-missing k key f m found = elim (Bool-cases (str_eq k key)) [
  | inl same ↦ let nothing : get key m ≡ none = ground (arith, eq_iff k key) in rw nothing refl
  | inr other ↦ rw other (changed_no f (get key m))
]

changed-insert :
    {A : Type 0} (k key : String) (f : A → A) (m : Map A) {a : A}
    → get k m ≡ some a
    → get key (insert k (f a) m) ≡ changed (str_eq k key) f (get key m)
changed-insert k key f m {a} found = elim (Bool-cases (str_eq k key)) [
  | inl same ↦
      let here : get key m ≡ some a = ground (arith, eq_iff k key) in
      get-insert k key (f a) m ∙ rw (same, here) refl
  | inr other ↦ get-insert k key (f a) m ∙ rw other (changed_no f (get key m))
]

changed-kept :
    {A : Type 0} (k key : String) (f : A → A) (m : Map A) {a : A}
    → get k m ≡ some a
    → f a ≡ a
    → get key m ≡ changed (str_eq k key) f (get key m)
changed-kept k key f m {a} found same = elim (Bool-cases (str_eq k key)) [
  | inl here ↦
      let there : get key m ≡ some a = ground (arith, eq_iff k key) in
      rw (here, there) (ap some (sym same))
  | inr other ↦ rw other (changed_no f (get key m))
]

changed_twice :
    {A : Type 0} (f : A → A) (b c : Bool) (o : Option A)
    → ((a : A) → f (f a) ≡ f a)
    → changed c f (changed b f o) ≡ changed (b || c) f o
changed_twice f b c none twice = refl
changed_twice f true true (some a) twice = ap some (twice a)
changed_twice f true false (some a) twice = refl
changed_twice f false c (some a) twice = refl

stop_twice : (now : ℤ) (attempt : AttemptRecord) → stop now (stop now attempt) ≡ stop now attempt
unfolding is_running fail_attempt
stop_twice now attempt = ground arith

-- The attempt is running, of that run.
abbrev pub runs_for : String → Option AttemptRecord → Bool
runs_for key none = false
runs_for key (some attempt) = is_running attempt && str_eq attempt.run_id key

runs_for_stopped :
    (now : ℤ) (key : String) (attempt : Option AttemptRecord)
    → (runs_for key attempt || runs_for key (changed true (stop now) attempt))
      ≡ (runs_for key attempt || runs_for key attempt)
unfolding is_running fail_attempt
runs_for_stopped now key none = refl
runs_for_stopped now key (some attempt) = ground arith

module _ {Json : Type 0} where
  lose_run_twice : (run : RunRecord Json) → lose_run (lose_run run) ≡ lose_run run
  unfolding lose_run
  lose_run_twice run = ground arith

  abbrev pub own_run : MemoryState Json → String → String → Bool
  own_run state key id = runs_for key (get id state.attempts)

  release_of_same :
      (state : MemoryState Json) (now : ℤ) (lease_id : Option String)
      → ((release_of state now lease_id).runs ≡ state.runs)
        × ((release_of state now lease_id).attempts ≡ state.attempts)
        × ((release_of state now lease_id).jobs ≡ state.jobs)
  unfolding release_of
  release_of_same state now none = (refl, refl, refl)
  release_of_same state now (some lease_id) = (refl, refl, refl)

  requeue_run_attempts :
      (state : MemoryState Json) (run_id : String) (run : Option (RunRecord Json))
      → ((requeue_run state run_id run).0.attempts ≡ state.attempts)
        × ((requeue_run state run_id run).0.jobs ≡ state.jobs)
  unfolding requeue_run
  requeue_run_attempts state run_id none = (refl, refl)
  requeue_run_attempts state run_id (some run) = (refl, refl)

  requeue_run_runs :
      (state : MemoryState Json) (run_id key : String) (run : Option (RunRecord Json))
      → get run_id state.runs ≡ run
      → get key (requeue_run state run_id run).0.runs
        ≡ changed (str_eq run_id key) lose_run (get key state.runs)
  unfolding requeue_run
  requeue_run_runs state run_id key none found =
      changed-missing run_id key lose_run state.runs found
  requeue_run_runs state run_id key (some run) found =
      changed-insert run_id key lose_run state.runs found

  lose_attempt_attempts :
      (state : MemoryState Json) (now : ℤ) (id key : String) (attempt : Option AttemptRecord)
      → get id state.attempts ≡ attempt
      → get key (lose_attempt state now id attempt).0.attempts
        ≡ changed (str_eq id key) (stop now) (get key state.attempts)
  unfolding lose_attempt
  lose_attempt_attempts state now id key none found =
      changed-missing id key (stop now) state.attempts found
  lose_attempt_attempts state now id key (some attempt) found =
      elim (Bool-cases (is_running attempt)) [
        | inl running ↦
            let stopped = record state {
              attempts = insert id (fail_attempt now attempt) state.attempts;
            } in
            let failed : stop now attempt ≡ fail_attempt now attempt = rw running refl in
            let inserted = changed-insert id key (stop now) state.attempts found in
            rw (running, lose_attempt)
              (ap (get key) (
                  (requeue_run_attempts (release_of stopped now attempt.lease_id) attempt.run_id
                    (get attempt.run_id state.runs)).0
                  ∙ (release_of_same stopped now attempt.lease_id).1)
                ∙ rw failed at inserted)
        | inr over ↦
            let same : stop now attempt ≡ attempt = rw over refl in
            rw (over, lose_attempt) (changed-kept id key (stop now) state.attempts found same)
      ]

  lose_attempt_runs :
      (state : MemoryState Json) (now : ℤ) (id key : String) (attempt : Option AttemptRecord)
      → get id state.attempts ≡ attempt
      → get key (lose_attempt state now id attempt).0.runs
        ≡ changed (runs_for key attempt) lose_run (get key state.runs)
  unfolding lose_attempt
  lose_attempt_runs state now id key none found = changed_no lose_run (get key state.runs)
  lose_attempt_runs state now id key (some attempt) found = elim (Bool-cases (is_running attempt)) [
    | inl running ↦
        let stopped = record state {
          attempts = insert id (fail_attempt now attempt) state.attempts;
        } in
        let kept = (release_of_same stopped now attempt.lease_id).0 in
        rw (running, lose_attempt)
          (requeue_run_runs (release_of stopped now attempt.lease_id) attempt.run_id key
              (get attempt.run_id state.runs) (ap (get attempt.run_id) kept)
            ∙ ap (λ runs. changed (str_eq attempt.run_id key) lose_run (get key runs)) kept)
    | inr over ↦ rw (over, lose_attempt) (changed_no lose_run (get key state.runs))
  ]

  lose_attempt_jobs :
      (state : MemoryState Json) (now : ℤ) (id : String) (attempt : Option AttemptRecord)
      → (lose_attempt state now id attempt).0.jobs ≡ state.jobs
  unfolding lose_attempt requeue_run release_of
  lose_attempt_jobs state now id attempt = ground arith

  pub recover_each_attempts :
      (now : ℤ) (key : String) (ids : List String) (state : MemoryState Json)
      → get key (recover_each now ids state).0.attempts
        ≡ changed (any (λ id. str_eq id key) ids) (stop now) (get key state.attempts)
  unfolding recover_each recover_attempt any
  recover_each_attempts now key [] state = changed_no (stop now) (get key state.attempts)
  recover_each_attempts now key (id ∷ ids) state =
      recover_each_attempts now key ids (recover_attempt state now id).0
      ∙ ap (changed (any (λ i. str_eq i key) ids) (stop now))
          (lose_attempt_attempts state now id key (get id state.attempts) refl)
      ∙ changed_twice (stop now) (str_eq id key) (any (λ i. str_eq i key) ids)
          (get key state.attempts) (stop_twice now)

  -- Once the attempt with the first identifier is not running, it is its own no more.
  own_after :
      (state : MemoryState Json) (now : ℤ) (id key other : String)
      → (own_run state key id || own_run (recover_attempt state now id).0 key other)
        ≡ (own_run state key id || own_run state key other)
  unfolding recover_attempt
  own_after state now id key other =
      ap (λ o. own_run state key id || runs_for key o)
        (lose_attempt_attempts state now id other (get id state.attempts) refl)
      ∙ elim (Bool-cases (str_eq id other)) [
        | inl same ↦
            let here : get other state.attempts ≡ get id state.attempts =
              ground (arith, eq_iff id other) in
            rw (same, here) (runs_for_stopped now key (get id state.attempts))
        | inr apart ↦ rw apart (
            ap (λ o. own_run state key id || runs_for key o)
              (sym (changed_no (stop now) (get other state.attempts))))
      ]

  own_any :
      (state : MemoryState Json) (now : ℤ) (id key : String) (ids : List String)
      → (own_run state key id || any (own_run (recover_attempt state now id).0 key) ids)
        ≡ (own_run state key id || any (own_run state key) ids)
  unfolding any
  own_any state now id key [] = refl
  own_any state now id key (other ∷ ids) =
      ground (arith, own_after state now id key other, own_any state now id key ids)

  pub recover_each_runs :
      (now : ℤ) (key : String) (ids : List String) (state : MemoryState Json)
      → get key (recover_each now ids state).0.runs
        ≡ changed (any (own_run state key) ids) lose_run (get key state.runs)
  unfolding recover_each recover_attempt any
  recover_each_runs now key [] state = changed_no lose_run (get key state.runs)
  recover_each_runs now key (id ∷ ids) state =
      let after = (recover_attempt state now id).0 in
      recover_each_runs now key ids after
      ∙ ap (changed (any (own_run after key) ids) lose_run)
          (lose_attempt_runs state now id key (get id state.attempts) refl)
      ∙ changed_twice lose_run (own_run state key id) (any (own_run after key) ids)
          (get key state.runs) lose_run_twice
      ∙ ap (λ hit. changed hit lose_run (get key state.runs)) (own_any state now id key ids)

  pub recover_each_jobs :
      (now : ℤ) (ids : List String) (state : MemoryState Json)
      → (recover_each now ids state).0.jobs ≡ state.jobs
  unfolding recover_each recover_attempt
  recover_each_jobs now [] state = refl
  recover_each_jobs now (id ∷ ids) state =
      recover_each_jobs now ids (recover_attempt state now id).0
      ∙ lose_attempt_jobs state now id (get id state.attempts)
