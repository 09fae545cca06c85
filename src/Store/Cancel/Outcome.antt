-- ===== src/Store/Cancel/Outcome.antt =====
-- `cancel_run` of crates/gum-store/src/memory.rs: what it answers and what it writes.
use gum.Prelude.{
  ap, ◌∙◌, Bool, List, [], ◌∷◌, str_eq, ◌&&◌, Bool-cases, ◌≡◌, ◌⊎◌, refl, inl, inr, true, false,
  Option, none, some, String, arith,
}
use gum.Prelude.Lists.{find, All, All-find}
use gum.Map.{Map, get, insert, modify, values}
use gum.Map.Keyed.{values-Keyed}
use gum.Types.{RunStatus, Result, ok, err}
use gum.Models.{RunRecord, AttemptRecord, LeaseRecord}
use gum.Queries.Params.{CancelRunParams}
use gum.Store.{MemoryState, MemoryStore}
use gum.Store.Recover.{is_running}
use gum.Store.Cancel.{
  is_running_for, request_cancel, request_revoke, cancel_queued, mark_requested, revoke_lease,
  finish_cancel, cancel_attempt, cancel_running, cancel_by_status, cancel_found, cancel_run,
}
use gum.Store.Cancel.Refine.{revoke_lease_keeps}
use gum.Lifecycle.{SameRun}
use gum.Lifecycle.Refine.{StoreInv}

-- The attempt runs for the run.
abbrev pub runs_for : String → AttemptRecord → Bool
runs_for run_id a = str_eq a.run_id run_id && is_running a

module _ {Json : Type 0} (s : MemoryStore Json) (params : CancelRunParams) where
  abbrev Ended : Type 0
  Ended = Result (RunRecord Json) × MemoryStore Json

  -- The run is canceled at once.
  pub record Withdraws (run : RunRecord Json) (ended : Ended) : Type 0 where
    pub canceled : RunRecord Json
    pub answer : ended.0 ≡ ok canceled
    pub same : SameRun run canceled
    pub status : canceled.status ≡ RunStatus.canceled
    pub count : canceled.attempt_count ≡ run.attempt_count
    pub runs : ended.1.state.runs ≡ insert params.run_id canceled s.state.runs
    pub attempts : ended.1.state.attempts ≡ s.state.attempts
    pub leases : ended.1.state.leases ≡ s.state.leases
    pub jobs : ended.1.state.jobs ≡ s.state.jobs

  -- The leases after the request to cancel an attempt that has the lease.
  abbrev pub Revoked : Option String → Map LeaseRecord → Type 0
  Revoked none leases = leases ≡ s.state.leases
  Revoked (some lease_id) leases =
      leases
      ≡ modify lease_id
          (λ lease. record lease {
            revoke_requested_at_epoch_ms = some params.requested_at_epoch_ms;
          })
          s.state.leases

  -- A running attempt of the run is asked to stop, and its lease is; the run stays as it is but for the
  -- reason that it shows.
  pub record Requests (run : RunRecord Json) (ended : Ended) : Type 0 where
    pub asked : RunRecord Json
    pub answer : ended.0 ≡ ok asked
    pub same : SameRun run asked
    pub status : asked.status ≡ run.status
    pub count : asked.attempt_count ≡ run.attempt_count
    pub attempt : AttemptRecord
    pub found : get attempt.id s.state.attempts ≡ some attempt
    pub of_run : runs_for params.run_id attempt ≡ true
    pub runs : ended.1.state.runs ≡ insert params.run_id asked s.state.runs
    pub attempts :
        ended.1.state.attempts
        ≡ insert attempt.id
            (record attempt { cancel_requested_at_epoch_ms = some params.requested_at_epoch_ms })
            s.state.attempts
    pub leases : Revoked attempt.lease_id ended.1.state.leases
    pub jobs : ended.1.state.jobs ≡ s.state.jobs

  -- By the run's status.
  abbrev pub Cancels : RunRecord Json → RunStatus → Ended → Type 0
  Cancels run RunStatus.queued ended = Withdraws run ended
  Cancels run RunStatus.running ended =
      Requests run ended
      ⊎ (All (λ a. runs_for params.run_id a ≡ false) (values s.state.attempts)
          × (ended ≡ (err "running attempt not found", s)))
  Cancels run _ ended = ended ≡ (err "run already finished", s)

  abbrev pub Outcome : Option (RunRecord Json) → Ended → Type 0
  Outcome none ended = ended ≡ (err "run not found", s)
  Outcome (some run) ended = Cancels run run.status ended

module _ {Json : Type 0} (s : MemoryStore Json) (params : CancelRunParams) (h : StoreInv s) where
  abbrev stored :
      Result (RunRecord Json) × MemoryState Json → Result (RunRecord Json) × MemoryStore Json
  stored (result, state) = (result, record s { state = state })

  revoke_lease-Revoked :
      (state : MemoryState Json) (lease_id : Option String)
      → state.leases ≡ s.state.leases
      → Revoked s params lease_id (revoke_lease state params.requested_at_epoch_ms lease_id).leases
  unfolding revoke_lease request_revoke
  revoke_lease-Revoked state none same = same
  revoke_lease-Revoked state (some lease_id) same =
      ap (modify lease_id (request_revoke params.requested_at_epoch_ms)) same

  finish-Requests :
      (run : RunRecord Json) (attempt : AttemptRecord)
      → get params.run_id s.state.runs ≡ some run
      → get attempt.id s.state.attempts ≡ some attempt
      → runs_for params.run_id attempt ≡ true
      → Requests s params run (stored (cancel_running s.state params (some attempt)))
  unfolding cancel_running cancel_attempt finish_cancel request_cancel mark_requested
  finish-Requests run attempt found own passes =
      let asked : MemoryState Json = record s.state {
        attempts =
            insert attempt.id (request_cancel params.requested_at_epoch_ms attempt)
              s.state.attempts;
      } in
      let kept = revoke_lease_keeps asked params.requested_at_epoch_ms attempt.lease_id in
      let found' = ap (get params.run_id) kept.1 ∙ found in
      rw (own, cancel_attempt, found', finish_cancel)
        (record {
          asked = mark_requested run;
          answer = refl;
          same = record {
            id = refl;
            job_id = refl;
            max_attempts = refl;
            scheduled = refl;
            trigger = refl;
          };
          status = refl;
          count = refl;
          attempt = attempt;
          found = own;
          of_run = passes;
          runs = ap (insert params.run_id (mark_requested run)) kept.1;
          attempts = kept.2;
          leases = revoke_lease-Revoked asked attempt.lease_id refl;
          jobs = kept.0;
        })

  find-none :
      (p : AttemptRecord → Bool) (xs : List AttemptRecord)
      → find p xs ≡ none
      → All (λ a. p a ≡ false) xs
  unfolding find
  find-none p [] e = tt
  find-none p (a ∷ xs) e = elim (Bool-cases (p a)) [
    | inl here ↦ absurd (ground arith)
    | inr passed ↦ (passed, find-none p xs (rw (passed, find) at e))
  ]

  cancel_running-Cancels :
      (run : RunRecord Json) (found : Option AttemptRecord)
      → get params.run_id s.state.runs ≡ some run
      → find (runs_for params.run_id) (values s.state.attempts) ≡ found
      → Cancels s params run RunStatus.running (stored (cancel_running s.state params found))
  unfolding cancel_running
  cancel_running-Cancels run none stored_run e =
      inr (find-none (runs_for params.run_id) (values s.state.attempts) e, refl)
  cancel_running-Cancels run (some attempt) stored_run e =
      let (own, passes) =
        All-find (λ a. get a.id s.state.attempts ≡ some a) (runs_for params.run_id)
          (values s.state.attempts) (values-Keyed (λ a. a.id) s.state.attempts h.inv.attempts_keyed)
          e in
      inl (finish-Requests run attempt stored_run own passes)

  cancel_by_status-Cancels :
      (run : RunRecord Json) (status : RunStatus)
      → get params.run_id s.state.runs ≡ some run
      → Cancels s params run status (stored (cancel_by_status s.state params run status))
  unfolding cancel_by_status cancel_queued is_running_for
  cancel_by_status-Cancels run RunStatus.queued found = record {
    canceled = cancel_queued run;
    answer = refl;
    same = record {
      id = refl;
      job_id = refl;
      max_attempts = refl;
      scheduled = refl;
      trigger = refl;
    };
    status = refl;
    count = refl;
    runs = refl;
    attempts = refl;
    leases = refl;
    jobs = refl;
  }
  cancel_by_status-Cancels run RunStatus.running found =
      cancel_running-Cancels run (find (runs_for params.run_id) (values s.state.attempts)) found
        refl
  cancel_by_status-Cancels run RunStatus.succeeded found = refl
  cancel_by_status-Cancels run RunStatus.failed found = refl
  cancel_by_status-Cancels run RunStatus.timed_out found = refl
  cancel_by_status-Cancels run RunStatus.canceled found = refl

  cancel_found-Outcome :
      (run : Option (RunRecord Json))
      → get params.run_id s.state.runs ≡ run
      → Outcome s params run (stored (cancel_found s.state params run))
  unfolding cancel_found
  cancel_found-Outcome none found = refl
  cancel_found-Outcome (some run) found = cancel_by_status-Cancels run run.status found

  -- From a store that keeps the invariant, cancelling goes by the run's status. A queued run is canceled
  -- at once. For a running one, a running attempt of it and that attempt's lease are asked to stop, and
  -- the run's status stays; without such an attempt, and for a run that has finished or is not
  -- there, the answer is an error and the store stays as it is. Nothing else is written to runs,
  -- attempts, leases and jobs.
  pub cancel_run-Outcome : Outcome s params (get params.run_id s.state.runs) (cancel_run s params)
  unfolding cancel_run
  cancel_run-Outcome = cancel_found-Outcome (get params.run_id s.state.runs) refl
