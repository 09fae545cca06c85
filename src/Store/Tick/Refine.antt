-- ===== src/Store/Tick/Refine.antt =====
-- `tick_schedules` of crates/gum-store/src/memory.rs against the abstract machine.
use gum.Prelude.{
  ◌&&◌, str_eq, false, subst, refl, ℕ, ◌+◌, ◌^◌, ◌≤◌, ◌<◌, ◌≡◌, none, some, List, [], ◌∷◌, arith,
  Bool-cases, inl, inr,
}
use gum.Prelude.Int.{ℤ, eqb_ℤ}
use gum.Prelude.Lists.{All, length, All-filter, filter, any}
use gum.Map.{get, insert, values}
use gum.Types.{RunStatus, TriggerType, trigger_type_eq, Result, ok, err}
use gum.Models.{JobRecord, RunRecord}
use gum.Queries.Schedule.Cron.{Calendar}
use gum.Queries.Schedule.Due.{Call-cases}
use gum.Store.{MemoryStore, next_id, identifier, next_number}
use gum.Store.Enqueue.Refine.{RetriesFit, attempts_allowed_lem, submit_step}
use gum.Store.Tick.{
  already_exists, scheduled_run, fire, fire_all, due_times, Ticked, with_created, tick_jobs,
  is_recurring, tick_schedules,
}
use gum.Lifecycle.Ids.{next_number_lem}
use gum.Lifecycle.Refine.{StoreInv, Refines, Refines-refl, Refines-trans, Refines-StoreInv}

-- A run of a schedule waits for its moment, which no run of its job had.
pub record IsFired {Json : Type 0} (s : MemoryStore Json) (run : RunRecord Json) : Type 0 where
  pub new : get run.id s.state.runs ≡ none
  pub queued : run.status ≡ RunStatus.queued
  pub trigger : run.trigger_type ≡ TriggerType.schedule
  pub count : run.attempt_count ≡ 0
  pub unmatched :
      any
        (λ other.
          str_eq other.job_id run.job_id
          && trigger_type_eq other.trigger_type TriggerType.schedule
          && eqb_ℤ other.scheduled_at_epoch_ms run.scheduled_at_epoch_ms)
        (values s.state.runs)
      ≡ false

-- What of a store stays but for its runs.
pub record SameElse {Json : Type 0} (s t : MemoryStore Json) : Type 0 where
  pub attempts : t.state.attempts ≡ s.state.attempts
  pub leases : t.state.leases ≡ s.state.leases
  pub jobs : t.state.jobs ≡ s.state.jobs

-- So many runs of schedules are put into the store, one after another, and nothing else is written to
-- runs, attempts, leases and jobs.
pub data Fires {Json : Type 0} (s : MemoryStore Json) : ℕ → MemoryStore Json → Type 0 where
  unfired : Fires s 0 s
  fired :
      {n : ℕ} {t : MemoryStore Json} (u : MemoryStore Json) (run : RunRecord Json)
      → Fires s n t
      → IsFired t run
      → SameElse t u
      → u.state.runs ≡ insert run.id run t.state.runs
      → Fires s (n + 1) u

pub Fires-trans :
    {Json : Type 0} {s t u : MemoryStore Json} {m n : ℕ}
    → Fires s m t
    → Fires t n u
    → Fires s (m + n) u
Fires-trans {s} {t} {u} {m} first unfired = subst (λ k. Fires s k t) (omega arith) first
Fires-trans {s} {t} {m = m} first (fired {n} u run rest made same runs) =
    subst (λ k. Fires s k u) (omega arith) (fired u run (Fires-trans first rest) made same runs)

module _ {Json : Type 0} (empty_object : Json) where
  -- At most `n` identifiers are taken, and moves are made.
  record FiresTo (s : MemoryStore Json) (n : ℕ) (t : MemoryStore Json) : Type 0 where
    refines : Refines s t
    ids : t.ids ≤ s.ids + n
    taken : ℕ
    at_most : taken ≤ n
    fires : Fires s taken t

  nothing-FiresTo : (s : MemoryStore Json) → StoreInv s → (n : ℕ) → FiresTo s n s
  nothing-FiresTo s h n = record {
    refines = Refines-refl s h;
    ids = omega arith;
    taken = 0;
    at_most = omega arith;
    fires = unfired;
  }

  FiresTo-trans :
      {s t u : MemoryStore Json} (m n : ℕ) → FiresTo s m t → FiresTo t n u → FiresTo s (m + n) u
  FiresTo-trans m n p q = record {
    refines = Refines-trans p.refines q.refines;
    ids = omega (arith, p.ids, q.ids);
    taken = p.taken + q.taken;
    at_most = omega (arith, p.at_most, q.at_most);
    fires = Fires-trans p.fires q.fires;
  }

  fire-FiresTo :
      (job : JobRecord) (due_ms : ℤ) (s : MemoryStore Json)
      → RetriesFit job
      → StoreInv s
      → s.ids + 1 < 2 ^ 64
      → FiresTo s 1 (fire empty_object job due_ms s).0
  unfolding fire scheduled_run next_id already_exists
  fire-FiresTo job due_ms s fits h room = elim (Bool-cases (already_exists s.state job.id due_ms)) [
    | inl there ↦ rw (there, fire) (nothing-FiresTo s h _)
    | inr new ↦
        let next = next_number_lem s.ids room in
        let allowed = attempts_allowed_lem job fits in
        rw (new, fire)
          (record {
            refines =
                submit_step h room
                  (scheduled_run empty_object job due_ms (identifier "run" (next_number s.ids)))
                  refl refl refl (omega arith) (omega arith) refl refl refl refl;
            ids = omega arith;
            taken = 1;
            at_most = omega arith;
            fires =
                fired _
                  (scheduled_run empty_object job due_ms (identifier "run" (next_number s.ids)))
                  unfired
                  (record {
                    new = h.fresh.runs (next_number s.ids) (omega arith);
                    queued = refl;
                    trigger = refl;
                    count = refl;
                    unmatched = new;
                  })
                  (record { attempts = refl; leases = refl; jobs = refl }) refl;
          })
  ]

  fire_all-FiresTo :
      (job : JobRecord) (due : List ℤ) (s : MemoryStore Json)
      → RetriesFit job
      → StoreInv s
      → s.ids + length due < 2 ^ 64
      → FiresTo s (length due) (fire_all empty_object job due s).0
  unfolding fire_all
  fire_all-FiresTo job [] s fits h room = nothing-FiresTo s h _
  fire_all-FiresTo job (due_ms ∷ due) s fits h room =
      let first = fire-FiresTo job due_ms s fits h (omega arith) in
      let rest =
        fire_all-FiresTo job due (fire empty_object job due_ms s).0 fits
          (Refines-StoreInv h first.refines) (omega (arith, first.ids)) in
      subst (λ n. FiresTo s n (fire_all empty_object job (due_ms ∷ due) s).0) (omega arith)
        (FiresTo-trans 1 (length due) first rest)

  module _ (calendar : Calendar) (now : ℤ) where
    -- The due times that the tick comes to, before its end or the first schedule that is ill-formed.
    due_count : List JobRecord → MemoryStore Json → ℕ
    due_count [] s = 0
    due_count (job ∷ jobs) s = elim (due_times empty_object calendar now s job) [
      | none ↦ 0
      | some (err e) ↦ 0
      | some (ok due) ↦ length due + due_count jobs (fire_all empty_object job due s).0
    ]

    -- Whatever the tick returns, if it does.
    abbrev EndsIn : MemoryStore Json → ℕ → Ticked empty_object calendar now → Type 0
    EndsIn s n none = Unit
    EndsIn s n (some (result, t)) = FiresTo s n t

    EndsIn-after :
        {s t : MemoryStore Json} {m : ℕ} (n : ℕ) (created : List (RunRecord Json))
        (rest : Ticked empty_object calendar now)
        → FiresTo s m t
        → EndsIn t n rest
        → EndsIn s (m + n) (with_created empty_object calendar now created rest)
    EndsIn-after n created none first h = tt
    EndsIn-after n created (some (ok more, t)) first h = FiresTo-trans _ n first h
    EndsIn-after n created (some (err e, t)) first h = FiresTo-trans _ n first h

    tick_jobs-EndsIn :
        (jobs : List JobRecord) (s : MemoryStore Json)
        → All RetriesFit jobs
        → StoreInv s
        → s.ids + due_count jobs s < 2 ^ 64
        → EndsIn s (due_count jobs s) (tick_jobs empty_object calendar now jobs s)
    unfolding tick_jobs due_count
    tick_jobs-EndsIn [] s fits h room = nothing-FiresTo s h _
    tick_jobs-EndsIn (job ∷ jobs) s (fit, fits) h room =
        elim (Call-cases (due_times empty_object calendar now s job)) [
          | inl endless ↦ rw (endless, tick_jobs, due_count) tt
          | inr (inl (m, refused)) ↦ rw (refused, tick_jobs, due_count) (nothing-FiresTo s h _)
          | inr (inr (due, e)) ↦
              let room' : s.ids + (length due + due_count jobs (fire_all empty_object job due s).0)
                  < 2 ^ 64 =
                rw (e, due_count) at room in
              let first = fire_all-FiresTo job due s fit h (omega arith) in
              rw (e, tick_jobs, due_count)
                (EndsIn-after _ (fire_all empty_object job due s).1
                  (tick_jobs empty_object calendar now jobs (fire_all empty_object job due s).0)
                  first
                  (tick_jobs-EndsIn jobs (fire_all empty_object job due s).0 fits
                    (Refines-StoreInv h first.refines) (omega (arith, first.ids))))
        ]

module _ {Json : Type 0} (empty_object : Json) (calendar : Calendar) (now : ℤ)
    (s : MemoryStore Json) where
  -- The due times of all the jobs that the tick reads.
  unfoldable pub tick_due_count : ℕ
  unfolding due_count is_recurring due_times fire_all
  tick_due_count =
      due_count empty_object calendar now
        (filter (is_recurring empty_object calendar now) (values s.state.jobs)) s

module _ {Json : Type 0} (empty_object : Json) (calendar : Calendar) (now : ℤ)
    (s : MemoryStore Json) (h : StoreInv s) (fits : All RetriesFit (values s.state.jobs)) where
  schedules-FiresTo :
      (result : Result (List (RunRecord Json))) (t : MemoryStore Json)
      → s.ids + tick_due_count empty_object calendar now s < 2 ^ 64
      → tick_schedules empty_object calendar now s ≡ some (result, t)
      → FiresTo empty_object s (tick_due_count empty_object calendar now s) t
  unfolding tick_schedules tick_due_count
  schedules-FiresTo result t room e =
      subst
        (EndsIn empty_object calendar now s (
          due_count empty_object calendar now
            (filter (is_recurring empty_object calendar now) (values s.state.jobs)) s))
        e
        (tick_jobs-EndsIn empty_object calendar now
          (filter (is_recurring empty_object calendar now) (values s.state.jobs)) s
          (All-filter RetriesFit (is_recurring empty_object calendar now) (values s.state.jobs)
            fits)
          h room)

  pub tick_schedules-Refines :
      (result : Result (List (RunRecord Json))) (t : MemoryStore Json)
      → s.ids + tick_due_count empty_object calendar now s < 2 ^ 64
      → tick_schedules empty_object calendar now s ≡ some (result, t)
      → Refines s t × (t.ids ≤ s.ids + tick_due_count empty_object calendar now s)
  tick_schedules-Refines result t room e =
      let ends = schedules-FiresTo result t room e in (ends.refines, ends.ids)

  -- From a store that keeps the invariant, whose jobs have fewer than 2 ^ 32 - 1 retries, and with
  -- an identifier left for each due time, a tick that returns, with runs or an error, has put at most
  -- one new run into the store for each due time, one after another: each waits, is of a schedule, and
  -- comes at a moment for which no run of its job's schedule was there, in whatever state. Nothing else
  -- is written to runs, attempts, leases and jobs.
  pub tick_schedules-Fires :
      (result : Result (List (RunRecord Json))) (t : MemoryStore Json)
      → s.ids + tick_due_count empty_object calendar now s < 2 ^ 64
      → tick_schedules empty_object calendar now s ≡ some (result, t)
      → (n : ℕ) × (n ≤ tick_due_count empty_object calendar now s) × Fires s n t
  tick_schedules-Fires result t room e =
      let ends = schedules-FiresTo result t room e in (ends.taken, ends.at_most, ends.fires)
