-- ===== src/Store/Tick/Leases.antt =====
-- `tick_schedules` of crates/gum-store/src/memory.rs and the control leases.
use gum.Prelude.{◌≡◌, ◌∙◌, refl, inl, inr, none, some, List, [], ◌∷◌, arith, subst}
use gum.Prelude.Int.{ℤ}
use gum.Prelude.Lists.{filter}
use gum.Map.{values}
use gum.Types.{Result, ok, err}
use gum.Models.{JobRecord, RunRecord}
use gum.Queries.Schedule.Cron.{Calendar}
use gum.Queries.Schedule.Due.{Call-cases}
use gum.Store.{MemoryStore}
use gum.Store.Tick.{
  fire, fire_all, due_times, Ticked, with_created, tick_jobs, is_recurring, tick_schedules,
}

module _ {Json : Type 0} (empty_object : Json) where
  fire_leases :
      (job : JobRecord) (due_ms : ℤ) (s : MemoryStore Json)
      → (fire empty_object job due_ms s).0.state.control_leases ≡ s.state.control_leases
  unfolding fire
  fire_leases job due_ms s = ground arith

  fire_all_leases :
      (job : JobRecord) (due : List ℤ) (s : MemoryStore Json)
      → (fire_all empty_object job due s).0.state.control_leases ≡ s.state.control_leases
  unfolding fire_all
  fire_all_leases job [] s = refl
  fire_all_leases job (due_ms ∷ due) s =
      fire_all_leases job due (fire empty_object job due_ms s).0 ∙ fire_leases job due_ms s

  module _ (calendar : Calendar) (now : ℤ) where
    -- The control leases, if the tick returns.
    abbrev Keeps : MemoryStore Json → Ticked empty_object calendar now → Type 0
    Keeps s none = Unit
    Keeps s (some (result, t)) = t.state.control_leases ≡ s.state.control_leases

    Keeps-after :
        (s t : MemoryStore Json) (created : List (RunRecord Json))
        (rest : Ticked empty_object calendar now)
        → t.state.control_leases ≡ s.state.control_leases
        → Keeps t rest
        → Keeps s (with_created empty_object calendar now created rest)
    Keeps-after s u created none first h = tt
    Keeps-after s u created (some (ok more, t)) first h = h ∙ first
    Keeps-after s u created (some (err e, t)) first h = h ∙ first

    tick_jobs-Keeps :
        (jobs : List JobRecord) (s : MemoryStore Json)
        → Keeps s (tick_jobs empty_object calendar now jobs s)
    unfolding tick_jobs
    tick_jobs-Keeps [] s = refl
    tick_jobs-Keeps (job ∷ jobs) s = elim (Call-cases (due_times empty_object calendar now s job)) [
      | inl endless ↦ rw (endless, tick_jobs) tt
      | inr (inl (message, refused)) ↦ rw (refused, tick_jobs) refl
      | inr (inr (due, e)) ↦
          rw (e, tick_jobs)
            (Keeps-after s (fire_all empty_object job due s).0 (fire_all empty_object job due s).1
              (tick_jobs empty_object calendar now jobs (fire_all empty_object job due s).0)
              (fire_all_leases job due s)
              (tick_jobs-Keeps jobs (fire_all empty_object job due s).0))
    ]

    pub tick_schedules_leases :
        (s t : MemoryStore Json) (result : Result (List (RunRecord Json)))
        → tick_schedules empty_object calendar now s ≡ some (result, t)
        → t.state.control_leases ≡ s.state.control_leases
    unfolding tick_schedules
    tick_schedules_leases s t result h =
        subst (Keeps s) h (
          tick_jobs-Keeps (filter (is_recurring empty_object calendar now) (values s.state.jobs)) s)
