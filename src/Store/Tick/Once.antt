-- ===== src/Store/Tick/Once.antt =====
-- Fire times that come twice, in `tick_schedules` of crates/gum-store/src/memory.rs.
use gum.Prelude.{
  ℕ, ◌+◌, ◌^◌, ◌<◌, ◌≡◌, Bool, false, some, List, [], ◌∷◌, String, str_eq, eq_iff, arith, inl, inr,
  ◌⊎◌, Bool-cases, ◌∙◌, sym, subst,
}
use gum.Prelude.Int.{ℤ}
use gum.Prelude.Lists.{any, All}
use gum.Map.{Map, get, insert, values, get-insert, All-get}
use gum.Types.{TriggerType, trigger_type_eq, Result}
use gum.Models.{RunRecord}
use gum.Queries.Schedule.Cron.{Calendar}
use gum.Store.{MemoryStore}
use gum.Store.Tick.{tick_schedules}
use gum.Store.Tick.Refine.{IsFired, Fires, unfired, fired, tick_due_count, tick_schedules-Fires}
use gum.Store.Enqueue.Refine.{RetriesFit}
use gum.Lifecycle.Refine.{StoreInv}

-- Two runs of schedules have one job and one moment.
abbrev pub Coincide : {Json : Type 0} → RunRecord Json → RunRecord Json → Type 0
Coincide run other =
    (run.trigger_type ≡ TriggerType.schedule)
    × (other.trigger_type ≡ TriggerType.schedule)
    × (run.job_id ≡ other.job_id)
    × (run.scheduled_at_epoch_ms ≡ other.scheduled_at_epoch_ms)

-- For each moment at most one run of a job's schedule is there, in whatever state.
abbrev pub FiresOnce : {Json : Type 0} → Map (RunRecord Json) → Type 0
FiresOnce {Json} runs =
    (key other_key : String) (run other : RunRecord Json)
    → get key runs ≡ some run
    → get other_key runs ≡ some other
    → Coincide run other
    → key ≡ other_key

none_passes :
    {A : Type 0} (p : A → Bool) (xs : List A) → any p xs ≡ false → All (λ x. p x ≡ false) xs
unfolding any
none_passes p [] h = tt
none_passes p (x ∷ xs) h = (ground arith, none_passes p xs (ground arith))

get-insert_cases :
    {V : Type 0} (k j : String) (v : V) (m : Map V) {w : V}
    → get j (insert k v m) ≡ some w
    → ((k ≡ j) × (w ≡ v)) ⊎ (get j m ≡ some w)
get-insert_cases k j v m e = elim (Bool-cases (str_eq k j)) [
  | inl same ↦ inl (ground (arith, get-insert k j v m, eq_iff k j))
  | inr other ↦ inr (ground (arith, get-insert k j v m))
]

module _ {Json : Type 0} where
  -- A run that was there does not coincide with the one that is put in.
  apart :
      (s : MemoryStore Json) (run other : RunRecord Json) (key : String)
      → IsFired s run
      → get key s.state.runs ≡ some other
      → Coincide run other
      → ⊥
  unfolding trigger_type_eq
  apart s run other key made found (first, second, job, moment) =
      let passed =
        All-get _ key s.state.runs (none_passes _ (values s.state.runs) made.unmatched) found in
      ground (arith, eq_iff other.job_id run.job_id)

  fired-FiresOnce :
      (s : MemoryStore Json) (run : RunRecord Json)
      → IsFired s run
      → FiresOnce s.state.runs
      → FiresOnce (insert run.id run s.state.runs)
  fired-FiresOnce s run made once key other_key first second at_key at_other same =
      elim (get-insert_cases run.id key run s.state.runs at_key) [
        | inl (here, is_new) ↦ elim (get-insert_cases run.id other_key run s.state.runs at_other) [
          | inl (there, is_same) ↦ sym here ∙ there
          | inr old ↦
              absurd
                (apart s run second other_key made old (subst (λ r. Coincide r second) is_new same))
        ]
        | inr old ↦ elim (get-insert_cases run.id other_key run s.state.runs at_other) [
          | inl (there, is_new) ↦ absurd (
              apart s run first key made old
                (subst (λ r. Coincide r first) is_new (same.1, same.0, sym same.2, sym same.3)))
          | inr still ↦ once key other_key first second old still same
        ]
      ]

  Fires-FiresOnce :
      {s t : MemoryStore Json} {n : ℕ}
      → Fires s n t
      → FiresOnce s.state.runs
      → FiresOnce t.state.runs
  Fires-FiresOnce unfired once = once
  Fires-FiresOnce (fired {t = t} u run before made same runs) once =
      subst FiresOnce (sym runs) (fired-FiresOnce t run made (Fires-FiresOnce before once))

module _ {Json : Type 0} (empty_object : Json) (calendar : Calendar) (now : ℤ)
    (s : MemoryStore Json) (h : StoreInv s) (fits : All RetriesFit (values s.state.jobs)) where
  -- A tick that returns, under the conditions on the store for ticks, never leaves two runs of a job's
  -- schedule for the same moment, whatever their states, if there were none before: a moment that is
  -- due again has its run already.
  pub tick_schedules-FiresOnce :
      (result : Result (List (RunRecord Json))) (t : MemoryStore Json)
      → s.ids + tick_due_count empty_object calendar now s < 2 ^ 64
      → FiresOnce s.state.runs
      → tick_schedules empty_object calendar now s ≡ some (result, t)
      → FiresOnce t.state.runs
  tick_schedules-FiresOnce result t room once e =
      let (n, at_most, fires) =
        tick_schedules-Fires empty_object calendar now s h fits result t room e in
      Fires-FiresOnce fires once
