-- ===== src/Api/Service/Runs/Leases.antt =====
-- crates/gum-api/src/service.rs: `tick_schedules` over the in-memory store, and the control leases.
use gum.Prelude.{◌≡◌, ◌∙◌, sym, refl, some, List, String, arith, ap, inl, inr, Option-cases}
use gum.Prelude.Int.{ℤ}
use gum.Map.{Map}
use gum.Types.{Result, ok, err, Result-cases, some_inj}
use gum.Models.{RunRecord, ConcurrencyStatusRecord}
use gum.Queries.Schedule.Cron.{Calendar}
use gum.Store.{MemoryStore}
use gum.Store.Tick.Leases.{tick_schedules_leases as store_tick_leases}
use gum.Store.Tick.{tick_schedules as store_tick_schedules}
use gum.Store.Instance.{memory_store}
use gum.Api.Json.{JsonLibrary}
use gum.Api.Routes.{RunResponse}
use gum.Api.Service.Views.{read_limits}
use gum.Api.Service.Runs.{respond_all, tick_schedules}

module _ {Json : Type 0} (json : JsonLibrary Json) (empty_object : Json) (calendar : Calendar) where
  respond_all_keeps :
      (concurrency : Map ConcurrencyStatusRecord) (waiting : List String)
      (ticked : Result (List (RunRecord Json)) × MemoryStore Json)
      → (respond_all (memory_store empty_object calendar) json concurrency waiting ticked).1
        ≡ ticked.1
  unfolding respond_all
  respond_all_keeps concurrency waiting (ok runs, s) = refl
  respond_all_keeps concurrency waiting (err e, s) = refl

  pub tick_schedules_leases :
      (s t : MemoryStore Json) (listed_at now : ℤ) (result : Result (List RunResponse))
      → tick_schedules (memory_store empty_object calendar) json s listed_at now ≡ some (result, t)
      → t.state.control_leases ≡ s.state.control_leases
  unfolding tick_schedules
  tick_schedules_leases s t listed_at now result h =
      elim (Result-cases (read_limits (memory_store empty_object calendar) s listed_at)) [
        | inr (message, failed) ↦
            sym (ap (λ p. p.1.state.control_leases) (some_inj (rw (failed, tick_schedules) at h)))
        | inl ((concurrency, waiting), read) ↦
            elim (Option-cases (store_tick_schedules empty_object calendar now s)) [
              | inl endless ↦ ground arith
              | inr ((ticked, u), done) ↦
                  sym (
                    ap (λ p. p.1.state.control_leases)
                      (some_inj (rw (read, done, tick_schedules) at h)))
                  ∙ ap (λ v. v.state.control_leases)
                      (respond_all_keeps concurrency waiting (ticked, u))
                  ∙ store_tick_leases empty_object calendar now s u ticked done
            ]
      ]
