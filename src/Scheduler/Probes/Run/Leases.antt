-- ===== src/Scheduler/Probes/Run/Leases.antt =====
-- The probes of crates/gum-scheduler/src/probes.rs over the in-memory store, and the control leases.
use gum.Prelude.{
  ℕ, ◌≡◌, ◌∙◌, refl, not, Option, List, [], ◌∷◌, ap, inl, inr, Bool-cases, Option-cases,
}
use gum.Prelude.Int.{ℤ}
use gum.Map.{Map, get, values}
use gum.Prelude.Sort.{sort_by}
use gum.Prelude.Order.{not_after, cmp_text}
use gum.Types.{Result, ok, err, Result-cases}
use gum.Queries.Params.{RecordProviderCheckParams}
use gum.Prelude.Lists.{length}
use gum.Store.Deploys.{record_provider_check}
use gum.Models.{ProviderTargetRecord, ProviderHealthRecord, ControlLeaseRecord}
use gum.Queries.Schedule.Cron.{Calendar}
use gum.Store.{MemoryStore}
use gum.Store.Deploys.Leases.{record_provider_check_leases, set_provider_health_leases}
use gum.Store.Listings.{list_provider_targets, list_provider_health}
use gum.Store.Instance.{memory_store}
use gum.Scheduler.Probes.{HttpLibrary, ProbeResult, next_health_params}
use gum.Scheduler.Probes.Run.{
  record_probe, cons_updated, probe_target, probe_each, collect_health, run_provider_probes,
}

abbrev pub leases_of : {Json A : Type 0} → Result A × MemoryStore Json → Map ControlLeaseRecord
leases_of (result, s) = s.state.control_leases

module _ {Json : Type 0} (http : HttpLibrary Json) (empty_object : Json) (calendar : Calendar) where
  record_probe_leases :
      (target : ProviderTargetRecord Json) (previous : Option ProviderHealthRecord)
      (result : ProbeResult) (slow : ℕ) (now : ℤ) (s : MemoryStore Json)
      → leases_of
          (record_probe http (memory_store empty_object calendar) target previous result slow now s)
        ≡ s.state.control_leases
  unfolding record_probe
  record_probe_leases target previous result slow now s =
      let params : RecordProviderCheckParams = record {
        provider_target_id = target.id;
        status = result.status;
        latency_ms = result.latency_ms;
        error_class = result.error_class;
        status_code = result.status_code;
        checked_at_epoch_ms = now;
      } in
      let checked = record_provider_check_leases s params in
      elim (Result-cases (record_provider_check s params).0) [
        | inl (check, done) ↦
            rw (done, record_probe)
              (set_provider_health_leases (record_provider_check s params).1
                  (next_health_params target previous result now slow)
                ∙ checked)
        | inr (message, failed) ↦ rw (failed, record_probe) checked
      ]

  cons_updated_leases :
      (r : ProviderHealthRecord) (rest : Result (List ProviderHealthRecord) × MemoryStore Json)
      → (cons_updated http (memory_store empty_object calendar) r rest).1 ≡ rest.1
  unfolding cons_updated
  cons_updated_leases r (ok rest, s) = refl
  cons_updated_leases r (err e, s) = refl

  probe_each_leases :
      (health : Map ProviderHealthRecord) (now : ℤ) (targets : List (ProviderTargetRecord Json))
      (s : MemoryStore Json)
      → leases_of (probe_each http (memory_store empty_object calendar) health now targets s)
        ≡ s.state.control_leases
  unfolding probe_each
  probe_each_leases health now [] s = refl
  probe_each_leases health now (target ∷ targets) s =
      let previous = get target.id health in
      let probed = λ (result : ProbeResult) (slow : ℕ).
        record_probe http (memory_store empty_object calendar) target previous result slow now s in
      let skipped = probe_each_leases health now targets s in
      elim (Bool-cases (not target.enabled)) [
        | inl off ↦ rw (off, probe_each) skipped
        | inr on ↦
            elim (Option-cases
              (probe_target http (length targets) target (get target.id health) now)) [
                | inl early ↦ rw (on, early, probe_each) skipped
                | inr ((result, slow), due) ↦
                    let written = record_probe_leases target previous result slow now s in
                    elim (Result-cases (probed result slow).0) [
                      | inl (r, done) ↦
                          rw (on, due, done, probe_each)
                            (ap (λ u. u.state.control_leases)
                                (cons_updated_leases r (
                                  probe_each http (memory_store empty_object calendar) health now
                                    targets (probed result slow).1))
                              ∙ probe_each_leases health now targets (probed result slow).1
                              ∙ written)
                      | inr (message, failed) ↦ rw (on, due, failed, probe_each) written
                    ]
              ]
      ]

  pub run_provider_probes_leases :
      (now : ℤ) (s : MemoryStore Json)
      → leases_of (run_provider_probes http (memory_store empty_object calendar) s now)
        ≡ s.state.control_leases
  unfolding run_provider_probes list_provider_targets list_provider_health
  run_provider_probes_leases now s =
      probe_each_leases
        (collect_health http (memory_store empty_object calendar) [] (
          sort_by (λ left right. not_after (cmp_text left.provider_slug right.provider_slug))
            (values s.state.provider_health)))
        now
        (sort_by (λ left right. not_after (cmp_text left.slug right.slug))
          (values s.state.provider_targets))
        s
