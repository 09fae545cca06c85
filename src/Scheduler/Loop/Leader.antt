-- ===== src/Scheduler/Loop/Leader.antt =====
-- crates/gum-scheduler/src/main.rs: two schedulers over one store, here the one in memory.
use gum.Prelude.{
  ◌≡◌, ◌∙◌, sym, refl, true, false, some, List, String, str_eq, arith, ap, inl, inr, Option-cases,
  Bool-cases,
}
use gum.Prelude.Int.{ℤ, leb_ℤ, saturating_add, secs_to_ms}
use gum.Types.{Result, ok, err, Result-cases, some_inj}
use gum.Models.{RunRecord, ProviderHealthRecord}
use gum.Queries.Schedule.Cron.{Calendar}
use gum.Store.{MemoryStore}
use gum.Store.Recover.{recover_lost_attempts}
use gum.Store.Recover.Leases.{recover_lost_attempts_leases}
use gum.Store.Runners.{try_acquire_control_lease}
use gum.Store.Runners.Exclusive.{refused_while_held}
use gum.Store.Instance.{memory_store}
use gum.Api.Json.{JsonLibrary}
use gum.Api.Routes.{RunResponse}
use gum.Api.Service.Runs.{tick_schedules}
use gum.Api.Service.Runs.Leases.{tick_schedules_leases}
use gum.Scheduler.Probes.{HttpLibrary}
use gum.Scheduler.Probes.Run.{run_provider_probes}
use gum.Scheduler.Probes.Run.Leases.{leases_of, run_provider_probes_leases}
use gum.Scheduler.Loop.{Round, leader_params, finish_round, tick_and_probe, round}

module _ {Json : Type 0} (http : HttpLibrary Json) (json : JsonLibrary Json) (empty_object : Json)
    (calendar : Calendar) where
  finish_round_keeps :
      (recovered : List (RunRecord Json)) (created : List RunResponse)
      (probed : Result (List ProviderHealthRecord) × MemoryStore Json)
      → (finish_round http json (memory_store empty_object calendar) recovered created probed).1
        ≡ probed.1
  unfolding finish_round
  finish_round_keeps recovered created (ok updates, s) = refl
  finish_round_keeps recovered created (err e, s) = refl

  tick_and_probe_leases :
      (now listed_at : ℤ) (recovered : Result (List (RunRecord Json)) × MemoryStore Json)
      (result : Result (Round Json)) (t : MemoryStore Json)
      → tick_and_probe http json (memory_store empty_object calendar) now listed_at recovered
        ≡ some (result, t)
      → t.state.control_leases ≡ leases_of recovered
  unfolding tick_and_probe
  tick_and_probe_leases now listed_at (err e, s) result t h =
      sym (ap (λ p. p.1.state.control_leases) (some_inj h))
  tick_and_probe_leases now listed_at (ok recovered, s) result t h =
      elim (Option-cases
        (tick_schedules (memory_store empty_object calendar) json s listed_at now)) [
          | inl endless ↦ ground arith
          | inr ((ticked, u), done) ↦
              let kept =
                tick_schedules_leases json empty_object calendar s u listed_at now ticked done in
              elim (Result-cases ticked) [
                | inr (message, failed) ↦
                    sym (
                      ap (λ p. p.1.state.control_leases)
                        (some_inj (rw (done, failed, tick_and_probe) at h)))
                    ∙ kept
                | inl (created, fine) ↦
                    sym (
                      ap (λ p. p.1.state.control_leases)
                        (some_inj (rw (done, fine, tick_and_probe) at h)))
                    ∙ ap (λ v. v.state.control_leases)
                        (finish_round_keeps recovered created
                          (run_provider_probes http (memory_store empty_object calendar) u now))
                    ∙ run_provider_probes_leases http empty_object calendar now u
                    ∙ kept
              ]
        ]

  round_granted :
      (leader_id : String) (s t : MemoryStore Json) (now listed_at : ℤ)
      (recovered : List (RunRecord Json)) (created : List RunResponse)
      (updates : List ProviderHealthRecord)
      → round http json (memory_store empty_object calendar) leader_id s now listed_at
        ≡ some (ok (Round.led recovered created updates), t)
      → (u : MemoryStore Json) × (try_acquire_control_lease s (leader_params leader_id now)
          ≡ (ok true, u))
        × (t.state.control_leases ≡ u.state.control_leases)
  unfolding round
  round_granted leader_id s t now listed_at recovered created updates h =
      let asked = try_acquire_control_lease s (leader_params leader_id now) in
      elim (Result-cases asked.0) [
        | inr (message, failed) ↦ ground (arith, rw (failed, round) at h)
        | inl (is_leader, answered) ↦ elim (Bool-cases is_leader) [
          | inl leads ↦ (
            asked.1,
            ap (λ a. (a, asked.1)) (answered ∙ ap ok leads),
            tick_and_probe_leases now listed_at (recover_lost_attempts asked.1 now)
                  (ok (Round.led recovered created updates)) t (rw (answered, leads, round) at h)
                ∙ recover_lost_attempts_leases asked.1 now,
          )
          | inr waits ↦ ground (arith, rw (answered, waits, round) at h)
        ]
      ]

  -- For 15 seconds from a round that a scheduler has led, a round of a scheduler with another name, over the
  -- store in memory as the first has left it, only stands by: it recovers, schedules and probes nothing, and
  -- leaves the store as it is.
  pub round_exclusive :
      (first second : String) (s t : MemoryStore Json) (now listed_at later listed_later : ℤ)
      (recovered : List (RunRecord Json)) (created : List RunResponse)
      (updates : List ProviderHealthRecord)
      → round http json (memory_store empty_object calendar) first s now listed_at
        ≡ some (ok (Round.led recovered created updates), t)
      → str_eq first second ≡ false
      → leb_ℤ (saturating_add now (secs_to_ms 15)) later ≡ false
      → round http json (memory_store empty_object calendar) second t later listed_later
        ≡ some (ok Round.standby, t)
  unfolding round
  round_exclusive first second s t now listed_at later listed_later recovered created updates h
        other soon =
      let (u, granted, kept) = round_granted first s t now listed_at recovered created updates h in
      let refused =
        refused_while_held s u t (leader_params first now) (leader_params second later) granted kept
          refl other soon in
      rw (ap (λ answer. answer.0) refused, round)
        (ap (λ answer. some (ok Round.standby, answer.1)) refused)
