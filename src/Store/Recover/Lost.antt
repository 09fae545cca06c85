-- ===== src/Store/Recover/Lost.antt =====
-- The attempts that `recover_lost_attempts_locked` of crates/gum-store/src/memory.rs takes for lost.
use gum.Prelude.{
  Bool, ◌||◌, ◌⊎◌, ◌≡◌, ◌∙◌, refl, ap, sym, subst, true, false, Option, none, some, List, [], ◌∷◌,
  String, str_eq, arith, Bool-cases, Option-cases, inl, inr,
}
use gum.Prelude.Int.{ℤ, leb_ℤ, saturating_add, secs_to_ms}
use gum.Prelude.Lists.{any, filter, filter_map, All}
use gum.Map.{Map, get, values}
use gum.Types.{AttemptStatus, attempt_status_eq}
use gum.Models.{AttemptRecord, LeaseRecord, RunnerRecord}
use gum.Store.{MemoryState}
use gum.Store.Recover.{is_running, is_closed, is_stale, lost_attempt, lost_by_lease}

is_stale_runner :
    (now : ℤ) (found : Option RunnerRecord)
    → is_stale found now ≡ true
    → (runner : RunnerRecord) × (found ≡ some runner)
      × (leb_ℤ
            (saturating_add runner.last_heartbeat_at_epoch_ms
              (secs_to_ms runner.heartbeat_timeout_secs))
            now
          ≡ true)
unfolding is_stale
is_stale_runner now none late = cc
is_stale_runner now (some runner) late = (runner, refl, late)

module _ {Json : Type 0} where
  -- The lease has expired, or its runner has missed its heartbeats.
  abbrev pub IsOverdue : MemoryState Json → ℤ → LeaseRecord → Type 0
  IsOverdue state now lease =
      (leb_ℤ lease.expires_at_epoch_ms now ≡ true)
      ⊎ ((runner : RunnerRecord) × (get lease.runner_id state.runners ≡ some runner)
          × (leb_ℤ
                (saturating_add runner.last_heartbeat_at_epoch_ms
                  (secs_to_ms runner.heartbeat_timeout_secs))
                now
              ≡ true))

  -- A running attempt whose lease is neither acknowledged nor released, and overdue.
  pub record IsLost (state : MemoryState Json) (now : ℤ) (attempt : AttemptRecord) : Type 0 where
    pub running : attempt.status ≡ AttemptStatus.running
    pub lease_id : String
    pub lease : LeaseRecord
    pub of_attempt : attempt.lease_id ≡ some lease_id
    pub held : get lease_id state.leases ≡ some lease
    pub unacked : lease.acked_at_epoch_ms ≡ none
    pub unreleased : lease.released_at_epoch_ms ≡ none
    pub overdue : IsOverdue state now lease

  -- The test of the loop's filter.
  abbrev pub IsFound : MemoryState Json → ℤ → AttemptRecord → Type 0
  IsFound state now attempt =
      (is_running attempt ≡ true) × (lost_attempt state now attempt ≡ some attempt.id)

  overdue_lem :
      (state : MemoryState Json) (now : ℤ) (lease : LeaseRecord)
      → (leb_ℤ lease.expires_at_epoch_ms now || is_stale (get lease.runner_id state.runners) now)
        ≡ true
      → IsOverdue state now lease
  overdue_lem state now lease late = elim (Bool-cases (leb_ℤ lease.expires_at_epoch_ms now)) [
    | inl expired ↦ inl expired
    | inr lasts ↦ inr (is_stale_runner now (get lease.runner_id state.runners) (rw lasts at late))
  ]

  lost_by_lease-IsLost :
      (state : MemoryState Json) (now : ℤ) (attempt : AttemptRecord) (lease_id : String)
      (found : Option LeaseRecord)
      → attempt.status ≡ AttemptStatus.running
      → attempt.lease_id ≡ some lease_id
      → get lease_id state.leases ≡ found
      → lost_by_lease state now attempt found ≡ some attempt.id
      → IsLost state now attempt
  unfolding lost_by_lease is_closed
  lost_by_lease-IsLost state now attempt lease_id none running of_attempt held lost = cc
  lost_by_lease-IsLost state now attempt lease_id (some lease) running of_attempt held lost =
      record {
        running = running;
        lease_id = lease_id;
        lease = lease;
        of_attempt = of_attempt;
        held = held;
        unacked = ground arith;
        unreleased = ground arith;
        overdue = overdue_lem state now lease (ground arith);
      }

  with_lease-IsLost :
      (state : MemoryState Json) (now : ℤ) (attempt : AttemptRecord) (lease_id : Option String)
      → attempt.lease_id ≡ lease_id
      → IsFound state now attempt
      → IsLost state now attempt
  unfolding lost_attempt is_running attempt_status_eq lost_by_lease
  with_lease-IsLost state now attempt none of_attempt (running, lost) =
      let lost' = rw of_attempt at lost in cc
  with_lease-IsLost state now attempt (some lease_id) of_attempt (running, lost) =
      lost_by_lease-IsLost state now attempt lease_id (get lease_id state.leases) (ground arith)
        of_attempt refl (rw of_attempt at lost)

  pub IsFound-IsLost :
      (state : MemoryState Json) (now : ℤ) (attempt : AttemptRecord)
      → IsFound state now attempt
      → IsLost state now attempt
  IsFound-IsLost state now attempt is = with_lease-IsLost state now attempt attempt.lease_id refl is

  pub IsLost-IsFound :
      (state : MemoryState Json) (now : ℤ) (attempt : AttemptRecord)
      → IsLost state now attempt
      → IsFound state now attempt
  unfolding is_running lost_attempt lost_by_lease is_closed is_stale
  IsLost-IsFound state now attempt h = (
    rw h.running refl,
    elim h.overdue [
      | inl expired ↦ rw (h.of_attempt, h.held, h.unacked, h.unreleased, expired) refl
      | inr (runner, there, late) ↦ elim (Bool-cases (leb_ℤ h.lease.expires_at_epoch_ms now)) [
        | inl expired ↦ rw (h.of_attempt, h.held, h.unacked, h.unreleased, expired) refl
        | inr lasts ↦ rw (h.of_attempt, h.held, h.unacked, h.unreleased, lasts, there, late) refl
      ]
    ],
  )

  lost_by_lease_own :
      (state : MemoryState Json) (now : ℤ) (attempt : AttemptRecord) (found : Option LeaseRecord)
      (id : String)
      → lost_by_lease state now attempt found ≡ some id
      → id ≡ attempt.id
  unfolding lost_by_lease
  lost_by_lease_own state now attempt none id lost = cc
  lost_by_lease_own state now attempt (some lease) id lost = ground arith

  lost_attempt_own :
      (state : MemoryState Json) (now : ℤ) (attempt : AttemptRecord) (lease_id : Option String)
      (id : String)
      → attempt.lease_id ≡ lease_id
      → lost_attempt state now attempt ≡ some id
      → id ≡ attempt.id
  unfolding lost_attempt lost_by_lease
  lost_attempt_own state now attempt none id of_attempt lost =
      let lost' = rw of_attempt at lost in cc
  lost_attempt_own state now attempt (some lease_id) id of_attempt lost =
      lost_by_lease_own state now attempt (get lease_id state.leases) id (rw of_attempt at lost)

  module _ (state : MemoryState Json) (now : ℤ) where
    abbrev pub lost_ids : List AttemptRecord → List String
    lost_ids attempts = filter_map (lost_attempt state now) (filter is_running attempts)

    lost_ids-over :
        (a : AttemptRecord) (xs : List AttemptRecord)
        → is_running a ≡ false
        → lost_ids (a ∷ xs) ≡ lost_ids xs
    lost_ids-over a xs over = rw over refl

    lost_ids-held :
        (a : AttemptRecord) (xs : List AttemptRecord)
        → is_running a ≡ true
        → lost_attempt state now a ≡ none
        → lost_ids (a ∷ xs) ≡ lost_ids xs
    lost_ids-held a xs running held = rw (running, filter, filter_map, held) refl

    lost_ids-lost :
        (a : AttemptRecord) (xs : List AttemptRecord) (id : String)
        → is_running a ≡ true
        → lost_attempt state now a ≡ some id
        → lost_ids (a ∷ xs) ≡ id ∷ lost_ids xs
    lost_ids-lost a xs id running lost = rw (running, filter, filter_map, lost) refl

    module _ (p : String → Bool) where
      any-here :
          (a : AttemptRecord) (xs : List AttemptRecord)
          → IsFound state now a
          → p a.id ≡ true
          → any p (lost_ids (a ∷ xs)) ≡ true
      unfolding any
      any-here a xs is hit = ap (any p) (lost_ids-lost a xs a.id is.0 is.1) ∙ rw hit refl

      any-later :
          (a : AttemptRecord) (xs : List AttemptRecord)
          → any p (lost_ids xs) ≡ true
          → any p (lost_ids (a ∷ xs)) ≡ true
      unfolding any
      any-later a xs rest = elim (Bool-cases (is_running a)) [
        | inr over ↦ ap (any p) (lost_ids-over a xs over) ∙ rest
        | inl running ↦ elim (Option-cases (lost_attempt state now a)) [
          | inl held ↦ ap (any p) (lost_ids-held a xs running held) ∙ rest
          | inr (id, lost) ↦
              ap (any p) (lost_ids-lost a xs id running lost)
              ∙ elim (Bool-cases (p id)) [ inl e ↦ rw e refl | inr e ↦ rw e rest ]
        ]
      ]

      -- What the filter finds has its identifier in the list.
      pub any_found :
          (key : String) (m : Map AttemptRecord) {attempt : AttemptRecord}
          → get key m ≡ some attempt
          → IsFound state now attempt
          → p attempt.id ≡ true
          → any p (lost_ids (values m)) ≡ true
      unfolding get values
      any_found key [] found is hit = cc
      any_found key ((j, a) ∷ m) {attempt} found is hit = elim (Bool-cases (str_eq j key)) [
        | inl same ↦
            let here : attempt ≡ a = ground arith in
            any-here a (values m) (subst (IsFound state now) here is)
              (subst (λ b. p b.id ≡ true) here hit)
        | inr other ↦ any-later a (values m) (any_found key m (rw other at found) is hit)
      ]

      -- An identifier of the list is that of an attempt that the filter finds.
      pub found_any :
          (C : Type 0) (xs : List AttemptRecord)
          → All (λ a. IsFound state now a → p a.id ≡ true → C) xs
          → any p (lost_ids xs) ≡ true
          → C
      unfolding any
      found_any C [] h hit = cc
      found_any C (a ∷ xs) (first, rest) hit = elim (Bool-cases (is_running a)) [
        | inr over ↦ found_any C xs rest (sym (ap (any p) (lost_ids-over a xs over)) ∙ hit)
        | inl running ↦ elim (Option-cases (lost_attempt state now a)) [
          | inl held ↦
              found_any C xs rest (sym (ap (any p) (lost_ids-held a xs running held)) ∙ hit)
          | inr (id, lost) ↦
              let own = lost_attempt_own state now a a.lease_id id refl lost in
              let either = sym (ap (any p) (lost_ids-lost a xs id running lost)) ∙ hit in
              elim (Bool-cases (p id)) [
                | inl e ↦ first (running, lost ∙ ap some own) (subst (λ i. p i ≡ true) own e)
                | inr e ↦ found_any C xs rest (rw e at either)
              ]
        ]
      ]
