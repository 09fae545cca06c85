-- ===== src/Queries/Schedule/Interval/Times.antt =====
-- The loop of an interval schedule in recurring_due_times_ms, crates/gum-store/src/queries.rs.
use gum.Prelude.{
  ℕ, zero, suc, ◌+◌, ◌≤◌, ◌<◌, ◌≡◌, true, false, refl, some, List, [], ◌∷◌, arith, leb, Bool-cases,
  inl, inr,
}
use gum.Prelude.Int.{ℤ, pos, max_i64, saturating_add, clamp_i64, ◌+ℤ◌, ◌-ℤ◌, leb_ℤ}
use gum.Queries.Schedule.Interval.{interval_loop, rounds, interval_due}

-- The list holds the multiples of the interval after `from`, in their order, up to `now`.
pub EveryStep : ℕ → ℕ → ℕ → List ℤ → Type 0
EveryStep from interval now [] = now < from + interval
EveryStep from interval now (due ∷ rest) =
    (due ≡ pos (from + interval))
    × (from + interval ≤ now)
    × EveryStep (from + interval) interval now rest

next_due :
    (from interval now : ℕ)
    → now < max_i64
    → from + interval ≤ now
    → saturating_add (pos from) (pos interval) ≡ pos (from + interval)
unfolding saturating_add clamp_i64 ◌+ℤ◌
next_due from interval now below due = ground arith

past_due :
    (from interval now : ℕ)
    → now < max_i64
    → now < from + interval
    → leb_ℤ (saturating_add (pos from) (pos interval)) (pos now) ≡ false
unfolding saturating_add clamp_i64 ◌+ℤ◌
past_due from interval now below late = ground arith

module _ (fuel : ℕ) (next interval now : ℤ) where
  loop_on :
      {due : List ℤ}
      → leb_ℤ next now ≡ true
      → interval_loop fuel (saturating_add next interval) interval now ≡ some due
      → interval_loop (suc fuel) next interval now ≡ some (next ∷ due)
  unfolding interval_loop
  loop_on on rest = rw (on, rest) refl

  loop_off : leb_ℤ next now ≡ false → interval_loop (suc fuel) next interval now ≡ some []
  unfolding interval_loop
  loop_off off = rw off refl

interval_loop_lem :
    (fuel from interval now : ℕ)
    → 0 < interval
    → now < max_i64
    → 0 < fuel
    → now < fuel + from
    → (due : List ℤ) × (interval_loop fuel
          (saturating_add (pos from) (pos interval))
          (pos interval)
          (pos now)
        ≡ some due)
      × EveryStep from interval now due
unfolding EveryStep
interval_loop_lem zero from interval now positive below some_fuel enough = absurd (omega arith)
interval_loop_lem (suc fuel) from interval now positive below some_fuel enough =
    elim (Bool-cases (leb (from + interval) now)) [
      | inl now_due ↦
          let before : from + interval ≤ now = ground arith in
          let at : leb_ℤ (pos (from + interval)) (pos now) ≡ true = ground arith in
          let (due, e, steps) =
            interval_loop_lem fuel (from + interval) interval now positive below (omega arith)
              (omega arith) in
          (
            pos (from + interval) ∷ due,
            rw (next_due from interval now below before)
                (loop_on fuel (pos (from + interval)) (pos interval) (pos now) at e),
            (refl, before, steps),
          )
      | inr later ↦
          let late : now < from + interval = ground arith in
          (
            [],
            loop_off fuel _ (pos interval) (pos now) (past_due from interval now below late),
            late,
          )
    ]

-- For an interval of a millisecond or more and a clock below i64::MAX, the loop ends within its
-- rounds, and its due times are exactly the multiples of the interval after `from`, up to `now`.
pub interval_due-EveryStep :
    (from interval now : ℕ)
    → 0 < interval
    → now < max_i64
    → (due : List ℤ) × (interval_due (pos from) (pos interval) (pos now) ≡ some due)
      × EveryStep from interval now due
unfolding interval_due rounds ◌-ℤ◌
interval_due-EveryStep from interval now positive below =
    interval_loop_lem (rounds (pos from) (pos now)) from interval now positive below (ground arith)
      (ground arith)
