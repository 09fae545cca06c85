-- ===== src/Queries/Schedule/Due.antt =====
-- crates/gum-store/src/queries.rs: recurring schedules, an interval or a cron expression, and their
-- due times. `none` is a call that does not return (see the module above).
use gum.Prelude.{
  ◌≡◌, ◌⊎◌, inl, inr, refl, ℕ, zero, suc, Option, none, some, List, [], ◌∷◌, String, if◌then◌else◌,
  unwrap_or,
}
use gum.Prelude.Int.{ℤ, ltb_ℤ}
use gum.Text.{trim, strip_prefix}
use gum.Types.{Result, ok, err, ◌>>=◌}
use gum.Queries.Schedule.Interval.{parse_schedule_interval_ms, rounds, interval_due}
use gum.Queries.Schedule.Cron.{
  Calendar, CronSchedule, parse_cron_schedule, next_match_after_epoch_ms,
}

pub data RecurringSchedule (Zone : Type 0) : Type 0 where
  interval_ms : ℤ → RecurringSchedule Zone
  cron : CronSchedule Zone → RecurringSchedule Zone

-- A call that may not return, of a fallible function.
abbrev pub Call {ℓ} : Type ℓ → Type ℓ
Call A = Option (Result A)

module _ {ℓ κ} {A : Type ℓ} {B : Type κ} where
  abbrev map_call : (A → B) → Call A → Call B
  map_call f none = none
  map_call f (some (ok a)) = some (ok (f a))
  map_call f (some (err e)) = some (err e)

pub Call-cases :
    {A : Type 0} (call : Call A)
    → (call ≡ none)
      ⊎ (((message : String) × (call ≡ some (err message))) ⊎ ((a : A) × (call ≡ some (ok a))))
Call-cases none = inl refl
Call-cases (some (err message)) = inr (inl (message, refl))
Call-cases (some (ok a)) = inr (inr (a, refl))

module _ (calendar : Calendar) where
  open calendar use {Zone}

  parse_recurring_schedule : String → Call (RecurringSchedule Zone)
  parse_recurring_schedule expr =
      let trimmed = trim expr in
      elim (strip_prefix "cron:" trimmed) [
        | some raw_cron ↦ some (parse_cron_schedule calendar raw_cron expr >>= λ c. ok (cron c))
        | none ↦ map_call interval_ms (parse_schedule_interval_ms trimmed)
      ]

  -- Each round of the loop moves the cursor on by at least a millisecond.
  cron_loop : ℕ → CronSchedule Zone → ℤ → ℤ → Call (List ℤ)
  cron_loop zero schedule cursor now = none
  cron_loop (suc fuel) schedule cursor now =
      elim (next_match_after_epoch_ms calendar schedule cursor) [
        | err e ↦ some (err e)
        | ok none ↦ some (ok [])
        | ok (some next_due) ↦
            let rest = map_call (λ due. next_due ∷ due) (cron_loop fuel schedule next_due now) in
            if ltb_ℤ now next_due then some (ok []) else rest
      ]

  due_of : RecurringSchedule Zone → ℤ → ℤ → Call (List ℤ)
  unfolding cron_loop
  due_of (interval_ms interval) from now = elim (interval_due from interval now) [
    | none ↦ none
    | some due ↦ some (ok due)
  ]
  due_of (cron schedule) from now = cron_loop (rounds from now) schedule from now

  due_unless_early : ℤ → Option ℤ → ℤ → Result (RecurringSchedule Zone) → Call (List ℤ)
  unfolding due_of
  due_unless_early created latest now (err e) = some (err e)
  due_unless_early created latest now (ok schedule) =
      if ltb_ℤ now created then some (ok []) else due_of schedule (unwrap_or latest created) now

  unfoldable pub recurring_due_times_ms : String → ℤ → Option ℤ → ℤ → Call (List ℤ)
  unfolding due_unless_early parse_recurring_schedule
  recurring_due_times_ms expr created latest now = elim (parse_recurring_schedule expr) [
    | none ↦ none
    | some parsed ↦ due_unless_early created latest now parsed
  ]

  pub validate_recurring_schedule_expr : String → Call (Unit {0})
  unfolding parse_recurring_schedule
  validate_recurring_schedule_expr expr = map_call (λ _. tt) (parse_recurring_schedule expr)
