-- ===== src/Queries/Schedule/Interval.antt =====
-- crates/gum-store/src/queries.rs: interval expressions such as `20m`, and their due times.
pub mod Times
use Prim.Native.Char.{Char, len_utf8}
use Prim.Native.String.{len, ◌++◌ as append}
use gum.Prelude.{
  ℕ, zero, suc, ◌+◌, ◌-◌, ◌*◌, ◌≡◌, refl, Option, none, some, List, [], ◌∷◌, String, str_eq, ltb,
  ◌==◌, if◌then◌else◌,
}
use gum.Prelude.Int.{ℤ, pos, negsuc, pos_part, leb_ℤ, ◌-ℤ◌, clamp_i64, saturating_add}
use gum.Text.{split_last}
use gum.Text.Decimal.{parse_i64}
use gum.Types.{Result, ok, err}

-- `value.saturating_mul(multiplier)`, of a positive value
saturating_mul : ℤ → ℕ → ℤ
saturating_mul (pos n) m = clamp_i64 (pos (n * m))
saturating_mul (negsuc n) m = clamp_i64 (negsuc ((n + 1) * m - 1))

unit_ms : String → Option ℕ
unit_ms unit =
    if str_eq unit "s"
    then some 1000
    else if str_eq unit "m"
    then some 60000
    else if str_eq unit "h"
    then some 3600000
    else if str_eq unit "d"
    then some 86400000
    else none

interval_of : String → ℤ → Option ℕ → Result ℤ
unfolding saturating_mul
interval_of expr value none = err (append "unsupported schedule expression: " expr)
interval_of expr value (some multiplier) = ok (saturating_mul value multiplier)

amount_of : String → String → Option ℤ → Result ℤ
unfolding interval_of unit_ms
amount_of expr unit none = err (append "invalid schedule expression: " expr)
amount_of expr unit (some value) =
    if leb_ℤ value (pos 0)
    then err (append "schedule expression must be positive: " expr)
    else interval_of expr value (unit_ms unit)

-- `split_at(len - 1)` panics where the last character is longer than one byte.
split_amount : String → Option (String × Char) → Option (Result ℤ)
unfolding amount_of
split_amount expr none = none
split_amount expr (some (amount, unit)) =
    if len_utf8 unit == 1
    then some (amount_of expr (String.◌∷◌ unit "") (parse_i64 amount))
    else none

unfoldable pub parse_schedule_interval_ms : String → Option (Result ℤ)
unfolding split_amount
parse_schedule_interval_ms expr =
    if ltb (len expr) 2
    then some (err (append "invalid schedule expression: " expr))
    else split_amount expr (split_last expr)

-- The `while` loop: the due times from `next` on.
interval_loop : ℕ → ℤ → ℤ → ℤ → Option (List ℤ)
interval_loop zero next interval now = none
interval_loop (suc fuel) next interval now =
    let rest = interval_loop fuel (saturating_add next interval) interval now in
    if leb_ℤ next now then elim rest [ none ↦ none | some due ↦ some (next ∷ due) ] else some []

-- now - from + 2, or less where `now` is earlier: a round moves `next` on by a millisecond or more.
pub rounds : ℤ → ℤ → ℕ
rounds from now = pos_part (now -ℤ from) + 2

unfoldable pub interval_due : ℤ → ℤ → ℤ → Option (List ℤ)
unfolding interval_loop rounds
interval_due from interval now =
    interval_loop (rounds from now) (saturating_add from interval) interval now

twenty_minutes : parse_schedule_interval_ms "20m" ≡ some (ok (pos 1200000))
unfolding parse_schedule_interval_ms split_last parse_i64 clamp_i64
twenty_minutes = refl

long_unit : parse_schedule_interval_ms "5é" ≡ none
unfolding parse_schedule_interval_ms split_last
long_unit = refl
