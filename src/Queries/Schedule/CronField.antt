-- ===== src/Queries/Schedule/CronField.antt =====
-- crates/gum-store/src/queries.rs: a field of a cron expression, such as `*/15` or `1-5,7`.
use Prim.Native.String.{◌++◌ as append}
use gum.Prelude.{
  ℕ, zero, suc, ◌+◌, ◌-◌, ◌^◌, min, Bool, true, false, ◌&&◌, ◌||◌, Option, none, some, List, [],
  ◌∷◌, String, str_eq, ltb, leb, ◌==◌, if◌then◌else◌,
}
use gum.Prelude.Lists.{any}
use gum.Text.{split, split_once, trim}
use gum.Text.Decimal.{parse, format}
use gum.Types.{Result, ok, err, ◌>>=◌}
use gum.Queries.RateLimit.{ok_or}

pub record CronField : Type 0 where
  pub allowed : List Bool
  pub wildcard : Bool

parse_u32 : String → Option ℕ
parse_u32 = parse (2 ^ 32 - 1)

-- The bounds of a field, and whether 7 stands for Sunday.
pub record FieldRange : Type 0 where
  pub lowest : ℕ
  pub highest : ℕ
  pub name : String
  pub allow_sunday_seven : Bool

out_of_range : String → FieldRange → String
out_of_range raw range = append "cron value out of range for " (
    append range.name (
      append ": " (
        append raw (
          append " (expected "
            (append (format range.lowest) (append "-" (append (format range.highest) ")")))))))

parse_cron_number : String → FieldRange → Result ℕ
unfolding parse_u32
parse_cron_number raw range = do
  parsed ←
      ok_or (parse_u32 raw) (append "invalid cron value in " (append range.name (append ": " raw)))
  let normalized = if range.allow_sunday_seven && parsed == 7 then 0 else parsed
  if ltb normalized range.lowest || ltb range.highest normalized
      then err (out_of_range raw range)
      else ok normalized

check_order : FieldRange → ℕ → ℕ → Result (ℕ × ℕ)
check_order range start end =
    if ltb end start
    then err (append "invalid cron range in " (append range.name ": start must be <= end"))
    else ok (start, end)

base_range : String → FieldRange → Option (String × String) → Result (ℕ × ℕ)
base_range base range (some (start_raw, end_raw)) = do
  start ← parse_cron_number start_raw range
  end ← parse_cron_number end_raw range
  check_order range start end
base_range base range none = do value ← parse_cron_number base range; ok (value, value)

parse_cron_base_range : String → FieldRange → Result (ℕ × ℕ)
parse_cron_base_range base range =
    if str_eq base "*"
    then ok (range.lowest, range.highest)
    else base_range base range (split_once b'-' base)

cron_step : String → String → Option (String × String) → Result (String × ℕ)
cron_step segment field_name none = ok (segment, 1)
cron_step segment field_name (some (base, step_raw)) = do
  step ←
      ok_or (parse_u32 step_raw)
        (append "invalid cron step in " (append field_name (append ": " segment)))
  if step == 0
      then err (append "cron step must be positive in " (append field_name (append ": " segment)))
      else ok (base, step)

parse_cron_step : String → String → Result (String × ℕ)
parse_cron_step segment field_name = cron_step segment field_name (split_once b'/' segment)

-- `allowed[value] = true`
allow : List Bool → ℕ → List Bool
allow [] value = []
allow (flag ∷ flags) zero = true ∷ flags
allow (flag ∷ flags) (suc value) = flag ∷ allow flags value

replicate : ℕ → Bool → List Bool
replicate zero flag = []
replicate (suc n) flag = flag ∷ replicate n flag

drop : ℕ → List Bool → List Bool
drop zero flags = flags
drop (suc n) [] = []
drop (suc n) (flag ∷ flags) = drop n flags

-- The `while` loop over the values of a segment; a round moves on by the step, which is positive.
pub allow_steps : ℕ → ℕ → ℕ → ℕ → List Bool → List Bool
unfolding allow
allow_steps zero value step end allowed = allowed
allow_steps (suc fuel) value step end allowed =
    let next = min (value + step) (2 ^ 32 - 1) in
    let marked = allow allowed value in
    let rest = allow_steps fuel next step end marked in
    if leb value end then (if leb next value then marked else rest) else allowed

parse_segment : FieldRange → String → List Bool → Result (List Bool)
parse_segment range segment allowed =
    if str_eq segment "" then err (append "invalid cron expression segment in " range.name) else do
      (base, step) ← parse_cron_step segment range.name
      (start, end) ← parse_cron_base_range base range
      if step == 0
          then err (append "cron step must be positive in " range.name)
          else ok (allow_steps (end + 1) start step end allowed)

parse_segments : FieldRange → List String → List Bool → Result (List Bool)
unfolding parse_segment
parse_segments range [] allowed = ok allowed
parse_segments range (segment ∷ segments) allowed =
    parse_segment range (trim segment) allowed >>= parse_segments range segments

-- `iter().skip(min).all(|flag| !*flag)`
has_value : List Bool → ℕ → Bool
unfolding drop
has_value allowed lowest = any (λ flag. flag) (drop lowest allowed)

pub parse_field : String → FieldRange → Result CronField
unfolding parse_segments replicate has_value
parse_field field_expr range =
    let expression = trim field_expr in
    if str_eq expression ""
    then err (append "invalid cron expression: empty " (append range.name " field"))
    else do
      allowed ←
          parse_segments range (split (λ c. c == b',') expression)
            (replicate (range.highest + 1) false)
      if has_value allowed range.lowest
          then ok (record { allowed = allowed; wildcard = str_eq expression "*" })
          else err (append "invalid cron expression: " (append range.name " has no values"))

get_flag : List Bool → ℕ → Bool
get_flag [] value = false
get_flag (flag ∷ flags) zero = flag
get_flag (flag ∷ flags) (suc value) = get_flag flags value

unfoldable pub contains : CronField → ℕ → Bool
unfolding get_flag
contains field value = get_flag field.allowed value
