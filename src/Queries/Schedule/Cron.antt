-- ===== src/Queries/Schedule/Cron.antt =====
-- crates/gum-store/src/queries.rs: cron expressions, `cron:[tz=ZONE;]MIN HOUR DOM MONTH DOW`, and
-- the next fire time. The time zones of chrono are an interface.
use Prim.Native.String.{◌++◌ as append}
use gum.Prelude.{
  ℕ, zero, suc, ◌+◌, ◌-◌, ◌%◌, Bool, true, false, not, ◌&&◌, ◌||◌, Option, none, some, List, [],
  ◌∷◌, String, str_eq, if◌then◌else◌,
}
use gum.Prelude.Int.{ℤ, pos, negsuc, leb_ℤ, ◌-ℤ◌, wrap_i64, saturating_add}
use gum.Text.{split_once, split_whitespace, trim, strip_prefix}
use gum.Types.{Result, ok, err, ◌>>=◌}
use gum.Queries.RateLimit.{ok_or}
use gum.Queries.Schedule.CronField.{CronField, FieldRange, parse_field, contains}

-- A moment as its time zone names it: weekdays from Sunday, which is 0.
pub record LocalTime : Type 0 where
  pub minute : ℕ
  pub hour : ℕ
  pub day : ℕ
  pub month : ℕ
  pub weekday : ℕ

-- chrono and chrono_tz: the zones, their names, and the local time of a moment, which is `none`
-- where `timestamp_millis_opt` finds no single one.
pub record Calendar : Type 1 where
  pub Zone : Type 0
  pub utc : Zone
  pub parse_zone : String → Option Zone
  pub local_time : Zone → ℤ → Option LocalTime

pub record CronSchedule (Zone : Type 0) : Type 0 where
  pub minute : CronField
  pub hour : CronField
  pub day_of_month : CronField
  pub month : CronField
  pub day_of_week : CronField
  pub timezone : Zone

minute_range : FieldRange
minute_range = record { lowest = 0; highest = 59; name = "minute"; allow_sunday_seven = false }

hour_range : FieldRange
hour_range = record { lowest = 0; highest = 23; name = "hour"; allow_sunday_seven = false }

day_range : FieldRange
day_range = record { lowest = 1; highest = 31; name = "day_of_month"; allow_sunday_seven = false }

month_range : FieldRange
month_range = record { lowest = 1; highest = 12; name = "month"; allow_sunday_seven = false }

weekday_range : FieldRange
weekday_range = record { lowest = 0; highest = 6; name = "day_of_week"; allow_sunday_seven = true }

-- value.rem_euclid(60_000)
rem_minute : ℤ → ℕ
rem_minute (pos n) = n % 60000
rem_minute (negsuc n) = (60000 - (n + 1) % 60000) % 60000

unfoldable pub floor_to_minute_epoch_ms : ℤ → ℤ
unfolding rem_minute
floor_to_minute_epoch_ms epoch_ms = wrap_i64 (epoch_ms -ℤ pos (rem_minute epoch_ms))

-- 5 * 366 * 24 * 60
max_search_minutes : ℕ
max_search_minutes = 2635200

module _ (calendar : Calendar) where
  open calendar use {Zone, utc, parse_zone, local_time}

  fields_of : String → Zone → List String → Result (CronSchedule Zone)
  fields_of expr zone (m ∷ h ∷ d ∷ mo ∷ w ∷ []) = do
    minute ← parse_field m minute_range
    hour ← parse_field h hour_range
    day_of_month ← parse_field d day_range
    month ← parse_field mo month_range
    day_of_week ← parse_field w weekday_range
    ok (record {
      minute = minute;
      hour = hour;
      day_of_month = day_of_month;
      month = month;
      day_of_week = day_of_week;
      timezone = zone;
    })
  fields_of expr zone _ = err (append "invalid cron expression: " expr)

  -- `CronSchedule::parse`
  parse_fields : String → Zone → Result (CronSchedule Zone)
  unfolding fields_of minute_range hour_range day_range month_range weekday_range
  parse_fields expr zone = fields_of expr zone (split_whitespace expr)

  parse_cron_timezone : String → Result Zone
  parse_cron_timezone raw = ok_or (parse_zone raw) (append "invalid cron timezone: " raw)

  zoned_cron : String → Option (String × String) → Result (CronSchedule Zone)
  unfolding parse_cron_timezone parse_fields
  zoned_cron full_expr none = err (append "invalid cron expression: " full_expr)
  zoned_cron full_expr (some (timezone_raw, cron_raw)) =
      if str_eq (trim timezone_raw) ""
      then err (append "invalid cron timezone in expression: " full_expr)
      else do
        zone ← parse_cron_timezone (trim timezone_raw)
        if str_eq (trim cron_raw) ""
            then err (append "invalid cron expression: " full_expr)
            else parse_fields (trim cron_raw) zone

  pub parse_cron_schedule : String → String → Result (CronSchedule Zone)
  unfolding zoned_cron
  parse_cron_schedule raw full_expr =
      let trimmed = trim raw in
      if str_eq trimmed ""
      then err (append "invalid cron expression: " full_expr)
      else elim (strip_prefix "tz=" trimmed) [
        | some without_tz_prefix ↦ zoned_cron full_expr (split_once b';' without_tz_prefix)
        | none ↦ parse_fields trimmed utc
      ]

  -- The days match by both fields where neither is a wildcard, and one match is enough.
  matches_day : CronSchedule Zone → LocalTime → Bool
  matches_day schedule at =
      let day_of_month_match = contains schedule.day_of_month at.day in
      let day_of_week_match = contains schedule.day_of_week at.weekday in
      if schedule.day_of_month.wildcard && schedule.day_of_week.wildcard
      then true
      else if schedule.day_of_month.wildcard
      then day_of_week_match
      else if schedule.day_of_week.wildcard
      then day_of_month_match
      else day_of_month_match || day_of_week_match

  matches_local : CronSchedule Zone → Option LocalTime → Bool
  unfolding matches_day
  matches_local schedule none = false
  matches_local schedule (some at) =
      if not (contains schedule.minute at.minute)
      then false
      else if not (contains schedule.hour at.hour)
      then false
      else if not (contains schedule.month at.month)
      then false
      else matches_day schedule at

  unfoldable pub matches_epoch_ms : CronSchedule Zone → ℤ → Bool
  unfolding matches_local matches_day
  matches_epoch_ms schedule epoch_ms =
      matches_local schedule (local_time schedule.timezone epoch_ms)

  -- The `for` loop over the minutes of five years.
  search_from : ℕ → CronSchedule Zone → ℤ → Result (Option ℤ)
  search_from zero schedule candidate_ms =
      err "invalid cron expression: no matching fire time within 5 years"
  search_from (suc minutes) schedule candidate_ms =
      let next_candidate = saturating_add candidate_ms (pos 60000) in
      let rest = search_from minutes schedule next_candidate in
      if matches_epoch_ms schedule candidate_ms
      then ok (some candidate_ms)
      else if leb_ℤ next_candidate candidate_ms
      then ok none
      else rest

  pub next_match_after_epoch_ms : CronSchedule Zone → ℤ → Result (Option ℤ)
  unfolding search_from max_search_minutes
  next_match_after_epoch_ms schedule cursor_epoch_ms =
      search_from max_search_minutes schedule
        (saturating_add (floor_to_minute_epoch_ms cursor_epoch_ms) (pos 60000))
