-- ===== src/Queries/Failure.antt =====
-- crates/gum-store/src/queries.rs: the classes of failures.
use gum.Prelude.{
  ◌≡◌, Bool, true, false, ◌||◌, Option, none, some, String, str_eq, arith, refl, if◌then◌else◌,
}
use gum.Text.{str_eq_distinct}
use gum.Prelude.Int.{ℤ, pos}

unfoldable pub is_provider_failure_class : Option String → Bool
is_provider_failure_class none = false
is_provider_failure_class (some class) =
    str_eq class "provider_timeout"
    || str_eq class "provider_connect_error"
    || str_eq class "provider_5xx"
    || str_eq class "provider_429"
    || str_eq class "provider_auth_error"

known_retryable : String → Bool
known_retryable class =
    str_eq class "provider_timeout"
    || str_eq class "provider_connect_error"
    || str_eq class "provider_5xx"
    || str_eq class "provider_429"
    || str_eq class "gum_internal_error"
    || str_eq class "job_timeout"
    || str_eq class "provider_probe_error"
    || str_eq class "provider_probe_config_error"
    || str_eq class "provider_http_error"

unfoldable pub is_retryable_failure_class : Option String → Bool
unfolding known_retryable
is_retryable_failure_class none = true
is_retryable_failure_class (some class) =
    if str_eq class "user_code_error" || str_eq class "provider_auth_error"
    then false
    else if known_retryable class
    then true
    else true

unfoldable pub is_infrastructure_failure_class : Option String → Bool
is_infrastructure_failure_class none = false
is_infrastructure_failure_class (some class) =
    str_eq class "provider_timeout"
    || str_eq class "provider_connect_error"
    || str_eq class "provider_5xx"
    || str_eq class "provider_429"

abbrev pub function_health_hold_delay_ms : ℤ
function_health_hold_delay_ms = pos 30000

abbrev pub key_retention_ms : ℤ
key_retention_ms = pos 86400000

-- A class of failures of the infrastructure is a class of provider failures, and one that is worth
-- another attempt.
pub infrastructure_failure_retries :
    (class : Option String)
    → is_infrastructure_failure_class class ≡ true
    → (is_provider_failure_class class ≡ true) × (is_retryable_failure_class class ≡ true)
unfolding is_infrastructure_failure_class is_provider_failure_class is_retryable_failure_class
infrastructure_failure_retries none h = ground arith
infrastructure_failure_retries (some class) h = ground (
  arith,
  str_eq_distinct class "provider_timeout" "user_code_error" refl,
  str_eq_distinct class "provider_timeout" "provider_auth_error" refl,
  str_eq_distinct class "provider_connect_error" "user_code_error" refl,
  str_eq_distinct class "provider_connect_error" "provider_auth_error" refl,
  str_eq_distinct class "provider_5xx" "user_code_error" refl,
  str_eq_distinct class "provider_5xx" "provider_auth_error" refl,
  str_eq_distinct class "provider_429" "user_code_error" refl,
  str_eq_distinct class "provider_429" "provider_auth_error" refl,
)
