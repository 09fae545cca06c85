-- ===== src/Api/Auth.antt =====
-- crates/gum-api/src/handlers.rs: the errors of the API, and who may call a handler. axum's headers
-- are a parameter: what stands under `Authorization`, if it is there and if it is a text.
pub mod Compare
pub mod Access
use gum.Prelude.{
  ℕ, Bool, true, false, not, ◌&&◌, ◌||◌, Option, none, some, List, String, str_eq, is_some,
  if◌then◌else◌, unwrap_or,
}
use gum.Text.{trim, strip_prefix}
use gum.Types.{Result, ok, err}
use gum.Api.Auth.Compare.{constant_time_eq}

-- The statuses that the handlers answer with.
pub data StatusCode : Type 0 where
  no_content bad_request unauthorized not_found conflict internal_server_error : StatusCode

pub record ApiError : Type 0 where
  pub status : StatusCode
  pub message : String

-- `Result<A, ApiError>`
pub data Answer (A : Type 0) : Type 0 where
  accepted : A → Answer A
  refused : ApiError → Answer A

infixl 5 ◌>>=◌
abbrev pub ◌>>=◌ : {A B : Type 0} → Answer A → (A → Answer B) → Answer B
Answer.accepted a >>= f = f a
Answer.refused e >>= f = Answer.refused e

-- `text.contains(part)`
unfoldable pub contains : String → String → Bool
contains part String.[] = is_some (strip_prefix part String.[])
contains part (String.◌∷◌ c s) = is_some (strip_prefix part (String.◌∷◌ c s)) || contains part s

unfoldable pub from_message : String → ApiError
from_message message = record {
  status =
      if contains "not found" message
      then StatusCode.not_found
      else if contains "mismatch" message || contains "disabled" message
      then StatusCode.conflict
      else StatusCode.bad_request;
  message = message;
}

unfoldable pub internal : String → ApiError
internal message = record { status = StatusCode.internal_server_error; message = message }

unfoldable pub unauthorized_error : String → ApiError
unauthorized_error message = record { status = StatusCode.unauthorized; message = message }

-- `result.map_err(ApiError::from_message)`
abbrev pub answer_of : {A : Type 0} → Result A → Answer A
answer_of (ok a) = Answer.accepted a
answer_of (err e) = Answer.refused (from_message e)

-- What stands under a name in the headers.
pub data HeaderValue : Type 0 where
  missing not_text : HeaderValue
  text : String → HeaderValue

bearer_token : String → Option String → Answer String
unfolding unauthorized_error
bearer_token invalid_message none = Answer.refused (unauthorized_error invalid_message)
bearer_token invalid_message (some token) =
    if str_eq token ""
    then Answer.refused (unauthorized_error invalid_message)
    else Answer.accepted token

unfoldable pub extract_bearer : HeaderValue → String → String → Answer String
unfolding bearer_token unauthorized_error
extract_bearer HeaderValue.missing missing_message invalid_message =
    Answer.refused (unauthorized_error missing_message)
extract_bearer HeaderValue.not_text missing_message invalid_message =
    Answer.refused (unauthorized_error invalid_message)
extract_bearer (HeaderValue.text value) missing_message invalid_message =
    bearer_token invalid_message (strip_prefix "Bearer " value)

-- `key.trim().is_empty()`
unfoldable pub is_blank : String → Bool
is_blank key = str_eq (trim key) ""

-- The token, if it is the one that is expected.
unfoldable pub check_token : String → String → String → Answer (Unit {0})
unfolding unauthorized_error
check_token invalid_message expected_token token =
    if constant_time_eq token expected_token
    then Answer.accepted tt
    else Answer.refused (unauthorized_error invalid_message)

unfoldable pub require_single_bearer :
    String → HeaderValue → String → String → String → Answer (Unit {0})
unfolding internal is_blank check_token
require_single_bearer expected_token authorization misconfigured missing_message invalid_message =
    if is_blank expected_token
    then Answer.refused (internal misconfigured)
    else extract_bearer authorization missing_message invalid_message
      >>= check_token invalid_message expected_token

unfoldable pub require_admin : String → HeaderValue → Answer (Unit {0})
unfolding require_single_bearer
require_admin admin_key authorization =
    require_single_bearer admin_key authorization "admin auth misconfigured"
      "missing admin authorization" "invalid admin authorization"

unfoldable pub require_internal : String → HeaderValue → Answer (Unit {0})
unfolding require_single_bearer
require_internal internal_key authorization =
    require_single_bearer internal_key authorization "internal auth misconfigured"
      "missing internal authorization" "invalid internal authorization"

-- The token, if it is one of the two keys that are set.
unfoldable pub check_either : String → String → String → Answer (Unit {0})
unfolding unauthorized_error is_blank
check_either api_key admin_key token =
    if (not (is_blank api_key) && constant_time_eq token api_key)
      || (not (is_blank admin_key) && constant_time_eq token admin_key)
    then Answer.accepted tt
    else Answer.refused (unauthorized_error "invalid api authorization")

unfoldable pub require_api_or_admin : String → String → HeaderValue → Answer (Unit {0})
unfolding internal is_blank check_either
require_api_or_admin api_key admin_key authorization =
    if is_blank api_key && is_blank admin_key
    then Answer.refused (internal "api auth misconfigured")
    else extract_bearer authorization "missing api authorization" "invalid api authorization"
      >>= check_either api_key admin_key
