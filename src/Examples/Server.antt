-- ===== src/Examples/Server.antt =====
-- The theorems on callers, secrets and keys of the API, at small inputs.
use gum.Prelude.{
  ℕ, zero, suc, ◌<◌, ◌≡◌, ◌⊎◌, ◌↔◌, refl, true, some, none, List, [], ◌∷◌, String, arith, inl, inr,
}
use gum.Prelude.Int.{pos}
use gum.Prelude.Lists.{All}
use gum.Text.{trim, strip_prefix}
use gum.Text.Bytes.{as_bytes, utf8}
use gum.Types.{ok}
use gum.Store.{default}
use gum.Store.Instance.{memory_store}
use gum.Queries.GumStore.{GumStore}
use gum.Api.Auth.{
  ApiError, Answer, HeaderValue, require_api_or_admin, is_blank, extract_bearer, check_either,
}
use gum.Api.Auth.Compare.{constant_time_eq, constant_time_eq_iff, byte_at, rounds}
use gum.Api.Auth.Access.{Holds, require_api_or_admin_iff}
use gum.Api.Secrets.Memory.{memory_secret_store, set_secret as store_set_secret}
use gum.Api.Secrets.Lawful.{memory_secret_store-IsLawful}
use gum.Api.Secrets.MasterKey.{decode_hex_32}
use gum.Api.Secrets.Hex.{encode_hex, decode_hex_32-encode_hex}
use gum.Api.Routes.{SetSecretRequest, SecretMetadataResponse}
use gum.Api.Handlers.{AppState, for_api}
use gum.Api.Json.{Shape, JsonLibrary}
use gum.Api.Handlers.Access.{ApiCall, handle, strangers_refused}
use gum.Api.Handlers.Secrets.{
  normalize_environment, set_secret, store_secret, map_result, secret_metadata_response,
}
use gum.Api.Handlers.Secrets.RoundTrip.{set_secret-resolves}
use gum.Api.Handlers.Internal.{resolve_secrets}
use gum.Examples.{Plain, no_calendar}

constant_time_eq_iff_example :
    (constant_time_eq "dev" "dex" ≡ true) ↔ (◌≡◌ {A = String} "dev" "dex")
constant_time_eq_iff_example = constant_time_eq_iff "dev" "dex"

require_api_or_admin_iff_example :
    (require_api_or_admin "dev" "root" (HeaderValue.text "Bearer dev") ≡ Answer.accepted tt)
    ↔ (Holds (HeaderValue.text "Bearer dev") "dev" ⊎ Holds (HeaderValue.text "Bearer dev") "root")
require_api_or_admin_iff_example =
    require_api_or_admin_iff "dev" "root" (HeaderValue.text "Bearer dev")

-- A key of one byte, again and again.
abbrev repeated : ℕ → List ℕ
repeated zero = []
repeated (suc n) = 171 ∷ repeated n

repeated-bytes : (n : ℕ) → All (λ b. b < 256) (repeated n)
repeated-bytes zero = tt
repeated-bytes (suc n) = (omega arith, repeated-bytes n)

decode_hex_32-encode_hex_example : decode_hex_32 (encode_hex (repeated 32)) ≡ some (repeated 32)
decode_hex_32-encode_hex_example = decode_hex_32-encode_hex (repeated 32) (repeated-bytes 32) refl

abbrev server : GumStore Plain
server = memory_store tt no_calendar

abbrev app : AppState server memory_secret_store
app = record {
  store = default;
  secrets = [];
  project_id = "p";
  api_key = "dev";
  admin_key = "root";
  internal_key = "runner";
}

abbrev token_payload : SetSecretRequest
token_payload = record { name = " TOKEN "; value = "s3"; environment = none }

-- The caller gives neither key.
no_key : ¬ (Holds HeaderValue.missing "dev" ⊎ Holds HeaderValue.missing "root")
no_key (inl (set, there)) = ground arith
no_key (inr (set, there)) = ground arith

abbrev no_json : JsonLibrary Plain
no_json = record { get_field = λ input field. none; shape = λ input. Shape.null_value }

strangers_refused_example :
    (e : ApiError) × (handle server memory_secret_store no_json "" HeaderValue.missing
        (ApiCall.delete_secret_call "TOKEN" none)
        app
      ≡ (some e, app))
strangers_refused_example =
    strangers_refused server memory_secret_store no_json "" HeaderValue.missing
      (ApiCall.delete_secret_call "TOKEN" none) app no_key

abbrev metadata : SecretMetadataResponse
metadata = record {
  project_id = "p";
  environment = "prod";
  name = "TOKEN";
  backend = "memory";
  updated_at_epoch_ms = pos 5;
  last_used_at_epoch_ms = none;
}

abbrev caller : HeaderValue
caller = HeaderValue.text "Bearer dev"

abbrev app_after : AppState server memory_secret_store
app_after = (set_secret server memory_secret_store caller token_payload (pos 5) app).1

secret_accepted :
    set_secret server memory_secret_store caller token_payload (pos 5) app
    ≡ (Answer.accepted metadata, app_after)
unfolding set_secret for_api require_api_or_admin is_blank trim extract_bearer strip_prefix
    check_either constant_time_eq rounds byte_at as_bytes utf8 store_secret map_result
    secret_metadata_response normalize_environment store_set_secret
secret_accepted = refl

set_secret-resolves_example :
    (resolve_secrets memory_secret_store "p"
      (normalize_environment none)
      (trim " TOKEN " ∷ [])
      []
      (pos 9)
      app_after.secrets).0
    ≡ ok ((trim " TOKEN ", "s3") ∷ [])
set_secret-resolves_example =
    set_secret-resolves server memory_secret_store memory_secret_store-IsLawful caller token_payload
      (pos 5) app metadata app_after (pos 9) secret_accepted
