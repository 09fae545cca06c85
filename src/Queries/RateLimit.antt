-- ===== src/Queries/RateLimit.antt =====
-- crates/gum-store/src/queries.rs: rate-limit specifications, `[pool:]limit/unit`.
use Prim.Native.String.{◌++◌ as append}
use gum.Prelude.{ℕ, ◌^◌, ◌-◌, ◌≡◌, refl, Option, none, some, String, str_eq, ◌==◌, if◌then◌else◌}
use gum.Prelude.Int.{ℤ, pos}
use gum.Text.{split_once, rsplit_once}
use gum.Text.Decimal.{parse}
use gum.Types.{Result, ok, err, ◌>>=◌}
use gum.Models.{JobRecord}

pub record RateLimitSpec : Type 0 where
  pub pool : Option String
  pub limit : ℕ
  pub window_ms : ℤ

pub rate_limit_scope_key : String → String → RateLimitSpec → String
rate_limit_scope_key project_id job_id spec = elim spec.pool [
  | some pool_name ↦ append "pool:" (append project_id (append ":" pool_name))
  | none ↦ append "job:" job_id
]

pub split_pool : String → Option (String × String) → Result (Option String × String)
split_pool spec (some (pool_name, quota)) =
    if str_eq pool_name ""
    then err (append "rate limit pool must not be empty: " spec)
    else ok (some pool_name, quota)
split_pool spec none = ok (none, spec)

pub window_of_unit : String → String → Result ℤ
window_of_unit spec unit =
    if str_eq unit "s"
    then ok (pos 1000)
    else if str_eq unit "m"
    then ok (pos 60000)
    else if str_eq unit "h"
    then ok (pos 3600000)
    else if str_eq unit "d"
    then ok (pos 86400000)
    else err (append "unsupported rate limit spec: " spec)

-- `.ok_or_else(…)`
abbrev pub ok_or {ℓ} : {A : Type ℓ} → Option A → String → Result A
ok_or (some a) e = ok a
ok_or none e = err e

pub parse_limit : String → String → Result ℕ
parse_limit spec limit_raw = do
  limit ← ok_or (parse (2 ^ 32 - 1) limit_raw) (append "invalid rate limit spec: " spec)
  if limit == 0 then err (append "rate limit must be positive: " spec) else ok limit

unfoldable pub parse_rate_limit_spec : String → Result RateLimitSpec
unfolding split_pool window_of_unit parse_limit
parse_rate_limit_spec spec = do
  (pool, quota) ← split_pool spec (rsplit_once b':' spec)
  (limit_raw, unit) ← ok_or (split_once b'/' quota) (append "invalid rate limit spec: " spec)
  limit ← parse_limit spec limit_raw
  window_ms ← window_of_unit spec unit
  ok (record { pool = pool; limit = limit; window_ms = window_ms })

provider_slug : Option String → Result (Option String)
provider_slug none = ok none
provider_slug (some spec) = do parsed ← parse_rate_limit_spec spec; ok parsed.pool

unfoldable pub provider_slug_from_job : JobRecord → Result (Option String)
unfolding provider_slug
provider_slug_from_job job = provider_slug job.rate_limit_spec

shared_pool :
    parse_rate_limit_spec "eu:resend:20/m"
    ≡ ok (record { pool = some "eu:resend"; limit = 20; window_ms = pos 60000 })
unfolding parse_rate_limit_spec rsplit_once split_once parse
shared_pool = refl

no_limit : parse_rate_limit_spec "0/s" ≡ err "rate limit must be positive: 0/s"
unfolding parse_rate_limit_spec rsplit_once split_once parse
no_limit = refl
