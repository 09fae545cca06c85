-- ===== src/Queries/Backoff.antt =====
-- crates/gum-store/src/queries.rs: how long a failed run waits for its next attempt.
use Prim.Native.Nat.{bit_xor}
use mathlib.Core.List.{foldl}
use gum.Prelude.{
  ℕ, zero, suc, ◌+◌, ◌-◌, ◌*◌, ◌/◌, ◌%◌, ◌^◌, ◌≤◌, ◌<◌, ◌≡◌, min, Option, none, some, String,
  str_eq, ◌||◌, arith, ◌==◌, if◌then◌else◌,
}
use gum.Prelude.Int.{max_i64}
use gum.Text.Bytes.{as_bytes}

-- One round of FNV-1a over u64.
hash_byte : ℕ → ℕ → ℕ
hash_byte hash byte = bit_xor hash byte * 1099511628211 % 2 ^ 64

unfoldable pub deterministic_jitter_ms : String → ℕ → ℕ → ℕ
unfolding hash_byte
deterministic_jitter_ms run_id attempt_count max_jitter_ms =
    if max_jitter_ms == 0
    then 0
    else bit_xor (foldl hash_byte 1469598103934665603 (as_bytes run_id)) attempt_count
      % max_jitter_ms

unfoldable pub base_ms : Option String → ℕ
base_ms none = 3000
base_ms (some class) =
    if str_eq class "provider_429"
    then 15000
    else if str_eq class "provider_timeout"
        || str_eq class "provider_connect_error"
        || str_eq class "provider_5xx"
    then 2000
    else if str_eq class "gum_internal_error"
    then 5000
    else if str_eq class "job_timeout"
    then 10000
    else 3000

-- The delay before jitter: `saturating_sub` is `-`, and `saturating_mul` stops at i64::MAX.
unfoldable pub capped_ms : ℕ → Option String → ℕ
capped_ms attempt_count failure_class =
    min (min (base_ms failure_class * 2 ^ (min attempt_count 6 - 1)) max_i64) 300000

unfoldable pub retry_backoff_delay_ms : String → ℕ → Option String → ℕ
retry_backoff_delay_ms run_id attempt_count failure_class =
    let capped = capped_ms attempt_count failure_class in
    capped + deterministic_jitter_ms run_id attempt_count (capped / 5)

base_ms_bounds : (class : Option String) → (2000 ≤ base_ms class) × (base_ms class ≤ 15000)
unfolding base_ms
base_ms_bounds none = ground arith
base_ms_bounds (some class) = ground arith

jitter_bound : (run_id : String) (n m : ℕ) → 0 < m → deterministic_jitter_ms run_id n m < m
unfolding deterministic_jitter_ms
jitter_bound run_id n m h = grind arith

pow_bounds : (k : ℕ) → k ≤ 5 → (1 ≤ 2 ^ k) × (2 ^ k ≤ 32)
pow_bounds zero h = omega arith
pow_bounds (suc zero) h = omega arith
pow_bounds (suc (suc zero)) h = omega arith
pow_bounds (suc (suc (suc zero))) h = omega arith
pow_bounds (suc (suc (suc (suc zero)))) h = omega arith
pow_bounds (suc (suc (suc (suc (suc zero))))) h = omega arith
pow_bounds (suc (suc (suc (suc (suc (suc k)))))) h = absurd (omega arith)

capped_ms_bounds :
    (n : ℕ) (class : Option String)
    → (base_ms class ≤ capped_ms n class) × (capped_ms n class ≤ 300000)
unfolding capped_ms
capped_ms_bounds n class =
    grind (arith, base_ms_bounds class, pow_bounds (min n 6 - 1) (omega arith))

-- Whatever the run, the attempt and the class of the failure, the next attempt waits for at least
-- the base delay of the class, for at least two seconds and for less than six minutes.
pub retry_backoff_delay_ms_bounds :
    (run_id : String) (attempt_count : ℕ) (class : Option String)
    → (base_ms class ≤ retry_backoff_delay_ms run_id attempt_count class)
      × (2000 ≤ retry_backoff_delay_ms run_id attempt_count class)
      × (retry_backoff_delay_ms run_id attempt_count class < 360000)
unfolding retry_backoff_delay_ms
retry_backoff_delay_ms_bounds run_id n class = omega (
  arith,
  base_ms_bounds class,
  capped_ms_bounds n class,
  jitter_bound run_id n (capped_ms n class / 5)
      (omega (arith, base_ms_bounds class, capped_ms_bounds n class)),
)

pow_step : (n : ℕ) → 2 ^ (min n 6 - 1) ≤ 2 ^ (min (suc n) 6 - 1)
pow_step zero = omega arith
pow_step (suc zero) = omega arith
pow_step (suc (suc zero)) = omega arith
pow_step (suc (suc (suc zero))) = omega arith
pow_step (suc (suc (suc (suc zero)))) = omega arith
pow_step (suc (suc (suc (suc (suc zero))))) = omega arith
pow_step (suc (suc (suc (suc (suc (suc n)))))) =
    let capped : min (suc (suc (suc (suc (suc (suc n)))))) 6
        ≡ min (suc (suc (suc (suc (suc (suc (suc n))))))) 6 =
      omega arith in
    rw capped (omega arith)

capped_ms_step : (n : ℕ) (class : Option String) → capped_ms n class ≤ capped_ms (suc n) class
unfolding capped_ms
capped_ms_step n class = grind (arith, pow_step n)

-- A later attempt never waits less than an earlier one, the jitter left aside.
pub capped_ms_mono : (m k : ℕ) (class : Option String) → capped_ms m class ≤ capped_ms (m + k) class
capped_ms_mono m zero class = let same : m + 0 ≡ m = omega arith in rw same (omega arith)
capped_ms_mono m (suc k) class =
    let same : m + suc k ≡ suc (m + k) = omega arith in
    rw same (omega (arith, capped_ms_mono m k class, capped_ms_step (m + k) class))
