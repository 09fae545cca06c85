-- ===== src/Api/Service/Pools.antt =====
-- crates/gum-api/src/service.rs: `validate_rate_limit_pools`, which a deploy passes first.
pub mod Agree
use Prim.Native.String.{◌++◌ as append}
use gum.Prelude.{Option, none, some, List, [], ◌∷◌, String, str_eq, if◌then◌else◌}
use gum.Map.{Map, get, insert}
use gum.Types.{Result, ok, err, ◌>>=◌}
use gum.Queries.RateLimit.{parse_rate_limit_spec}
use gum.Api.Routes.{RegisteredJob}

conflict : String → String → String → String
conflict pool_name existing raw_spec = append "rate limit pool \"" (
    append pool_name
      (append "\" has conflicting definitions: " (append existing (append " and " raw_spec))))

-- The pools with that of the job, by the definition that stands for the pool so far.
unfoldable pub join_pool : Map String → String → String → Option String → Result (Map String)
unfolding conflict
join_pool pools pool_name raw_spec (some existing) =
    if str_eq existing raw_spec then ok pools else err (conflict pool_name existing raw_spec)
join_pool pools pool_name raw_spec none = ok (insert pool_name raw_spec pools)

unfoldable pub add_pool : Map String → String → Option String → Result (Map String)
unfolding join_pool
add_pool pools raw_spec none = ok pools
add_pool pools raw_spec (some pool_name) = join_pool pools pool_name raw_spec (get pool_name pools)

unfoldable pub check_pools : Map String → List RegisteredJob → Result (Unit {0})
unfolding add_pool
check_pools pools [] = ok tt
check_pools pools (job ∷ jobs) = elim job.rate_limit_spec [
  | none ↦ check_pools pools jobs
  | some raw_spec ↦ do
    spec ← parse_rate_limit_spec raw_spec
    pools' ← add_pool pools raw_spec spec.pool
    check_pools pools' jobs
]

unfoldable pub validate_rate_limit_pools : List RegisteredJob → Result (Unit {0})
unfolding check_pools
validate_rate_limit_pools jobs = check_pools [] jobs
