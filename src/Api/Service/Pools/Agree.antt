-- ===== src/Api/Service/Pools/Agree.antt =====
-- crates/gum-api/src/service.rs: what `validate_rate_limit_pools` lets pass.
use gum.Prelude.{◌≡◌, sym, inl, inr, some, List, [], ◌∷◌, String, eq_iff, arith, Option-cases}
use gum.Map.{Map, get, get-insert}
use gum.Types.{ok, Result-cases}
use gum.Queries.RateLimit.{RateLimitSpec, parse_rate_limit_spec}
use gum.Api.Routes.{RegisteredJob}
use gum.Api.Service.Pools.{join_pool, add_pool, check_pools, validate_rate_limit_pools}

-- The job has a rate limit that is shared by the pool.
pub record Shares (job : RegisteredJob) (pool raw : String) : Type 0 where
  pub spec : RateLimitSpec
  pub written : job.rate_limit_spec ≡ some raw
  pub parsed : parse_rate_limit_spec raw ≡ ok spec
  pub shared : spec.pool ≡ some pool

-- Some job of the list defines the pool by the text.
pub data Defines (pool raw : String) : List RegisteredJob → Type 0 where
  here :
      {job : RegisteredJob} {jobs : List RegisteredJob}
      → Shares job pool raw
      → Defines pool raw (job ∷ jobs)
  there :
      {job : RegisteredJob} {jobs : List RegisteredJob}
      → Defines pool raw jobs
      → Defines pool raw (job ∷ jobs)

-- What the rest of the jobs is checked against.
record Step (pools : Map String) (job : RegisteredJob) (jobs : List RegisteredJob) : Type 0 where
  next : Map String
  rest : check_pools next jobs ≡ ok tt
  kept : (pool raw : String) → get pool pools ≡ some raw → get pool next ≡ some raw
  added : (pool raw : String) → Shares job pool raw → get pool next ≡ some raw

join_pool-kept :
    (pools next : Map String) (name raw pool old : String)
    → join_pool pools name raw (get name pools) ≡ ok next
    → get pool pools ≡ some old
    → get pool next ≡ some old
unfolding join_pool
join_pool-kept pools next name raw pool old h e = elim (Option-cases (get name pools)) [
  | inl fresh ↦ ground (arith, get-insert name pool raw pools, eq_iff name pool)
  | inr (existing, found) ↦ ground arith
]

join_pool-added :
    (pools next : Map String) (name raw : String)
    → join_pool pools name raw (get name pools) ≡ ok next
    → get name next ≡ some raw
unfolding join_pool
join_pool-added pools next name raw h = elim (Option-cases (get name pools)) [
  | inl fresh ↦ ground (arith, get-insert name name raw pools, eq_iff name name)
  | inr (existing, found) ↦ ground (arith, eq_iff existing raw)
]

check-Step :
    (pools : Map String) (job : RegisteredJob) (jobs : List RegisteredJob)
    → check_pools pools (job ∷ jobs) ≡ ok tt
    → Step pools job jobs
unfolding check_pools add_pool
check-Step pools job jobs h = elim (Option-cases job.rate_limit_spec) [
  | inl unlimited ↦ record {
    next = pools;
    rest = ground arith;
    kept = λ pool raw e. e;
    added = λ pool raw shares. ground (arith, shares.written);
  }
  | inr (raw, limited) ↦ elim (Result-cases (parse_rate_limit_spec raw)) [
    | inr (e, wrong) ↦ ground arith
    | inl (spec, parsed) ↦ elim (Option-cases spec.pool) [
      | inl own ↦ record {
        next = pools;
        rest = ground arith;
        kept = λ pool raw' e. e;
        added = λ pool raw' shares. ground (arith, shares.written, shares.parsed, shares.shared);
      }
      | inr (name, shared) ↦ elim (Result-cases (join_pool pools name raw (get name pools))) [
        | inr (e, conflict) ↦ ground arith
        | inl (next, joined) ↦ record {
          next = next;
          rest = ground arith;
          kept = λ pool old e. join_pool-kept pools next name raw pool old joined e;
          added = λ pool raw' shares. ground (arith, join_pool-added pools next name raw joined);
        }
      ]
    ]
  ]
]

kept_to_end :
    (pools : Map String) (jobs : List RegisteredJob) (pool first raw : String)
    → check_pools pools jobs ≡ ok tt
    → get pool pools ≡ some first
    → Defines pool raw jobs
    → first ≡ raw
kept_to_end pools [] pool first raw h e none_defines = elim none_defines [ ]
kept_to_end pools (job ∷ jobs) pool first raw h e (here shares) =
    let step = check-Step pools job jobs h in
    ground (arith, step.kept pool first e, step.added pool raw shares)
kept_to_end pools (job ∷ jobs) pool first raw h e (there later) =
    let step = check-Step pools job jobs h in
    kept_to_end step.next jobs pool first raw step.rest (step.kept pool first e) later

agree :
    (pools : Map String) (jobs : List RegisteredJob) (pool first second : String)
    → check_pools pools jobs ≡ ok tt
    → Defines pool first jobs
    → Defines pool second jobs
    → first ≡ second
agree pools [] pool first second h none_defines _ = elim none_defines [ ]
agree pools (job ∷ jobs) pool first second h (here a) (here b) =
    ground (arith, a.written, b.written)
agree pools (job ∷ jobs) pool first second h (here a) (there b) =
    let step = check-Step pools job jobs h in
    kept_to_end step.next jobs pool first second step.rest (step.added pool first a) b
agree pools (job ∷ jobs) pool first second h (there a) (here b) =
    let step = check-Step pools job jobs h in
    sym (kept_to_end step.next jobs pool second first step.rest (step.added pool second b) a)
agree pools (job ∷ jobs) pool first second h (there a) (there b) =
    let step = check-Step pools job jobs h in agree step.next jobs pool first second step.rest a b

-- Where the jobs of a deploy pass the check, all of them that share a pool write its rate limit in
-- the same way.
pub pools_agree :
    (jobs : List RegisteredJob) (pool first second : String)
    → validate_rate_limit_pools jobs ≡ ok tt
    → Defines pool first jobs
    → Defines pool second jobs
    → first ≡ second
unfolding validate_rate_limit_pools
pools_agree jobs pool first second h a b = agree [] jobs pool first second h a b
