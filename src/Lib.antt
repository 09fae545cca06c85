-- ===== src/Lib.antt =====
-- Gum: a queue of background jobs. Deploys register jobs; runs of them are enqueued, replayed or
-- created by schedules; runners lease runs, heartbeat, and report how their attempts ended; a
-- scheduler recovers the attempts of lost runners and probes the providers that jobs depend on. This
-- library models the store behind these, crates/gum-store with its in-memory implementation; the HTTP
-- API over it, crates/gum-api; and the scheduler with its probes, crates/gum-scheduler. It states what
-- the store promises of runs and attempts, and what the API and the scheduler make of that.
--
-- The parts:
--   Prelude, Map, Text    helpers: integers and their wrap-around, lists, maps as association lists
--                         (std's HashMap), the parts of str and of number parsing that are used
--   Types                 crates/gum-types/src/lib.rs: the status enums; also Result
--   Models                crates/gum-store/src/models.rs: the records
--   Queries               crates/gum-store/src/queries.rs: parameters (Params), classes of failures
--                         (Failure), retry delays (Backoff), compute_retry_disposition (Disposition),
--                         rate limits (RateLimit), interval and cron schedules (Schedule), the trait
--                         GumStore as a record of operations (GumStore)
--   Store                 crates/gum-store/src/memory.rs: MemoryState and MemoryStore; the operations
--                         in Deploys, Runners, Enqueue, Lease, Complete, Cancel, Recover, Tick; their
--                         helpers in Signals (health) and Scope (use of limits); what is listed
--                         in Listings; all of them as a GumStore in Instance
--   Lifecycle             the abstract machine: six moves of runs and attempts, and its
--                         invariants; the Refine modules below Store connect the operations to it,
--                         and the Outcome modules say what they answer and write
--   History               the store's operations in any order, from the default store
--   Api                   crates/gum-api/src: routes.rs (Routes), service.rs (Service), the keys of
--                         callers (Auth) and the handlers (Handlers) of handlers.rs, secret_store.rs
--                         (Secrets). Service and Handlers are over any GumStore, Handlers over any
--                         SecretStore too
--   Scheduler             crates/gum-scheduler/src: probes.rs (Probes) and a round of the loop in main.rs
--                         (Loop), over any GumStore
--   Examples              small runs of the store, the API and the probes, at which the theorems are
--                         applied
--
-- An operation is a function from the store to its result and the store that it leaves, also where
-- the result is an error: what is written before an error stays written, as in the source. A field of
-- MemoryState has the source's name; a helper that stands for a part of an operation is named for
-- what it does. A call holds the mutex from start to end, so calls are steps. `now_epoch_ms()` is an
-- argument; in lease_next_attempt, which reads the clock often, it is a LeaseClock with one reading
-- for each place. serde_json's values are the parameter Json.
--
-- Bounds: u32, u64, i32 and i64 wrap or saturate where the release build does. The counter of
-- identifiers wraps at 2 ^ 64; theorems that need new identifiers ask that as many are left as a call
-- or history takes. `retries + 1` wraps; theorems that need it ask for fewer than 2 ^ 32 - 1 retries.
-- The loops of schedules run on fuel, one round for each millisecond between the last due time and
-- now and two more, since each round moves on by a millisecond or more; `none` is a call that panics
-- or does not end. The cron search has the source's own bound on minutes.
--
-- Parameters stand for libraries: Calendar for chrono and chrono-tz (which names are zones, and the
-- local time of an instant), JsonLibrary for serde_json's values, HttpLibrary for reqwest, for serde's
-- parsing of a probe's configuration and for environment variables, Base64 for its decoders. A
-- handler's `Authorization` header is an argument, as it is found among the request's headers.
-- HashMap iterates in the order of the association list, which no theorem fixes.
--
-- Not modelled: the PostgreSQL stores of runs and of secrets (SQL, and AES-GCM), axum's routing and
-- the encoding of requests and responses, gum-runner and gum-admin (HTTP and processes), the timers of
-- the scheduler, the poisoning of mutexes.
mod Prelude
pub mod Map
pub mod Text
pub mod Types
pub mod Models
pub mod Queries
pub mod Store
pub mod Lifecycle
pub mod History
pub mod Api
pub mod Scheduler
pub mod Examples
