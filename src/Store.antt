-- ===== src/Store.antt =====
-- crates/gum-store/src/memory.rs: the state of `MemoryStore` and its identifiers. The operations
-- are in the modules below: an operation takes the store and returns its result with the store
-- that it leaves, also where the result is an error. The mutex makes each operation one step.
pub mod Recover
pub mod Deploys
pub mod Runners
pub mod Tick
pub mod Complete
pub mod Cancel
pub mod Signals
pub mod Scope
pub mod Lease
pub mod Listings
pub mod Instance
pub mod Enqueue
use Prim.Native.String.{◌++◌ as append}
use gum.Prelude.{ℕ, ◌+◌, ◌%◌, ◌^◌, ◌≡◌, String, List, []}
use gum.Map.{Map}
use gum.Text.Decimal.{format}
use gum.Models.{
  ProjectRecord, DeployRecord, JobRecord, RunRecord, AttemptRecord, LeaseRecord, RunnerRecord,
  ControlLeaseRecord, ProviderTargetRecord, ProviderHealthRecord, ProviderCheckRecord,
  FunctionHealthRecord, RunKeyRecord, LogRecord,
}

pub record MemoryState (Json : Type 0) : Type 0 where
  pub projects : Map ProjectRecord
  pub deploys : Map DeployRecord
  pub jobs : Map JobRecord
  pub runs : Map (RunRecord Json)
  pub attempts : Map AttemptRecord
  pub leases : Map LeaseRecord
  pub runners : Map RunnerRecord
  pub control_leases : Map ControlLeaseRecord
  pub provider_targets : Map (ProviderTargetRecord Json)
  pub provider_health : Map ProviderHealthRecord
  pub provider_checks : List ProviderCheckRecord
  pub function_health : Map FunctionHealthRecord
  pub run_keys : Map RunKeyRecord
  pub logs : List LogRecord

-- `ids` is the atomic counter, `state` what the mutex guards.
pub record MemoryStore (Json : Type 0) : Type 0 where
  pub ids : ℕ
  pub state : MemoryState Json

-- `MemoryStore::default()`
abbrev pub default : {Json : Type 0} → MemoryStore Json
default = record {
  ids = 0;
  state = record {
    projects = [];
    deploys = [];
    jobs = [];
    runs = [];
    attempts = [];
    leases = [];
    runners = [];
    control_leases = [];
    provider_targets = [];
    provider_health = [];
    provider_checks = [];
    function_health = [];
    run_keys = [];
    logs = [];
  };
}

-- The counter after `fetch_add(1)`, which is also the number in the identifier.
unfoldable pub next_number : ℕ → ℕ
next_number ids = (ids + 1) % 2 ^ 64

-- `format!("{prefix}_{id}")`
unfoldable pub identifier : String → ℕ → String
identifier prefix id = append prefix (append "_" (format id))

module _ {Json : Type 0} where
  -- `next_id`: the identifier, and the counter that it leaves.
  unfoldable pub next_id : MemoryStore Json → String → String × ℕ
  next_id s prefix = (identifier prefix (next_number s.ids), next_number s.ids)
