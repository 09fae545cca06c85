-- ===== src/Api/Service.antt =====
-- crates/gum-api/src/service.rs: what the service does with a store, behind the interface
-- `GumStore`. A function takes the store's state and returns its result with the state it leaves.
pub mod Key
pub mod Pools
pub mod Waiting
pub mod Views
pub mod Runs
pub mod Runners
pub mod Deploys
