-- ===== src/Queries.antt =====
-- crates/gum-store/src/queries.rs: the rules that every store shares.
pub mod Params
pub mod Failure
pub mod Backoff
pub mod Disposition
pub mod RateLimit
pub mod Schedule
pub mod GumStore
