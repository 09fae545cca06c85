-- ===== src/Api.antt =====
-- crates/gum-api: the HTTP service in front of the store.
pub mod Routes
pub mod Action
pub mod Json
pub mod Auth
pub mod Secrets
pub mod Service
pub mod Handlers
