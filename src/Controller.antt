-- ===== src/Controller.antt =====
-- The controllers (internal/controller).
pub mod Throttle
pub mod Ownership
pub mod Exclusive
pub mod Prune
pub mod Apply
pub mod Metadata
pub mod Conditions
pub mod Placement
pub mod SharedServices
pub mod Reconcile
pub mod Preflight
pub mod Flow
pub mod Lifecycle
