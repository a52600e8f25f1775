-- ===== src/Fleet.antt =====
-- The fleet manager (fleet-manager/fleet_manager).
pub mod Values
pub mod Desired
pub mod Auth
pub mod Plan
pub mod Audit
pub mod Apply
pub mod Lifecycle
pub mod Wire
pub mod Channel
pub mod Reconcile
pub mod Documents
pub mod SignedState
pub mod Operations
