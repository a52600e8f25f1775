-- ===== src/Fleet/Reconcile.antt =====
-- reconcile.py: the bounded diff between the desired state and what hosts report.
pub mod Candidates
pub mod Bound
pub mod Caps
pub mod Progress
pub mod Observations
pub mod Placement
pub mod Reports
pub mod Offers
pub mod Best
