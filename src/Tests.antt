-- ===== src/Tests.antt =====
-- Concrete runs: each theorem at an input that its hypotheses admit.
mod Fleet
mod Coherence
mod Hub
mod Lifecycle
mod Gaps
mod Channel
mod Reconcile
mod SignedState
mod Operations
mod Placement
