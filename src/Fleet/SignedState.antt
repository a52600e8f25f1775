-- ===== src/Fleet/SignedState.antt =====
-- state.py: desired states that the manager signs for one audience, and the host's check of them.
pub mod States
pub mod Issue
pub mod Accept
