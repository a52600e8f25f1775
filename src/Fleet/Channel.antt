-- ===== src/Fleet/Channel.antt =====
-- channel.py: enrolment of host agents, rotation of their keys, and signed reports.
pub mod Credentials
pub mod Envelopes
pub mod Manager
pub mod Runs
pub mod Moves
pub mod Ledger
pub mod Revocation
pub mod Once
pub mod Reports
pub mod Documents
