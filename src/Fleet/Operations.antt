-- ===== src/Fleet/Operations.antt =====
-- operations.py: the typed operations of host agents, their receipts, and the ledger of both.
pub mod Typed
pub mod Receipts
pub mod Ledger
pub mod Moves
pub mod Backed
pub mod First
