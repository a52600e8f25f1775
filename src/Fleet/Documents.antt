-- ===== src/Fleet/Documents.antt =====
-- documents.py: the desired state as JSON, closed in both directions.
pub mod Fields
pub mod Write
pub mod Read
pub mod Parts
pub mod Labels
pub mod RoundTrip
