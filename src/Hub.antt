-- ===== src/Hub.antt =====
-- The hub (hub/): the gaps that runners report, and the requests for missing tools.
pub mod Requests
pub mod Gaps
