-- ===== src/Events.antt =====
-- event_intelligence: how the evidence is grouped into event candidates and how they are scored.
pub mod Rows
pub mod Matching
pub mod Scoring
pub mod Store
pub mod Aggregates
pub mod Service
pub mod Tests
