-- ===== src/SafeProjection.antt =====
-- src/market_intelligence/safe_projection: the validation of durable factual projections.
mod Tests
pub mod Worker
