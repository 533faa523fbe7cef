-- ===== src/Db.antt =====
-- src/market_intelligence/db: the rows that the services keep, and the state of the migrations.
pub mod Models
