-- ===== src/Collection.antt =====
-- src/market_intelligence/collection: the collection of provider data, its errors, retries, cursors
-- and locks, the runner of a legacy target and the control plane of the unified
-- targets, with their repository, its revisions and the claim of those that are due.
mod Tests
pub mod Errors
pub mod Retry
pub mod Cursors
pub mod Locking
pub mod ControlPlane
pub mod Runner
pub mod Targets
pub mod Dispatch
pub mod Revisions
