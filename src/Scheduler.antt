-- ===== src/Scheduler.antt =====
-- src/market_intelligence/scheduler: the four-provider cycle and its Telegram messages.
mod Tests
pub mod Formatter
pub mod Cycle
pub mod Reliable
