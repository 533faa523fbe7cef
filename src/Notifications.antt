-- ===== src/Notifications.antt =====
-- src/market_intelligence/notifications: intents, delivery and the life of a notification row.
mod Tests
pub mod Delivery
pub mod Life
