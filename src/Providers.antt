-- ===== src/Providers.antt =====
-- providers: what bounds a request to a provider.
pub mod Windows
pub mod Continuation
pub mod Tests
