-- ===== src/Portal.antt =====
-- portal/: the administration of the clients.
pub mod Login
pub mod Alignment
pub mod Breaker
pub mod Sessions
pub mod Tests
