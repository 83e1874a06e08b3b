-- ===== src/Market.antt =====
-- client/config.py and portal/scheduler.py: trading hours, holidays and the commodity rollover.
pub mod Calendar
pub mod Hours
pub mod Rollover
pub mod Tests
