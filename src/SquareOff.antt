-- ===== src/SquareOff.antt =====
-- client/xts_api.py, the kill switch: cancelling of open orders and closing of open positions.
pub mod Cancel
pub mod Panic
pub mod Single
pub mod Tests
