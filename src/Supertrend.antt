-- ===== src/Supertrend.antt =====
-- client/supertrend_engine.py: the strategies' runners and what they order.
pub mod Legs
pub mod Balance
pub mod Sync
pub mod Exact
pub mod Indicator
pub mod Candles
pub mod Timeframe
pub mod Tests
