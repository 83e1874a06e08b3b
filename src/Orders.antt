-- ===== src/Orders.antt =====
-- client/xts_api.py: sizing, naming, pricing, pacing and placing of broker orders.
pub mod Slicing
pub mod Tick
pub mod Limiter
pub mod Ref
pub mod Book
pub mod Dispatch
pub mod Place
pub mod Retry
pub mod Tests
