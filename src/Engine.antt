-- ===== src/Engine.antt =====
-- client/supertrend_engine.py: the engine, which holds a client's strategies.
pub mod Strategy
pub mod Registry
pub mod Targets
pub mod Reconcile
pub mod Tests
