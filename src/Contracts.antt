-- ===== src/Contracts.antt =====
-- client/xts_api.py: from a symbol to a contract of the master data, and the contract's multiplier.
pub mod Symbols
pub mod Multiplier
pub mod Front
pub mod Tests
