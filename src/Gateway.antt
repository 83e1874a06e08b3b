-- ===== src/Gateway.antt =====
-- client/main.py: the gateway of a client's container, from a webhook to the broker.
pub mod Attempts
pub mod Store
pub mod Secrets
pub mod Dedup
pub mod Reference
pub mod Webhook
pub mod Effect
pub mod Execution
pub mod Recovery
pub mod Tests
