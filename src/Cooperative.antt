-- ===== src/Cooperative.antt =====
-- Cooperative inference in the proxy: the gates of dispatch and the cache of receipt nonces.
pub mod Strategies
pub mod Gates
pub mod Aggregation
pub mod Receipts
mod Tests
