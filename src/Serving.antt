-- ===== src/Serving.antt =====
-- Admitting work to a provider: the concurrency gate, the duplicate guard and the relay registry.
pub mod Concurrency
pub mod Idempotency
pub mod RelaySessions
pub mod Schedule
mod Tests
