-- ===== src/Routing.antt =====
-- Choosing provider nodes: the selector, the circuit breaker, the retries and the recovery states.
pub mod Breaker
pub mod Retry
pub mod Selector
pub mod Recovery
pub mod Race
pub mod Router
pub mod Fallback
pub mod Peers
mod Tests
