-- ===== src/Lifecycle.antt =====
-- The draft task lifecycle: src/iicp_client/service_lifecycle.py and its neighbours.
pub mod States
pub mod Store
pub mod Cancellation
pub mod Observer
pub mod Accounting
