-- ===== src/StateProcessor.antt =====
-- src/state_processor.rs: the handlers of state changes, on the shared state and the metrics.
pub mod Handlers
pub mod Laws
pub mod Gauge
pub mod Moved
