-- ===== src/State.antt =====
-- services/trading-engine/src/state: what the engine recovers after a crash.
pub mod Discrepancy
pub mod Matching
pub mod PositionReconciler
