-- ===== src/Rules.antt =====
-- The compliance rules of services/trading-engine/src/rules, and the engine that runs them.
pub mod Model
pub mod Ladder
pub mod Grading
pub mod DailyLoss
pub mod MaxDrawdown
pub mod PositionSize
pub mod Consistency
pub mod Targets
pub mod Engine
pub mod Overrides
