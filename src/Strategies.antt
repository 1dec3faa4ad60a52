-- ===== src/Strategies.antt =====
-- strategies/: the management of an open trade.
pub mod ScaleOut
pub mod PositionSizer
pub mod RiskBasedSizer
