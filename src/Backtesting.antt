-- ===== src/Backtesting.antt =====
-- backtesting/: the folds of a walk-forward evaluation.
pub mod WalkForward
