-- ===== src/Regime.antt =====
-- regime/: the per-bar classifier, and the filter that confirms a change of regime.
pub mod Model
pub mod Classifier
pub mod Hysteresis
