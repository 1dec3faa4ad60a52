-- ===== src/Samples.antt =====
-- Concrete inputs, and the theorems at them.
pub mod Fixed
pub mod Rules
pub mod Engine
pub mod Overrides
pub mod Orders
pub mod Execution
pub mod Regime
pub mod Strategies
pub mod Sizing
pub mod Accounts
pub mod Service
pub mod State
pub mod Validator
pub mod Backtesting
