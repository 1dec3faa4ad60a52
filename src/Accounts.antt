-- ===== src/Accounts.antt =====
-- accounts/: the life of an account, its risk metrics and its profit and loss.
pub mod RiskState
pub mod Registry
pub mod Manager
pub mod Isolation
pub mod PnlTracker
pub mod PnlRegistry
pub mod SignalRouter
pub mod PhasePromotion
