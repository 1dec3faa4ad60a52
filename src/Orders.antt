-- ===== src/Orders.antt =====
-- orders/: the life of an order, and the positions that filled orders open.
pub mod Lifecycle
pub mod Positions
pub mod Trade
pub mod Service
