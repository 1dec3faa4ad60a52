-- ===== src/Orders/Service.antt =====
-- orders/execution_service.py: OrderExecutionService, over the order life cycle, the position tracker
-- and the trade records.
pub mod Model
pub mod Handlers
pub mod Execution
pub mod Fills
pub mod Failures
