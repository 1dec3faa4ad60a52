-- ===== src/Execution.antt =====
-- The order path: the exposure reservation in Redis and the adapter that guards each order by it.
pub mod Reservation
pub mod Gate
pub mod Validator
