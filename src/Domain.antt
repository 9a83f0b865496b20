-- ===== src/Domain.antt =====
-- The value types of src/trading/domain.
pub mod Symbol
pub mod Money
pub mod Portfolio
pub mod Congress
pub mod Events
pub mod Execution
mod Tests
