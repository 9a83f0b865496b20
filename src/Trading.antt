-- ===== src/Trading.antt =====
-- Orders: the spec builder of the Schwab adapter, and the use case that previews and submits.
pub mod EquitySpec
pub mod Command
pub mod PlaceOrder
mod Tests
