-- ===== src/Schwab.antt =====
-- src/trading/adapters/schwab: the parsers of a response (Values, Parsing) and the adapter over
-- schwab-py (Adapter).
pub mod Values
pub mod Parsing
pub mod Positions
pub mod Responses
pub mod Adapter
pub mod Mirrored
mod Tests
