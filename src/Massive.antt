-- ===== src/Massive.antt =====
-- src/trading/adapters/massive: the parsers of market data (Parsing) and the client (Client).
pub mod Parsing
pub mod Client
pub mod Priced
mod Tests
