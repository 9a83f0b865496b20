-- ===== src/Quiver.antt =====
-- src/trading/adapters/quiver: the parsers of a response and the client that fetches it.
pub mod Fields
pub mod Values
pub mod Records
pub mod Client
pub mod Pages
mod Tests
