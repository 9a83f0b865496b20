-- ===== src/Ledger.antt =====
-- src/trading/application/signals/generate_digest.py: the recommendation ledger, the block of the model
-- (Block) and the use case (Digest). A step of the ledger takes the parsed recommendation. Times are
-- microseconds since the epoch, and days are those of UTC.
pub mod Row
pub mod Detect
pub mod Record
pub mod Lifecycle
pub mod Final
pub mod Supersede
pub mod Block
pub mod Digest
mod DigestLedger
pub mod Expiry
pub mod Nan
mod Tests
mod BlockTests
