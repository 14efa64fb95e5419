-- ===== src/Enclave.antt =====
-- The enclave (enclave/src): balances, channels, batches and the messages that it signs.
pub mod Messages
pub mod State
pub mod Action
pub mod Ledger
pub mod Adaptor
pub mod Channels
pub mod Books
pub mod Runs
mod Tests
pub mod Batch
