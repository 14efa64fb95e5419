-- ===== src/Wire.antt =====
-- What the enclave writes and the vault program reads.
pub mod ReceiptCodec
pub mod VoucherCodec
pub mod Tests
