-- ===== src/Vault/Tests.antt =====
-- The program's calls on concrete chains, with a concrete platform.
pub mod Machine
pub mod Samples
pub mod Money
pub mod Disputes
pub mod Batches
pub mod Signatures
