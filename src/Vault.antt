-- ===== src/Vault.antt =====
-- The on-chain vault program (programs/subly402_vault/src).
pub mod Error
pub mod State
pub mod Platform
pub mod Ed25519
pub mod Receipt
pub mod AscClaim
pub mod BatchHash
pub mod Governance
pub mod Funds
pub mod Settlement
pub mod SettleVault
pub mod RecordAudit
pub mod ForceSettle
pub mod CloseClaim
pub mod Program
pub mod Tests
