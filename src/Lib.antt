-- ===== src/Lib.antt =====
-- Verification library of Subly402: the on-chain vault program, and the enclave's ledger, service
-- channels and signed messages.
--
-- The program. A vault holds the USDC of many clients in one SPL token account. The enclave
-- (enclave/src) keeps the clients' balances off chain and signs, with the vault's signer, what the
-- vault program (programs/subly402_vault/src) pays out: withdrawals, batches of settlements, and
-- the participant receipts on which a participant opens a force-settle request when the enclave
-- is gone. A request can be challenged with a newer receipt until its dispute deadline, then
-- finalized. A close claim records an atomic service channel's voucher and payment signature.
--
-- The parts and their files.
--   Base and Base/*: results with an error, native numbers with their machine ranges, i64 as the
--     integers of its range, little-endian encodings, tables as functions.
--   Vault/State, Vault/Error: programs/subly402_vault/src/state, constants.rs and error.rs. A chain
--     is a table of the program's accounts and a table of token accounts.
--   Vault/Platform: the parameters. `Platform` has the token program's transfer, program addresses,
--     SHA-256 and the Borsh readers; `Env` has the clock, the signers, the mints, the accounts that
--     can be funded, and the transaction's instructions. `TransferLaws` is what the SPL token
--     program documents of a transfer that succeeds.
--   Vault/Ed25519, Vault/Receipt: ed25519_utils.rs. Vault/AscClaim: asc_claim.rs. Vault/BatchHash:
--     batch_hash.rs.
--   Vault/Governance: pause_vault.rs, announce_migration.rs, retire_vault.rs, rotate_auditor.rs.
--   Vault/Funds: initialize_vault.rs, deposit.rs, withdraw.rs.
--   Vault/Settlement, Vault/SettleVault, Vault/RecordAudit: settle_vault.rs and record_audit.rs.
--   Vault/ForceSettle: force_settle_init.rs, force_settle_challenge.rs, force_settle_finalize.rs.
--   Vault/CloseClaim: asc_close_claim.rs.
--   Vault/Program: lib.rs. `Call` is an instruction with its accounts and arguments, `execute`
--     dispatches it; `Reach` is a run of calls and of token moves that the program does not make.
--   Enclave/Messages, Wire: the messages of enclave/src/state.rs, against the program's decoder.
--   Enclave/State, Enclave/Action: enclave/src/state.rs's records, and operations on them, which
--     return a value or an error together with the state as it is left.
--   Enclave/Ledger: the operations of state.rs on balances, withdrawals and credits.
--   Enclave/Adaptor: enclave/src/adaptor_sig.rs, over a curve that is a parameter (`Curve`, with the
--     laws that curve25519_dalek documents in `CurveLaws`).
--   Enclave/Channels: enclave/src/asc_manager.rs. Close and Finalize hold the rest of its operations,
--     Machine and Calls what they do to one channel, Undo and TakenBack what an operation leaves when
--     its handler takes it back, the other children what follows from it.
--   Enclave/Batch: the decisions of enclave/src/batch.rs, with ElGamal encryption as a parameter.
--   Enclave/Books, Enclave/Runs: what the enclave owes, through runs of its operations.
-- Each handler is one function from a chain to a chain or an error, with the account constraints
-- in the order in which Anchor checks them and the checks of the body in the order of the code.
-- A call that fails leaves the chain as it was, as the runtime rolls a transaction back. In the
-- enclave an operation that fails keeps what it has changed. The current time and fresh identifiers
-- are arguments; each map is a table in which a key stands once.
--
-- Numbers. u64, u32 and u8 are native numbers, and each operation that the code checks for overflow
-- is checked here; i64 is an integer with its range. Bytes are lists of numbers; what is read out
-- of bytes has the bytes' range as a hypothesis.
--
-- Bounds. The search for the other half of a batch looks at 32 instructions, and the search for a
-- free audit index tries 256, as in the code; both are structural in that number, and each
-- ends with the code's error when it is used up. The selection of settlements for a batch has
-- `max_entries` rounds as its fuel, as each round but the last takes a settlement.
--
-- Not modelled: rent and account sizes, the encryption of audit records, the enclave's request
-- handlers, the records that a batch is selected from and its submission, network, storage, key
-- management and attestation, the watchtower, the parent instance, and the TypeScript clients. A
-- sum that would panic in the middle of an update of a channel stands before the update, so what
-- such an update leaves after a panic is not modelled.
pub mod Base
pub mod Vault
pub mod Enclave
pub mod Wire
