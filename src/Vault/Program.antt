-- ===== src/Vault/Program.antt =====
-- programs/subly402_vault/src/lib.rs: the program's entry points as one data type of calls, and the
-- chain as it moves under calls of the program and under what other programs do to token accounts.
pub mod Evolution
pub mod GovernanceCalls
pub mod DepositCall
pub mod WithdrawCall
pub mod SettleCall
pub mod MoneyCalls
pub mod RequestCalls
pub mod AuditCalls
pub mod Frame
pub mod Books
pub mod Lifecycle
pub mod Retired
pub mod Requests
pub mod Permanent
use privacy_x.Base.{ℕ, Bytes, Result, ok, ◌≡◌, ℤ, ◌≤ℤ◌, List}
use privacy_x.Vault.Error.{ProgramError}
use privacy_x.Vault.State.{Pubkey, Tokens, Chain}
use privacy_x.Vault.Platform.{Platform, Env, AuditRecordData, SettlementEntry}
use privacy_x.Vault.Governance
use privacy_x.Vault.Funds
use privacy_x.Vault.Funds.{DepositAccounts, WithdrawAccounts}
use privacy_x.Vault.SettleVault
use privacy_x.Vault.RecordAudit
use privacy_x.Vault.ForceSettle
use privacy_x.Vault.ForceSettle.{ReceiptArgs}
use privacy_x.Vault.CloseClaim

pub data Call : Type 0 where
  initialize_vault :
      (governance usdc_mint : Pubkey) (vault_id : ℕ) (vault_signer_pubkey : Pubkey)
      (auditor_master_pubkey attestation_policy_hash : Bytes)
      → Call
  deposit : DepositAccounts → (amount : ℕ) → Call
  withdraw : WithdrawAccounts → (amount withdraw_nonce : ℕ) (expires_at : ℤ) → Call
  settle_vault :
      (vault_signer vault vault_token : Pubkey) (remaining : List Pubkey) (batch_id : ℕ)
      (batch_chunk_hash : Bytes)
      → List SettlementEntry
      → Call
  record_audit :
      (vault_signer vault : Pubkey) (remaining : List Pubkey) (batch_id : ℕ)
      (batch_chunk_hash : Bytes)
      → List AuditRecordData
      → Call
  asc_close_claim : (caller vault : Pubkey) (channel_id_hash request_id_hash : Bytes) → Call
  pause_vault : (governance vault : Pubkey) → Call
  announce_migration : (governance vault successor_vault : Pubkey) (exit_deadline : ℤ) → Call
  retire_vault : (governance vault : Pubkey) → Call
  rotate_auditor : (governance vault : Pubkey) (new_auditor_master_pubkey : Bytes) → Call
  force_settle_init : (participant vault : Pubkey) (participant_kind : ℕ) → ReceiptArgs → Call
  force_settle_challenge : (challenger vault request : Pubkey) → ReceiptArgs → Call
  force_settle_finalize : (caller vault request vault_token recipient_token : Pubkey) → Call

unfoldable pub execute : Platform → Env → Call → Chain → Result ProgramError Chain
execute p e (initialize_vault g m id s a h) c = Funds.initialize_vault p e g m id s a h c
execute p e (deposit a amount) c = Funds.deposit p e a amount c
execute p e (withdraw a amount nonce expires_at) c = Funds.withdraw p e a amount nonce expires_at c
execute p e (settle_vault s v t remaining id hash entries) c =
    SettleVault.settle_vault p e s v t remaining id hash entries c
execute p e (record_audit s v remaining id hash records) c =
    RecordAudit.record_audit p e s v remaining id hash records c
execute p e (asc_close_claim caller v channel request) c =
    CloseClaim.asc_close_claim p e caller v channel request c
execute p e (pause_vault g v) c = Governance.pause_vault e g v c
execute p e (announce_migration g v successor deadline) c =
    Governance.announce_migration e g v c successor deadline
execute p e (retire_vault g v) c = Governance.retire_vault e g v c
execute p e (rotate_auditor g v key) c = Governance.rotate_auditor e g v c key
execute p e (force_settle_init participant v kind r) c =
    ForceSettle.force_settle_init p e participant v kind r c
execute p e (force_settle_challenge challenger v key r) c =
    ForceSettle.force_settle_challenge p e challenger v key r c
execute p e (force_settle_finalize caller v key t r) c =
    ForceSettle.force_settle_finalize p e caller v key t r c

-- The chain at a time.
pub record World : Type 0 where
  pub chain : Chain
  pub now : ℤ

-- A call that succeeds, at a time that is not earlier; or other programs move tokens. A call that
-- fails leaves the chain as it was.
pub data Step (p : Platform) : World → World → Type 0 where
  call :
      {w : World} (e : Env) (x : Call) (c : Chain)
      → w.now ≤ℤ e.clock
      → execute p e x w.chain ≡ ok c
      → Step p w (record { chain = c; now = e.clock })
  tokens_move :
      {w : World} (t : Tokens)
      → Step p w (record { chain = record w.chain { tokens = t }; now = w.now })

pub data Reach (p : Platform) (w : World) : World → Type 0 where
  here : Reach p w w
  next : {u v : World} → Reach p w u → Step p u v → Reach p w v
