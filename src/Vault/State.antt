-- ===== src/Vault/State.antt =====
-- programs/subly402_vault/src/state and constants.rs: the accounts that the program owns, the
-- token accounts that it moves money between, and the chain as a table of each.
use privacy_x.Base.{
  ℕ, Bool, Option, some, Bytes, Result, ok, err, ok_or, ℤ, ◌≡◌, arith, bytes_eq, refl,
  if◌then◌else◌,
}
use privacy_x.Base.Store.{Store, put, put_self}
use privacy_x.Vault.Error.{ProgramError, account_not_initialized}

-- A `Pubkey`, a `[u8; 32]` hash and a `[u8; 64]` signature are byte strings.
abbrev pub Pubkey : Type 0
Pubkey = Bytes

abbrev pub max_settlements_per_tx : ℕ
max_settlements_per_tx = 20

abbrev pub max_atomic_audits_per_tx : ℕ
max_atomic_audits_per_tx = 5

abbrev pub dispute_window_sec : ℕ
dispute_window_sec = 86400

abbrev pub vault_status_active : ℕ
vault_status_active = 0

abbrev pub vault_status_paused : ℕ
vault_status_paused = 1

abbrev pub vault_status_migrating : ℕ
vault_status_migrating = 2

abbrev pub vault_status_retired : ℕ
vault_status_retired = 3

pub record VaultConfig : Type 0 where
  pub bump : ℕ
  pub vault_id : ℕ
  pub governance : Pubkey
  pub status : ℕ
  pub vault_signer_pubkey : Pubkey
  pub usdc_mint : Pubkey
  pub vault_token_account : Pubkey
  pub auditor_master_pubkey : Bytes
  pub auditor_epoch : ℕ
  pub attestation_policy_hash : Bytes
  pub successor_vault : Pubkey
  pub exit_deadline : ℤ
  pub lifetime_deposited : ℕ
  pub lifetime_withdrawn : ℕ
  pub lifetime_settled : ℕ

pub record AscCloseClaim : Type 0 where
  pub bump : ℕ
  pub vault : Pubkey
  pub channel_id_hash : Bytes
  pub request_id_hash : Bytes
  pub request_hash : Bytes
  pub provider_pubkey : Bytes
  pub full_sig_r : Bytes
  pub full_sig_s : Bytes
  pub amount : ℕ
  pub voucher_issued_at : ℤ
  pub claimed_at : ℤ

pub record AuditRecord : Type 0 where
  pub bump : ℕ
  pub vault : Pubkey
  pub batch_id : ℕ
  pub index : ℕ
  pub encrypted_sender : Bytes
  pub encrypted_amount : Bytes
  pub provider : Pubkey
  pub timestamp : ℤ
  pub auditor_epoch : ℕ

pub record ForceSettleRequest : Type 0 where
  pub bump : ℕ
  pub vault : Pubkey
  pub participant : Pubkey
  pub participant_kind : ℕ
  pub recipient_ata : Pubkey
  pub free_balance_due : ℕ
  pub locked_balance_due : ℕ
  pub max_lock_expires_at : ℤ
  pub receipt_nonce : ℕ
  pub receipt_signature : Bytes
  pub initiated_at : ℤ
  pub dispute_deadline : ℤ
  pub is_resolved : Bool

pub record UsedWithdrawNonce : Type 0 where
  pub bump : ℕ
  pub vault : Pubkey
  pub client : Pubkey
  pub withdraw_nonce : ℕ

-- An account that the program owns: its discriminator says which of these it is.
pub data Account : Type 0 where
  vault_config : VaultConfig → Account
  asc_close_claim : AscCloseClaim → Account
  audit_record : AuditRecord → Account
  force_settle_request : ForceSettleRequest → Account
  used_withdraw_nonce : UsedWithdrawNonce → Account

-- What the program reads of an SPL token account.
pub record TokenAccount : Type 0 where
  pub mint : Pubkey
  pub owner : Pubkey
  pub amount : ℕ

abbrev pub Tokens : Type 0
Tokens = Store TokenAccount

pub record Chain : Type 0 where
  pub accounts : Store Account
  pub tokens : Tokens

as_vault_config : Option Account → Result ProgramError VaultConfig
as_vault_config (some (vault_config v)) = ok v
as_vault_config _ = err account_not_initialized

as_force_settle_request : Option Account → Result ProgramError ForceSettleRequest
as_force_settle_request (some (force_settle_request r)) = ok r
as_force_settle_request _ = err account_not_initialized

-- `Account<'info, VaultConfig>`, `Account<'info, ForceSettleRequest>`, `Account<'info, TokenAccount>`.
unfoldable pub load_vault_config : Chain → Pubkey → Result ProgramError VaultConfig
unfolding as_vault_config
load_vault_config c k = as_vault_config (c.accounts k)

unfoldable pub load_force_settle_request : Chain → Pubkey → Result ProgramError ForceSettleRequest
unfolding as_force_settle_request
load_force_settle_request c k = as_force_settle_request (c.accounts k)

unfoldable pub load_token_account : Chain → Pubkey → Result ProgramError TokenAccount
load_token_account c k = ok_or (c.tokens k) account_not_initialized

-- What Anchor writes back of an account when the handler has returned.
unfoldable pub save : Chain → Pubkey → Account → Chain
unfolding put
save c k a = record c { accounts = put c.accounts k a }

pub load_vault_config-eq-ok :
    (c : Chain) (k : Pubkey) {v : VaultConfig}
    → load_vault_config c k ≡ ok v
    → c.accounts k ≡ some (vault_config v)
unfolding load_vault_config
load_vault_config-eq-ok c k h = ground arith

pub load_force_settle_request-eq-ok :
    (c : Chain) (k : Pubkey) {r : ForceSettleRequest}
    → load_force_settle_request c k ≡ ok r
    → c.accounts k ≡ some (force_settle_request r)
unfolding load_force_settle_request
load_force_settle_request-eq-ok c k h = ground arith

pub load_token_account-eq-ok :
    (c : Chain) (k : Pubkey) {t : TokenAccount}
    → load_token_account c k ≡ ok t
    → c.tokens k ≡ some t
unfolding load_token_account
load_token_account-eq-ok c k h = ground arith

-- An account after `save`.
pub save_at :
    (c : Chain) (key k : Pubkey) (a : Account)
    → (save c key a).accounts k ≡ (if bytes_eq key k then some a else c.accounts k)
unfolding save
save_at c key k a = refl

pub save_self : (c : Chain) (key : Pubkey) (a : Account) → (save c key a).accounts key ≡ some a
unfolding save
save_self c key a = put_self c.accounts key a
