-- ===== src/Vault/Funds.antt =====
-- initialize_vault.rs, deposit.rs and withdraw.rs of programs/subly402_vault/src/instructions.
use privacy_x.Base.{
  ℕ, ◌||◌, Bytes, bytes_eq, Result, ok, ok_or, require, ◌>>=◌, ◌>>◌, ◌==◌, ltb, checked_add, ℤ, pos,
  leb_ℤ, List, [], ◌∷◌, concat, u64_bytes, i64_bytes, replicate,
}
use privacy_x.Base.Store.{put}
use privacy_x.Vault.Error.{
  ProgramError, custom, account_not_signer, account_not_initialized, constraint_raw,
  constraint_address, token_error, vault_inactive, invalid_amount, arithmetic_overflow,
  exit_deadline_exceeded, withdraw_expired, invalid_participant_receipt,
}
use privacy_x.Vault.State.{
  Pubkey, VaultConfig, vault_config, used_withdraw_nonce, UsedWithdrawNonce, TokenAccount, Chain,
  load_vault_config, load_token_account, save, vault_status_active, vault_status_migrating,
}
use privacy_x.Vault.Platform.{Platform, Env, TokenTransfer, init_account}
use privacy_x.Vault.Ed25519.{verify_ed25519_signature}
use privacy_x.Vault.Governance.{when}
use privacy_x.Vault.AscClaim.{ascii}

-- `Pubkey::default()`.
abbrev pub default_pubkey : Pubkey
default_pubkey = replicate 32 0

-- The seeds of the program's accounts.
abbrev pub vault_config_seeds : Pubkey → ℕ → List Bytes
vault_config_seeds governance vault_id = ascii "vault_config" ∷ governance ∷ u64_bytes vault_id ∷ []

abbrev pub vault_token_seeds : Pubkey → List Bytes
vault_token_seeds vault = ascii "vault_token" ∷ vault ∷ []

abbrev pub withdraw_nonce_seeds : Pubkey → Pubkey → ℕ → List Bytes
withdraw_nonce_seeds vault client withdraw_nonce =
    ascii "withdraw_nonce" ∷ vault ∷ client ∷ u64_bytes withdraw_nonce ∷ []

-- The seeds by which the vault signs its own transfers.
abbrev pub vault_signer_seeds : VaultConfig → List Bytes
vault_signer_seeds vault =
    ascii "vault_config" ∷ vault.governance ∷ u64_bytes vault.vault_id ∷ (vault.bump ∷ []) ∷ []

pub record DepositAccounts : Type 0 where
  pub client : Pubkey
  pub vault_config : Pubkey
  pub client_token_account : Pubkey
  pub vault_token_account : Pubkey

module _ (p : Platform) (e : Env) where
  unfoldable pub initialize_vault :
      (governance usdc_mint : Pubkey) (vault_id : ℕ) (vault_signer_pubkey : Pubkey)
      (auditor_master_pubkey attestation_policy_hash : Bytes) (chain : Chain)
      → Result ProgramError Chain
  initialize_vault governance usdc_mint vault_id vault_signer_pubkey auditor_master_pubkey
        attestation_policy_hash chain =
      do
        require (e.is_signer governance) account_not_signer
        let (key, bump) = p.find_program_address (vault_config_seeds governance vault_id)
        init_account e chain key
        require (e.is_mint usdc_mint) account_not_initialized
        let (token_key, token_bump) = p.find_program_address (vault_token_seeds key)
        let vault : VaultConfig = record {
          bump = bump;
          vault_id = vault_id;
          governance = governance;
          status = vault_status_active;
          vault_signer_pubkey = vault_signer_pubkey;
          usdc_mint = usdc_mint;
          vault_token_account = token_key;
          auditor_master_pubkey = auditor_master_pubkey;
          auditor_epoch = 0;
          attestation_policy_hash = attestation_policy_hash;
          successor_vault = default_pubkey;
          exit_deadline = pos 0;
          lifetime_deposited = 0;
          lifetime_withdrawn = 0;
          lifetime_settled = 0;
        }
        init_account e (save chain key (vault_config vault)) token_key
        let token : TokenAccount = record { mint = usdc_mint; owner = key; amount = 0 }
        let initialized = save chain key (vault_config vault)
        ok (record initialized { tokens = put chain.tokens token_key token })

  unfoldable pub deposit : DepositAccounts → ℕ → Chain → Result ProgramError Chain
  deposit a amount chain = do
    require (e.is_signer a.client) account_not_signer
    vault ← load_vault_config chain a.vault_config
    client_token ← load_token_account chain a.client_token_account
    vault_token ← load_token_account chain a.vault_token_account
    require (vault.status == vault_status_active) (custom vault_inactive)
    require (bytes_eq client_token.mint vault.usdc_mint) constraint_raw
    require (bytes_eq client_token.owner a.client) constraint_raw
    require (bytes_eq a.vault_token_account vault.vault_token_account) constraint_address
    require (ltb 0 amount) (custom invalid_amount)
    let transfer : TokenTransfer = record {
      from = a.client_token_account;
      to = a.vault_token_account;
      authority = a.client;
      signer_seeds = [];
      amount = amount;
    }
    tokens ← ok_or (p.token_transfer chain.tokens transfer) token_error
    lifetime_deposited ←
        ok_or (checked_add vault.lifetime_deposited amount) (custom arithmetic_overflow)
    ok (
        save (record chain { tokens = tokens }) a.vault_config
          (vault_config (record vault { lifetime_deposited = lifetime_deposited })))

pub record WithdrawAccounts : Type 0 where
  pub client : Pubkey
  pub vault_config : Pubkey
  pub vault_token_account : Pubkey
  pub client_token_account : Pubkey

-- The `WithdrawAuthorization` that the program expects to be signed.
unfoldable pub withdraw_message : WithdrawAccounts → ℕ → ℕ → ℤ → Bytes
withdraw_message a amount withdraw_nonce expires_at = concat (
    a.client
    ∷ a.client_token_account
    ∷ u64_bytes amount
    ∷ u64_bytes withdraw_nonce
    ∷ i64_bytes expires_at
    ∷ a.vault_config
    ∷ [])

module _ (p : Platform) (e : Env) where
  -- The account constraints of `Withdraw`, and the vault that they yield.
  unfoldable pub withdraw_accounts : WithdrawAccounts → ℕ → Chain → Result ProgramError VaultConfig
  withdraw_accounts a withdraw_nonce chain = do
    require (e.is_signer a.client) account_not_signer
    vault ← load_vault_config chain a.vault_config
    vault_token ← load_token_account chain a.vault_token_account
    client_token ← load_token_account chain a.client_token_account
    let (nonce_key, nonce_bump) =
        p.find_program_address (withdraw_nonce_seeds a.vault_config a.client withdraw_nonce)
    init_account e chain nonce_key
    require (vault.status == vault_status_active || vault.status == vault_status_migrating)
        (custom vault_inactive)
    require (bytes_eq a.vault_token_account vault.vault_token_account) constraint_address
    require (bytes_eq client_token.mint vault.usdc_mint) constraint_raw
    require (bytes_eq client_token.owner a.client) constraint_raw
    ok vault

  -- The checks of the handler, before any money moves.
  unfoldable pub withdraw_checks :
      WithdrawAccounts → VaultConfig → ℕ → ℕ → ℤ → Result ProgramError (Unit {0})
  withdraw_checks a vault amount withdraw_nonce expires_at = do
    require (ltb 0 amount) (custom invalid_amount)
    when (vault.status == vault_status_migrating)
        (require (leb_ℤ e.clock vault.exit_deadline) (custom exit_deadline_exceeded))
    require (leb_ℤ e.clock expires_at) (custom withdraw_expired)
    signed_message ← verify_ed25519_signature p e vault.vault_signer_pubkey
    require (bytes_eq signed_message (withdraw_message a amount withdraw_nonce expires_at))
        (custom invalid_participant_receipt)
    ok tt

  unfoldable pub withdraw : WithdrawAccounts → ℕ → ℕ → ℤ → Chain → Result ProgramError Chain
  withdraw a amount withdraw_nonce expires_at chain = do
    vault ← withdraw_accounts a withdraw_nonce chain
    withdraw_checks a vault amount withdraw_nonce expires_at
    let transfer : TokenTransfer = record {
      from = a.vault_token_account;
      to = a.client_token_account;
      authority = a.vault_config;
      signer_seeds = vault_signer_seeds vault;
      amount = amount;
    }
    tokens ← ok_or (p.token_transfer chain.tokens transfer) token_error
    let (nonce_key, nonce_bump) =
        p.find_program_address (withdraw_nonce_seeds a.vault_config a.client withdraw_nonce)
    let nonce_account : UsedWithdrawNonce = record {
      bump = nonce_bump;
      vault = a.vault_config;
      client = a.client;
      withdraw_nonce = withdraw_nonce;
    }
    lifetime_withdrawn ←
        ok_or (checked_add vault.lifetime_withdrawn amount) (custom arithmetic_overflow)
    ok (
        save (save (record chain { tokens = tokens }) nonce_key (used_withdraw_nonce nonce_account))
          a.vault_config (vault_config (record vault { lifetime_withdrawn = lifetime_withdrawn })))
