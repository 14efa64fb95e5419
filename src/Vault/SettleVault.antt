-- ===== src/Vault/SettleVault.antt =====
-- programs/subly402_vault/src/instructions/settle_vault.rs, the handler.
use privacy_x.Base.{
  ℕ, Bool, not, true, false, Bytes, bytes_eq, Result, ok, err, ok_or, require, ◌>>=◌, ◌>>◌, ◌==◌,
  ltb, leb, checked_add, List, [], ◌∷◌, length,
}
use privacy_x.Vault.Error.{
  ProgramError, custom, panic, constraint_address, token_error, too_many_settlements,
  invalid_amount, arithmetic_overflow,
}
use privacy_x.Vault.State.{
  Pubkey, VaultConfig, vault_config, Tokens, Chain, load_token_account, save,
  max_settlements_per_tx,
}
use privacy_x.Vault.Platform.{Platform, Env, TokenTransfer, SettlementEntry}
use privacy_x.Vault.Funds.{vault_signer_seeds}
use privacy_x.Vault.Settlement.{verify_record_audit_pairing, settling_vault, before_exit}

abbrev pub is_empty : {A : Type 0} → List A → Bool
is_empty [] = true
is_empty (x ∷ xs) = false

-- The transfer of one entry, out of the vault's token account to an account of the caller's.
abbrev pub entry_transfer : VaultConfig → (vault vault_token provider : Pubkey) → ℕ → TokenTransfer
entry_transfer config vault vault_token provider amount = record {
  from = vault_token;
  to = provider;
  authority = vault;
  signer_seeds = vault_signer_seeds config;
  amount = amount;
}

module _ (p : Platform) (config : VaultConfig) (vault vault_token : Pubkey) where
  -- The loop over the settlements and the remaining accounts, with the running total.
  unfoldable pub pay_entries :
      List SettlementEntry → List Pubkey → Tokens → ℕ → Result ProgramError (Tokens × ℕ)
  pay_entries [] accounts tokens total_settled = ok (tokens, total_settled)
  pay_entries (entry ∷ entries) [] tokens total_settled = err panic
  pay_entries (entry ∷ entries) (provider ∷ accounts) tokens total_settled = do
    require (ltb 0 entry.amount) (custom invalid_amount)
    require (bytes_eq provider entry.provider_token_account) (custom invalid_amount)
    tokens' ←
        ok_or
          (p.token_transfer tokens (entry_transfer config vault vault_token provider entry.amount))
          token_error
    total' ← ok_or (checked_add total_settled entry.amount) (custom arithmetic_overflow)
    pay_entries entries accounts tokens' total'

module _ (p : Platform) (e : Env) where
  unfoldable pub settle_vault :
      (vault_signer key vault_token : Pubkey) (remaining_accounts : List Pubkey) (batch_id : ℕ)
      (batch_chunk_hash : Bytes)
      → List SettlementEntry
      → Chain
      → Result ProgramError Chain
  settle_vault vault_signer key vault_token remaining_accounts batch_id batch_chunk_hash settlements
        chain =
      do
        vault ← settling_vault e vault_signer key chain
        vault_account ← load_token_account chain vault_token
        require (bytes_eq vault_token vault.vault_token_account) constraint_address
        require (leb (length settlements) max_settlements_per_tx) (custom too_many_settlements)
        require (not (is_empty settlements)) (custom invalid_amount)
        before_exit e vault
        verify_record_audit_pairing p e
            (record { batch_id = batch_id; batch_chunk_hash = batch_chunk_hash; vault = key })
            settlements
        require (length remaining_accounts == length settlements) (custom invalid_amount)
        (tokens, total_settled) ←
            pay_entries p vault key vault_token settlements remaining_accounts chain.tokens 0
        lifetime_settled ←
            ok_or (checked_add vault.lifetime_settled total_settled) (custom arithmetic_overflow)
        ok (
            save (record chain { tokens = tokens }) key
              (vault_config (record vault { lifetime_settled = lifetime_settled })))
