-- ===== src/Enclave/Messages.antt =====
-- enclave/src/state.rs, the messages that the vault's signer signs. `vault_config` is the enclave's
-- field `self.vault_config`.
use privacy_x.Base.{ℕ, Bytes, [], ◌∷◌, concat, ℤ, u64_bytes, i64_bytes}
use privacy_x.Vault.State.{Pubkey}

unfoldable pub build_participant_receipt_message :
    (vault_config participant : Pubkey) (participant_kind : ℕ) (recipient_ata : Pubkey)
    (free_balance locked_balance : ℕ) (max_lock_expires_at : ℤ) (nonce : ℕ) (timestamp : ℤ)
    (snapshot_seqno : ℕ)
    → Bytes
build_participant_receipt_message vault_config participant participant_kind recipient_ata
      free_balance locked_balance max_lock_expires_at nonce timestamp snapshot_seqno =
    concat (
      participant
      ∷ (participant_kind ∷ [])
      ∷ recipient_ata
      ∷ u64_bytes free_balance
      ∷ u64_bytes locked_balance
      ∷ i64_bytes max_lock_expires_at
      ∷ u64_bytes nonce
      ∷ i64_bytes timestamp
      ∷ u64_bytes snapshot_seqno
      ∷ vault_config
      ∷ [])

unfoldable pub build_withdraw_authorization_message :
    (vault_config client recipient_ata : Pubkey) (amount withdraw_nonce : ℕ) (expires_at : ℤ)
    → Bytes
build_withdraw_authorization_message vault_config client recipient_ata amount withdraw_nonce
      expires_at =
    concat (
      client
      ∷ recipient_ata
      ∷ u64_bytes amount
      ∷ u64_bytes withdraw_nonce
      ∷ i64_bytes expires_at
      ∷ vault_config
      ∷ [])
