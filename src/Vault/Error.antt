-- ===== src/Vault/Error.antt =====
-- programs/subly402_vault/src/error.rs, and the errors that Anchor and the runtime raise before a
-- handler runs or inside a call that it makes.
pub data VaultError : Type 0 where
  vault_inactive vault_paused vault_already_paused vault_retired vault_already_retired : VaultError
  vault_migrating exit_deadline_exceeded exit_deadline_not_reached vault_insolvent : VaultError
  invalid_vault_signer invalid_participant_receipt invalid_receipt_message : VaultError
  stale_receipt_nonce dispute_window_active dispute_window_expired nonce_already_used : VaultError
  withdraw_expired atomic_chunk_hash_mismatch batch_id_mismatch : VaultError
  audit_record_index_out_of_order record_audit_without_settle : VaultError
  settle_vault_without_audit invalid_amount arithmetic_overflow : VaultError
  invalid_ed25519_instruction already_resolved invalid_status_transition : VaultError
  too_many_settlements invalid_asc_close_claim invalid_asc_claim_voucher : VaultError

-- `panic` is an index or a slice out of range, which aborts the transaction as an error does.
pub data ProgramError : Type 0 where
  custom : VaultError → ProgramError
  account_not_signer account_not_initialized account_in_use : ProgramError
  constraint_raw constraint_address token_error panic : ProgramError
