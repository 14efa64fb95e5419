-- ===== src/Vault/RecordAudit.antt =====
-- programs/subly402_vault/src/instructions/record_audit.rs, the handler.
use privacy_x.Base.{
  ℕ, zero, suc, ◌+◌, ◌&&◌, not, Bytes, bytes_eq, Result, ok, err, require, ◌>>=◌, ◌>>◌, ◌==◌, ltb,
  leb, List, [], ◌∷◌, length, Option, some, none, u64_bytes, if◌then◌else◌, u8_mod,
}
use privacy_x.Vault.Error.{
  ProgramError, custom, panic, invalid_amount, audit_record_index_out_of_order,
}
use privacy_x.Vault.State.{Pubkey, audit_record, Chain, save, max_atomic_audits_per_tx}
use privacy_x.Vault.Platform.{Platform, Env, AuditRecordData, init_account}
use privacy_x.Vault.AscClaim.{ascii}
use privacy_x.Vault.Settlement.{verify_settle_vault_pairing, settling_vault, before_exit}
use privacy_x.Vault.SettleVault.{is_empty}

abbrev pub audit_seeds : Pubkey → ℕ → ℕ → List Bytes
audit_seeds vault batch_id index = ascii "audit" ∷ vault ∷ u64_bytes batch_id ∷ (index ∷ []) ∷ []

module _ (p : Platform) (vault : Pubkey) (batch_id : ℕ) where
  -- `for index in 0..=u8::MAX`: the index whose program address the account is, and its bump.
  unfoldable pub find_audit_index : (rounds index : ℕ) → Pubkey → Result ProgramError (ℕ × ℕ)
  find_audit_index zero index account = err (custom audit_record_index_out_of_order)
  find_audit_index (suc n) index account =
      let next = find_audit_index n (index + 1) account in
      let (expected_pda, bump) = p.find_program_address (audit_seeds vault batch_id index) in
      if bytes_eq expected_pda account then ok (index, bump) else next

  unfoldable pub resolve_audit_index : Pubkey → Result ProgramError (ℕ × ℕ)
  resolve_audit_index account = find_audit_index u8_mod 0 account

-- `if let Some(expected_index) = next_expected_index { require!(index == expected_index) }`.
unfoldable pub index_follows : Option ℕ → ℕ → Result ProgramError (Unit {0})
index_follows none index = ok tt
index_follows (some expected_index) index =
    require (index == expected_index) (custom audit_record_index_out_of_order)

-- `index.checked_add(1)` on `u8`.
unfoldable pub next_index : ℕ → Option ℕ
next_index index = if ltb (index + 1) u8_mod then some (index + 1) else none

module _ (p : Platform) (e : Env) where
  -- The loop over the records and the remaining accounts.
  unfoldable pub write_records :
      (vault : Pubkey) (batch_id auditor_epoch : ℕ)
      → List AuditRecordData
      → List Pubkey
      → Option ℕ
      → Chain
      → Result ProgramError Chain
  write_records vault batch_id auditor_epoch [] accounts next_expected_index chain = ok chain
  write_records vault batch_id auditor_epoch (r ∷ records) [] next_expected_index chain = err panic
  write_records vault batch_id auditor_epoch (r ∷ records) (key ∷ accounts) next_expected_index
        chain =
      do
        (index, bump) ← resolve_audit_index p vault batch_id key
        index_follows next_expected_index index
        init_account e chain key
        let written = save chain key (
            audit_record (record {
              bump = bump;
              vault = vault;
              batch_id = batch_id;
              index = index;
              encrypted_sender = r.encrypted_sender;
              encrypted_amount = r.encrypted_amount;
              provider = r.provider;
              timestamp = r.timestamp;
              auditor_epoch = auditor_epoch;
            }))
        write_records vault batch_id auditor_epoch records accounts (next_index index) written

  unfoldable pub record_audit :
      (vault_signer key : Pubkey) (remaining_accounts : List Pubkey) (batch_id : ℕ)
      (batch_chunk_hash : Bytes)
      → List AuditRecordData
      → Chain
      → Result ProgramError Chain
  record_audit vault_signer key remaining_accounts batch_id batch_chunk_hash records chain = do
    vault ← settling_vault e vault_signer key chain
    require (not (is_empty records) && leb (length records) max_atomic_audits_per_tx)
        (custom invalid_amount)
    before_exit e vault
    verify_settle_vault_pairing p e
        (record { batch_id = batch_id; batch_chunk_hash = batch_chunk_hash; vault = key }) records
    require (length remaining_accounts == length records) (custom invalid_amount)
    write_records key batch_id vault.auditor_epoch records remaining_accounts none chain
