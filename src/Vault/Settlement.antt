-- ===== src/Vault/Settlement.antt =====
-- settle_vault.rs and record_audit.rs of programs/subly402_vault/src/instructions: the two halves of
-- an atomic batch, each of which looks for the other in the same transaction.
pub mod Search
pub mod Arguments
pub mod Pairing
use privacy_x.Base.{
  ℕ, zero, suc, ◌+◌, Bool, ◌&&◌, ◌||◌, not, false, Bytes, bytes_eq, Result, ok, err, ok_or, require,
  ◌>>=◌, ◌>>◌, ◌==◌, ltb, leb, leb_ℤ, List, ◌∷◌, length, take, drop, Option, some, none,
  if◌then◌else◌,
}
use privacy_x.Vault.Error.{
  ProgramError, custom, account_not_signer, invalid_vault_signer, vault_inactive,
  exit_deadline_exceeded, atomic_chunk_hash_mismatch, settle_vault_without_audit,
  record_audit_without_settle,
}
use privacy_x.Vault.State.{
  Pubkey, VaultConfig, vault_config, audit_record, Chain, load_vault_config, vault_status_active,
  vault_status_migrating,
}
use privacy_x.Vault.Platform.{Platform, Env, Instruction, AuditRecordData, SettlementEntry}
use privacy_x.Vault.AscClaim.{ascii}
use privacy_x.Vault.BatchHash.{compute_batch_chunk_hash}
use privacy_x.Vault.Governance.{when}

-- The other half as it stands in the transaction: a batch id, a chunk hash and the items.
pub record Parsed (A : Type 0) : Type 0 where
  pub batch_id : ℕ
  pub batch_chunk_hash : Bytes
  pub items : List A

-- `instruction_discriminator`.
unfoldable pub instruction_discriminator : Platform → Bytes → Bytes
instruction_discriminator p name = take 8 (p.sha256 name)

module _ {A : Type 0} (p : Platform) (read_items : Bytes → Option (List A × Bytes)) where
  -- The Borsh values behind the discriminator; `.ok()?` gives up at the first that fails.
  parse_arguments : Bytes → Option (Parsed A)
  parse_arguments input = elim (p.read_u64 input) [
    | none ↦ none
    | some (batch_id, after_id) ↦ elim (p.read_hash after_id) [
      | none ↦ none
      | some (hash, after_hash) ↦ elim (read_items after_hash) [
        | none ↦ none
        | some (items, rest) ↦
            some (record { batch_id = batch_id; batch_chunk_hash = hash; items = items })
      ]
    ]
  ]

  -- `parse_record_audit_instruction` and `parse_settle_vault_instruction`.
  unfoldable pub parse_instruction : Bytes → Instruction → Option (Parsed A)
  unfolding parse_arguments
  parse_instruction expected_discriminator ix =
      if not (bytes_eq ix.program_id p.program_id)
        || ltb (length ix.ix_data) 48
        || not (bytes_eq (take 8 ix.ix_data) expected_discriminator)
      then none
      else parse_arguments (drop 8 ix.ix_data)

-- `ix.accounts.len() < 2 || ix.accounts[1].pubkey != *expected_vault_config`, negated.
names_vault : Pubkey → List Pubkey → Bool
names_vault vault (first ∷ second ∷ rest) = bytes_eq second vault
names_vault vault _ = false

-- What the search looks for: the batch, the chunk's hash and the vault.
pub record Wanted : Type 0 where
  pub batch_id : ℕ
  pub batch_chunk_hash : Bytes
  pub vault : Pubkey

unfoldable pub is_wanted : {A : Type 0} → Wanted → Instruction → Parsed A → Bool
unfolding names_vault
is_wanted w ix parsed =
    parsed.batch_id == w.batch_id
    && bytes_eq parsed.batch_chunk_hash w.batch_chunk_hash
    && names_vault w.vault ix.accounts

-- `for i in 0..32`: the other instructions of the transaction in order. The first that is the
-- wanted half must have the hash that its items give; `missing` is the error when there is none.
module _ (e : Env) {A : Type 0} (parse : Instruction → Option (Parsed A)) (hash : List A → Bytes)
    (w : Wanted) (missing : ProgramError) (current_index : ℕ) where
  unfoldable pub check_parsed :
      Instruction
      → Option (Parsed A)
      → Result ProgramError (Unit {0})
      → Result ProgramError (Unit {0})
  check_parsed ix none next = next
  check_parsed ix (some parsed) next =
      if not (is_wanted w ix parsed)
      then next
      else require (bytes_eq (hash parsed.items) w.batch_chunk_hash)
          (custom atomic_chunk_hash_mismatch)

  unfoldable pub check_instruction :
      Option Instruction → Result ProgramError (Unit {0}) → Result ProgramError (Unit {0})
  check_instruction none next = err missing
  check_instruction (some ix) next = check_parsed ix (parse ix) next

  unfoldable pub search_pairing : (rounds i : ℕ) → Result ProgramError (Unit {0})
  search_pairing zero i = err missing
  search_pairing (suc n) i =
      let next = search_pairing n (i + 1) in
      if i == current_index then next else check_instruction (e.instruction_at i) next

module _ (p : Platform) (e : Env) where
  unfoldable pub verify_record_audit_pairing :
      Wanted → List SettlementEntry → Result ProgramError (Unit {0})
  verify_record_audit_pairing w settlements = do
    current_index ← ok_or e.current_index (custom settle_vault_without_audit)
    search_pairing e
        (parse_instruction p p.read_audit_records
          (instruction_discriminator p (ascii "global:record_audit")))
        (compute_batch_chunk_hash p w.batch_id settlements) w (custom settle_vault_without_audit)
        current_index 32 0

  unfoldable pub verify_settle_vault_pairing :
      Wanted → List AuditRecordData → Result ProgramError (Unit {0})
  verify_settle_vault_pairing w records = do
    current_index ← ok_or e.current_index (custom record_audit_without_settle)
    search_pairing e
        (parse_instruction p p.read_settlements
          (instruction_discriminator p (ascii "global:settle_vault")))
        (λ settlements. compute_batch_chunk_hash p w.batch_id settlements records) w
        (custom record_audit_without_settle) current_index 32 0

module _ (e : Env) where
  -- `vault_signer: Signer`, its key, the vault's status and its exit deadline.
  unfoldable pub settling_vault : Pubkey → Pubkey → Chain → Result ProgramError VaultConfig
  settling_vault vault_signer key chain = do
    require (e.is_signer vault_signer) account_not_signer
    vault ← load_vault_config chain key
    require (bytes_eq vault.vault_signer_pubkey vault_signer) (custom invalid_vault_signer)
    require (vault.status == vault_status_active || vault.status == vault_status_migrating)
        (custom vault_inactive)
    ok vault

  unfoldable pub before_exit : VaultConfig → Result ProgramError (Unit {0})
  before_exit vault =
      when (vault.status == vault_status_migrating)
        (require (leb_ℤ e.clock vault.exit_deadline) (custom exit_deadline_exceeded))
