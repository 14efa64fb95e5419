-- ===== src/Vault/Ed25519.antt =====
-- programs/subly402_vault/src/ed25519_utils.rs, the half that reads the Ed25519 precompile's
-- instruction back out of the transaction.
pub mod Embedded
use privacy_x.Base.{
  ℕ, ◌+◌, ◌-◌, ◌*◌, Bool, ◌||◌, Bytes, bytes_eq, Result, ok, ok_or, require, ◌>>=◌, ◌>>◌, ◌==◌, leb,
  length, get_elem?, slice, u16_max,
}
use privacy_x.Vault.Error.{
  ProgramError, custom, panic, invalid_ed25519_instruction, invalid_vault_signer,
}
use privacy_x.Vault.State.{Pubkey}
use privacy_x.Vault.Platform.{Platform, Env}

pub record VerifiedEd25519Signature : Type 0 where
  pub signature : Bytes
  pub message : Bytes

-- `bytes[i]`.
unfoldable pub byte_at : Bytes → ℕ → Result ProgramError ℕ
byte_at xs i = ok_or (get_elem? xs i) panic

-- `u16::from_le_bytes([bytes[i], bytes[i + 1]])`.
unfoldable pub u16_at : Bytes → ℕ → Result ProgramError ℕ
unfolding byte_at
u16_at xs i = do lo ← byte_at xs i; hi ← byte_at xs (i + 1); ok (lo + 256 * hi)

-- `bytes[lo..hi]`.
unfoldable pub slice_at : Bytes → ℕ → ℕ → Result ProgramError Bytes
slice_at xs lo hi = ok_or (slice xs lo hi) panic

unfoldable pub instruction_index_refs_embedded_data : ℕ → ℕ → Bool
instruction_index_refs_embedded_data i ed25519_index = i == u16_max || i == ed25519_index

-- From the check of the length on: the offsets in the precompile's data, and what they point at.
unfoldable pub parse_ed25519 : Bytes → ℕ → Bytes → Result ProgramError VerifiedEd25519Signature
unfolding instruction_index_refs_embedded_data slice_at
parse_ed25519 ix_data ed25519_index expected_pubkey = do
  require (leb 16 (length ix_data)) (custom invalid_ed25519_instruction)
  num_signatures ← byte_at ix_data 0
  require (num_signatures == 1) (custom invalid_ed25519_instruction)
  signature_instruction_index ← u16_at ix_data 4
  require (instruction_index_refs_embedded_data signature_instruction_index ed25519_index)
      (custom invalid_ed25519_instruction)
  signature_offset ← u16_at ix_data 2
  require (leb (signature_offset + 64) (length ix_data)) (custom invalid_ed25519_instruction)
  signature ← slice_at ix_data signature_offset (signature_offset + 64)
  pubkey_offset ← u16_at ix_data 6
  require (leb (pubkey_offset + 32) (length ix_data)) (custom invalid_ed25519_instruction)
  public_key_instruction_index ← u16_at ix_data 8
  require (instruction_index_refs_embedded_data public_key_instruction_index ed25519_index)
      (custom invalid_ed25519_instruction)
  pubkey_bytes ← slice_at ix_data pubkey_offset (pubkey_offset + 32)
  require (bytes_eq pubkey_bytes expected_pubkey) (custom invalid_vault_signer)
  message_instruction_index ← u16_at ix_data 14
  require (instruction_index_refs_embedded_data message_instruction_index ed25519_index)
      (custom invalid_ed25519_instruction)
  message_offset ← u16_at ix_data 10
  message_size ← u16_at ix_data 12
  require (leb (message_offset + message_size) (length ix_data))
      (custom invalid_ed25519_instruction)
  message ← slice_at ix_data message_offset (message_offset + message_size)
  ok (record { signature = signature; message = message })

module _ (p : Platform) (e : Env) where
  unfoldable pub verify_ed25519_signature_details_relative :
      ℕ → Bytes → Result ProgramError VerifiedEd25519Signature
  verify_ed25519_signature_details_relative offset_from_current expected_pubkey = do
    current_index ← ok_or e.current_index (custom invalid_ed25519_instruction)
    require (leb offset_from_current current_index) (custom invalid_ed25519_instruction)
    let target_index = current_index - offset_from_current
    ed25519_ix ← ok_or (e.instruction_at target_index) (custom invalid_ed25519_instruction)
    require (bytes_eq ed25519_ix.program_id p.ed25519_program_id)
        (custom invalid_ed25519_instruction)
    parse_ed25519 ed25519_ix.ix_data target_index expected_pubkey

  unfoldable pub verify_ed25519_signature_details :
      Pubkey → Result ProgramError VerifiedEd25519Signature
  verify_ed25519_signature_details expected_pubkey =
      verify_ed25519_signature_details_relative 1 expected_pubkey

  unfoldable pub verify_ed25519_signature : Pubkey → Result ProgramError Bytes
  verify_ed25519_signature expected_pubkey = do
    verified ← verify_ed25519_signature_details expected_pubkey
    ok verified.message
