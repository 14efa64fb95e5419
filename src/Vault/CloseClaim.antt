-- ===== src/Vault/CloseClaim.antt =====
-- programs/subly402_vault/src/instructions/asc_close_claim.rs.
use privacy_x.Base.{
  Bytes, bytes_eq, Result, ok, ok_or, require, ◌>>=◌, ◌>>◌, ◌==◌, List, [], ◌∷◌, length, slice,
}
use privacy_x.Vault.Error.{
  ProgramError, custom, panic, account_not_signer, invalid_asc_claim_voucher,
  invalid_asc_close_claim,
}
use privacy_x.Vault.State.{
  Pubkey, VaultConfig, asc_close_claim as asc_close_claim_account, Chain, load_vault_config, save,
}
use privacy_x.Vault.Platform.{Platform, Env, init_account}
use privacy_x.Vault.Ed25519.{VerifiedEd25519Signature, verify_ed25519_signature_details_relative}
use privacy_x.Vault.AscClaim.{
  ascii, AscClaimVoucherFields, parse_asc_claim_voucher_message,
  build_asc_payment_message_from_hashes,
}

abbrev pub asc_close_claim_seeds : Pubkey → Bytes → Bytes → List Bytes
asc_close_claim_seeds vault channel_id_hash request_id_hash =
    ascii "asc_close_claim" ∷ vault ∷ channel_id_hash ∷ request_id_hash ∷ []

module _ (p : Platform) (e : Env) where
  -- The voucher that the vault signed, two instructions before this one.
  unfoldable pub check_voucher :
      VaultConfig
      → (vault : Pubkey) (channel_id_hash request_id_hash : Bytes)
      → Result ProgramError AscClaimVoucherFields
  check_voucher config vault channel_id_hash request_id_hash = do
    voucher_verified ← verify_ed25519_signature_details_relative p e 2 config.vault_signer_pubkey
    voucher ←
        ok_or (parse_asc_claim_voucher_message voucher_verified.message)
          (custom invalid_asc_claim_voucher)
    require (bytes_eq voucher.channel_id_hash channel_id_hash) (custom invalid_asc_claim_voucher)
    require (bytes_eq voucher.request_id_hash request_id_hash) (custom invalid_asc_claim_voucher)
    require (bytes_eq voucher.vault_config vault) (custom invalid_asc_claim_voucher)
    ok voucher

  -- The payment that the provider signed, one instruction before this one.
  unfoldable pub check_payment :
      AscClaimVoucherFields
      → (channel_id_hash request_id_hash : Bytes) → Result ProgramError VerifiedEd25519Signature
  check_payment voucher channel_id_hash request_id_hash = do
    payment_verified ← verify_ed25519_signature_details_relative p e 1 voucher.provider_pubkey
    let payment_message =
        build_asc_payment_message_from_hashes channel_id_hash request_id_hash voucher.amount
          voucher.request_hash
    require (bytes_eq payment_verified.message payment_message) (custom invalid_asc_close_claim)
    require (length payment_verified.signature == 64) (custom invalid_asc_close_claim)
    ok payment_verified

  unfoldable pub asc_close_claim :
      (caller vault : Pubkey) (channel_id_hash request_id_hash : Bytes)
      → Chain
      → Result ProgramError Chain
  asc_close_claim caller vault channel_id_hash request_id_hash chain = do
    require (e.is_signer caller) account_not_signer
    config ← load_vault_config chain vault
    let (key, bump) =
        p.find_program_address (asc_close_claim_seeds vault channel_id_hash request_id_hash)
    init_account e chain key
    voucher ← check_voucher config vault channel_id_hash request_id_hash
    payment_verified ← check_payment voucher channel_id_hash request_id_hash
    full_sig_r ← ok_or (slice payment_verified.signature 0 32) panic
    full_sig_s ← ok_or (slice payment_verified.signature 32 64) panic
    ok (
        save chain key (
          asc_close_claim_account (record {
            bump = bump;
            vault = vault;
            channel_id_hash = channel_id_hash;
            request_id_hash = request_id_hash;
            request_hash = voucher.request_hash;
            provider_pubkey = voucher.provider_pubkey;
            full_sig_r = full_sig_r;
            full_sig_s = full_sig_s;
            amount = voucher.amount;
            voucher_issued_at = voucher.issued_at;
            claimed_at = e.clock;
          })))
