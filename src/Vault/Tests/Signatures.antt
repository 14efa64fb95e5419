-- ===== src/Vault/Tests/Signatures.antt =====
-- A signature in the precompile's instruction, read back.
use privacy_x.Base.{◌≢◌, refl, err, pos, bytes_eq, slice, replicate, [], ◌∷◌}
use privacy_x.Vault.Error.{panic}
use privacy_x.Vault.Platform.{Env}
use privacy_x.Vault.Ed25519.{
  VerifiedEd25519Signature, byte_at, u16_at, slice_at, instruction_index_refs_embedded_data,
  parse_ed25519, verify_ed25519_signature_details_relative,
}
use privacy_x.Vault.Ed25519.Embedded.{
  SignedInstruction, verify_ed25519-SignedInstruction, verify_ed25519-ne-panic,
}
use privacy_x.Vault.Tests.Machine.{machine}
use privacy_x.Vault.Tests.Samples.{env_at, signer_key}

abbrev env : Env
env = env_at (pos 0) (1 ∷ 2 ∷ 3 ∷ [])

abbrev verified : VerifiedEd25519Signature
verified = record { signature = replicate 64 8; message = 1 ∷ 2 ∷ 3 ∷ [] }

verify_ed25519-SignedInstruction_example : SignedInstruction machine env 1 signer_key verified
unfolding verify_ed25519_signature_details_relative parse_ed25519 byte_at u16_at slice_at slice
    instruction_index_refs_embedded_data bytes_eq
verify_ed25519-SignedInstruction_example =
    verify_ed25519-SignedInstruction machine env 1 signer_key verified refl

verify_ed25519-ne-panic_example :
    verify_ed25519_signature_details_relative machine env 2 signer_key ≢ err panic
verify_ed25519-ne-panic_example = verify_ed25519-ne-panic machine env 2 signer_key
