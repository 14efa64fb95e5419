-- ===== src/Enclave/Tests/Signatures.antt =====
-- One pre-signature, adapted, extracted and verified; one result, encrypted and decrypted.
use privacy_x.Base.{◌≡◌, refl, true, some, [], ◌∷◌, arith}
use privacy_x.Enclave.State.{AdaptedSignature}
use privacy_x.Enclave.Adaptor.{
  pre_sign, pre_verify, adapt, extract, verify_adapted, public_key_of, expand_secret_key,
  challenge_hash, derive_nonce,
}
use privacy_x.Enclave.Adaptor.Laws.{adapt_completes, extract_opens, pre_verify-pre_sign}
use privacy_x.Enclave.Channels.Finalize.{decrypt_with_scalar, encrypt_with_scalar}
use privacy_x.Enclave.Channels.Cipher.{AreBytes, decrypt-encrypt}
use privacy_x.Enclave.Tests.Samples.{
  two_points, two_points_laws, wide_machine, provider_secret, message, pre_signature, provider_key,
}

pre_verify-pre_sign_example : pre_verify two_points provider_key message true pre_signature ≡ true
pre_verify-pre_sign_example =
    pre_verify-pre_sign two_points two_points_laws provider_secret message true

adapt_completes_example :
    (sig : AdaptedSignature) × (adapt two_points pre_signature true true ≡ some sig)
    × (verify_adapted two_points provider_key message sig ≡ true)
    × (extract two_points sig pre_signature ≡ some true)
adapt_completes_example =
    adapt_completes two_points two_points_laws provider_key message true pre_signature true refl
      pre_verify-pre_sign_example

abbrev full_signature : AdaptedSignature
full_signature = record { r_bytes = 0 ∷ []; s_bytes = 1 ∷ [] }

signs : verify_adapted two_points provider_key message full_signature ≡ true
unfolding verify_adapted public_key_of expand_secret_key challenge_hash
signs = refl

gives : extract two_points full_signature pre_signature ≡ some true
unfolding extract pre_sign public_key_of expand_secret_key derive_nonce challenge_hash
gives = refl

extract_opens_example : two_points.mul_base true ≡ true
unfolding pre_sign derive_nonce
extract_opens_example =
    extract_opens two_points two_points_laws provider_key message true pre_signature full_signature
      true true pre_verify-pre_sign_example refl refl signs gives

decrypt-encrypt_example :
    decrypt_with_scalar wide_machine
      (encrypt_with_scalar wide_machine (1 ∷ 200 ∷ 33 ∷ []) (7 ∷ []))
      (7 ∷ [])
    ≡ 1 ∷ 200 ∷ 33 ∷ []
unfolding AreBytes
decrypt-encrypt_example =
    decrypt-encrypt wide_machine (7 ∷ []) (λ m. refl) (1 ∷ 200 ∷ 33 ∷ [])
      (omega arith, (omega arith, (omega arith, tt)))
