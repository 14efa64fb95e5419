-- ===== src/Enclave/Tests/Payments.antt =====
-- A pending request that is paid for by its secret, and by the signature that gives the secret away.
use privacy_x.Base.{
  ◌≡◌, refl, Bool, true, false, some, [], ◌∷◌, ok, pos, arith, bytes_eq, bytes_instance,
}
use privacy_x.Base.Table.{get}
use privacy_x.Enclave.Adaptor.{
  pre_sign, extract, verify_adapted, public_key_of, expand_secret_key, challenge_hash, derive_nonce,
}
use privacy_x.Enclave.Adaptor.Laws.{pre_verify-pre_sign}
use privacy_x.Enclave.Channels.Finalize.{
  decrypt_with_scalar, decrypt_blocks, xor_bytes, keystream, finalize_offchain,
  finalize_onchain_claim,
}
use privacy_x.Enclave.Channels.Invariant.{Delivered}
use privacy_x.Enclave.Channels.Payment.{
  Payable, paid_state, paid_outcome, finalize_offchain_pays, finalize_onchain_claim_pays,
}
use privacy_x.Enclave.Tests.Samples.{
  two_points, two_points_laws, wide_machine, provider_secret, message, pre_signature, provider_key,
  channel_key, delivered_request, pending_channel, with_channel,
}

delivery : Delivered wide_machine two_points channel_key delivered_request
delivery = record {
  pre_sig = pre_signature;
  point_bytes = 1 ∷ [];
  point = true;
  key = provider_key;
  encrypted = 11 ∷ 12 ∷ [];
  hash = wide_machine.sha256 (0 ∷ 0 ∷ []);
  pre_sig_at = refl;
  point_at = refl;
  decompressed = refl;
  key_at = refl;
  encrypted_at = refl;
  hash_at = refl;
  verified = pre_verify-pre_sign two_points two_points_laws provider_secret message true;
}

payable :
    Payable wide_machine two_points channel_key
      (with_channel pending_channel)
      pending_channel
      delivered_request
unfolding get bytes_eq
payable = record {
  at = refl;
  status = refl;
  active = refl;
  delivery = delivery;
  covered = omega arith;
  earned_fits = omega arith;
  nonce_fits = omega arith;
}

finalize_offchain_pays_example :
    finalize_offchain wide_machine two_points
      (pos 50)
      channel_key
      (1 ∷ [])
      (with_channel pending_channel)
    ≡ (
      ok (
          paid_outcome delivered_request
            (decrypt_with_scalar wide_machine (11 ∷ 12 ∷ []) (1 ∷ []))),
      paid_state
          (with_channel pending_channel)
          channel_key
          pending_channel
          delivered_request
          (pos 50),
    )
unfolding decrypt_with_scalar decrypt_blocks xor_bytes delivery payable keystream
finalize_offchain_pays_example =
    finalize_offchain_pays wide_machine two_points two_points_laws (pos 50) channel_key
      (with_channel pending_channel) pending_channel delivered_request payable true refl refl

-- On the curve of two points, only one scalar opens the adaptor point.
promise :
    (t : Bool)
    → two_points.mul_base t ≡ true
    → wide_machine.sha256
        (decrypt_with_scalar wide_machine (11 ∷ 12 ∷ []) (two_points.scalar_bytes t))
      ≡ wide_machine.sha256 (0 ∷ 0 ∷ [])
unfolding decrypt_with_scalar decrypt_blocks xor_bytes keystream
promise true h = refl
promise false h = cc

finalize_onchain_claim_pays_example :
    (t : Bool) × (extract two_points (record { r_bytes = 0 ∷ []; s_bytes = 1 ∷ [] }) pre_signature
      ≡ some t)
    × (two_points.mul_base t ≡ true)
    × (finalize_onchain_claim wide_machine two_points
          (pos 50)
          channel_key
          (0 ∷ [])
          (1 ∷ [])
          (with_channel pending_channel)
        ≡ (
          ok (
              paid_outcome delivered_request
                (decrypt_with_scalar wide_machine (11 ∷ 12 ∷ []) (two_points.scalar_bytes t))),
          paid_state
              (with_channel pending_channel)
              channel_key
              pending_channel
              delivered_request
              (pos 50),
        ))
unfolding delivery payable pre_sign derive_nonce verify_adapted public_key_of expand_secret_key
    challenge_hash
finalize_onchain_claim_pays_example =
    finalize_onchain_claim_pays wide_machine two_points two_points_laws (pos 50) channel_key
      (with_channel pending_channel) pending_channel delivered_request payable
      (record { r_bytes = 0 ∷ []; s_bytes = 1 ∷ [] }) true refl refl refl refl promise
