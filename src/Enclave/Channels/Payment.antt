-- ===== src/Enclave/Channels/Payment.antt =====
-- Pay on delivery: once a delivery has been verified, the secret of its adaptor point, or the signature
-- that gives it away, is paid for.
use privacy_x.Base.{
  ℕ, ◌+◌, ◌-◌, ◌≤◌, ◌<◌, ◌≡◌, refl, sym, subst, true, some, ok, Bytes, ℤ, bytes_instance,
  checked_add_total, checked_sub, u64_mod, arith, bytes_eq_of_eq, ◌∙◌,
}
use privacy_x.Base.Table.{get, insert}
use privacy_x.Vault.Platform.{Platform}
use privacy_x.Enclave.State.{
  VaultState, ChannelId, ChannelState, ChannelRequest, AdaptedSignature, pending,
}
use privacy_x.Enclave.Adaptor.{Curve, CurveLaws, verify_adapted, extract, pre_verify}
use privacy_x.Enclave.Adaptor.Laws.{adapt_completes, extract_opens, extract_succeeds}
use privacy_x.Enclave.Channels.Finalize.{
  decrypt_with_scalar, has_hash, payment_message, settled, finalize_with_secret, finalize_offchain,
  finalize_onchain_claim, FinalizeOutcome,
}
use privacy_x.Enclave.Channels.Invariant.{Delivered}

-- A channel whose pending request can be paid: its delivery has been verified, its amount is locked,
-- and the sums that payment makes stay in range.
pub record Payable {Scalar Point : Type 0} (p : Platform) (c : Curve Scalar Point) (id : ChannelId)
    (v : VaultState) (ch : ChannelState) (r : ChannelRequest) : Type 0 where
  pub at : get v.active_channels id ≡ some ch
  pub status : ch.status ≡ pending
  pub active : ch.active_request ≡ some r
  pub delivery : Delivered p c ch.channel_id r
  pub covered : r.amount ≤ ch.balance.client_locked
  pub earned_fits : ch.balance.provider_earned + r.amount < u64_mod
  pub nonce_fits : ch.nonce + 1 < u64_mod

-- The state and the outcome of a payment.
abbrev pub paid_state : VaultState → ChannelId → ChannelState → ChannelRequest → ℤ → VaultState
paid_state v id ch r now = record v {
  active_channels = insert v.active_channels id (
      settled ch (ch.balance.client_locked - r.amount) (ch.balance.provider_earned + r.amount)
        (ch.nonce + 1) now);
}

abbrev pub paid_outcome : ChannelRequest → (result : Bytes) → FinalizeOutcome
paid_outcome r result = record {
  request_id = r.request_id;
  result_bytes = result;
  amount = r.amount;
  request = r;
}

checked_sub_total : (a b : ℕ) → b ≤ a → checked_sub a b ≡ some (a - b)
unfolding checked_sub
checked_sub_total a b h = ground arith

module _ {Scalar Point : Type 0} (p : Platform) (c : Curve Scalar Point) (laws : CurveLaws c)
    (now : ℤ) (id : ChannelId) (v : VaultState) (ch : ChannelState) (r : ChannelRequest)
    (ready : Payable p c id v ch r) where
  finalize_with_secret_pays :
      (t : Scalar)
      → c.mul_base t ≡ ready.delivery.point
      → p.sha256 (decrypt_with_scalar p ready.delivery.encrypted (c.scalar_bytes t))
        ≡ ready.delivery.hash
      → finalize_with_secret p c now id t (some (c.scalar_bytes t)) v ≡ (
        ok (paid_outcome r (decrypt_with_scalar p ready.delivery.encrypted (c.scalar_bytes t))),
        paid_state v id ch r now,
      )
  unfolding finalize_with_secret has_hash
  finalize_with_secret_pays t opens result =
      let d = ready.delivery in
      let message = payment_message p ch.channel_id r in
      let (sig, adapts, signed, got) =
        adapt_completes c laws d.key message d.point d.pre_sig t opens d.verified in
      let same = (laws.point_eq_iff d.point (c.mul_base t)).1 (sym opens) in
      let hashed = bytes_eq_of_eq _ _ result in
      let less = checked_sub_total ch.balance.client_locked r.amount ready.covered in
      let more = checked_add_total ch.balance.provider_earned r.amount ready.earned_fits in
      let next = checked_add_total ch.nonce 1 ready.nonce_fits in
      rw ready.at (
        rw ready.status (
          rw ready.active (
            rw d.pre_sig_at (
              rw d.point_at (
                rw d.decompressed (
                  rw d.key_at (
                    rw same (
                      rw adapts (
                        rw signed (
                          rw d.encrypted_at
                            (rw d.hash_at (rw hashed (rw less (rw more (rw next refl)))))))))))))))

  -- The provider that reveals the secret of its adaptor point is paid: when the channel's pending
  -- request has a verified delivery and its amount locked, the secret opens the adaptor point and
  -- decrypts the result to the promised hash, and the sums stay in range, the finalization off chain
  -- succeeds, returns the result, and moves exactly the request's amount from locked to earned.
  pub finalize_offchain_pays :
      (t : Scalar)
      → c.mul_base t ≡ ready.delivery.point
      → p.sha256 (decrypt_with_scalar p ready.delivery.encrypted (c.scalar_bytes t))
        ≡ ready.delivery.hash
      → finalize_offchain p c now id (c.scalar_bytes t) v ≡ (
        ok (paid_outcome r (decrypt_with_scalar p ready.delivery.encrypted (c.scalar_bytes t))),
        paid_state v id ch r now,
      )
  unfolding finalize_offchain
  finalize_offchain_pays t opens result =
      rw (laws.scalar_round t) (finalize_with_secret_pays t opens result)

  -- Neither can the provider claim on chain and keep the result to itself: when whatever opens the
  -- delivery's adaptor point decrypts the result to the promised hash, a signature of the payment
  -- message that verifies and has the adapted nonce of the delivery lets the enclave extract a secret
  -- that opens the adaptor point, and the finalization from the claim succeeds with the outcome that
  -- the one off chain has with that secret.
  pub finalize_onchain_claim_pays :
      (sig : AdaptedSignature) (r_prime : Point)
      → ch.channel_id ≡ id
      → c.decompress ready.delivery.pre_sig.r_prime ≡ some r_prime
      → sig.r_bytes ≡ c.compress (c.point_add r_prime ready.delivery.point)
      → verify_adapted c ready.delivery.key (payment_message p id r) sig ≡ true
      → ((t : Scalar)
          → c.mul_base t ≡ ready.delivery.point
          → p.sha256 (decrypt_with_scalar p ready.delivery.encrypted (c.scalar_bytes t))
            ≡ ready.delivery.hash)
      → (t : Scalar) × (extract c sig ready.delivery.pre_sig ≡ some t)
        × (c.mul_base t ≡ ready.delivery.point)
        × (finalize_onchain_claim p c now id sig.r_bytes sig.s_bytes v ≡ (
          ok (paid_outcome r (decrypt_with_scalar p ready.delivery.encrypted (c.scalar_bytes t))),
          paid_state v id ch r now,
        ))
  unfolding finalize_onchain_claim
  finalize_onchain_claim_pays sig r_prime named r_at nonce signed promise =
      let d = ready.delivery in
      let verified : pre_verify c d.key (payment_message p id r) d.point d.pre_sig ≡ true =
        subst (λ k. pre_verify c d.key (payment_message p k r) d.point d.pre_sig ≡ true) named
          d.verified in
      let (t, got) =
        extract_succeeds c laws d.key (payment_message p id r) d.point d.pre_sig sig verified
          signed in
      let opens =
        extract_opens c laws d.key (payment_message p id r) d.point d.pre_sig sig r_prime t verified
          r_at nonce signed got in
      let same = bytes_eq_of_eq _ _ (sym nonce) in
      let recovered : finalize_onchain_claim p c now id sig.r_bytes sig.s_bytes v
          ≡ finalize_with_secret p c now id t (some (c.scalar_bytes t)) v =
        rw ready.at (
          rw ready.status (
            rw ready.active (
              rw d.pre_sig_at (
                rw d.point_at (
                  rw d.decompressed
                    (rw d.key_at (rw got (rw r_at (rw same (rw signed refl)))))))))) in
      (t, got, opens, recovered ∙ finalize_with_secret_pays t opens (promise t opens))
