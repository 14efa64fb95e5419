-- ===== src/Enclave/Channels/Calls/Finalize.antt =====
-- What the finalizations do when they succeed.
use privacy_x.Base.{
  ◌≡◌, sym, Option, some, ok, Bytes, ℤ, checked_add, checked_sub, checked_add-eq-some,
  checked_sub-eq-some, bytes_eq, bytes_instance,
}
use privacy_x.Base.Table.{get}
use privacy_x.Vault.Platform.{Platform}
use privacy_x.Enclave.State.{VaultState, ChannelId, pending, eqb_status, eqb_status_iff}
use privacy_x.Enclave.Action.{on_some, on_check, result_state}
use privacy_x.Enclave.Adaptor.{Curve, adapt, verify_adapted, extract}
use privacy_x.Enclave.Channels.Finalize.{
  payment_message, has_hash, finalize_with_secret, finalize_offchain, finalize_onchain_claim,
  FinalizeOutcome,
}
use privacy_x.Enclave.Channels.Machine.{finalize, Steps, Does, paid_one, deed_of}

module _ {Scalar Point : Type 0} (p : Platform) (c : Curve Scalar Point) where
  module _ (now : ℤ) (id : ChannelId) (v v' : VaultState) where
    finalize_with_secret-Does :
        (t : Scalar) (bytes : Option Bytes) (o : FinalizeOutcome)
        → finalize_with_secret p c now id t bytes v ≡ (ok o, v')
        → Does p c id v v' (paid_one o.request)
    unfolding finalize_with_secret deed_of
    finalize_with_secret-Does t bytes o h = on_some (get v.active_channels id) _ _ h λ ch e0 h0.
        on_check (eqb_status ch.status pending) _ _ h0 λ g1 h1.
          on_some ch.active_request _ _ h1 λ r e2 h2. on_some r.provider_pre_sig _ _ h2 λ s e3 h3.
            on_some r.adaptor_point _ _ h3 λ b e4 h4. on_some (c.decompress b) _ _ h4 λ q e5 h5.
              on_some r.provider_pubkey _ _ h5 λ k e6 h6.
                on_check (c.point_eq q (c.mul_base t)) _ _ h6 λ g7 h7.
                  on_some (adapt c s t q) _ _ h7 λ sig e8 h8.
                    on_check (verify_adapted c k (payment_message p ch.channel_id r) sig) _ _ h8
                      λ g9 h9. on_some r.encrypted_result _ _ h9 λ x e10 h10.
                        on_check (has_hash p r.result_hash _) _ _ h10 λ g11 h11.
                          on_some (checked_sub ch.balance.client_locked r.amount) _ _ h11
                            λ l e12 h12.
                              on_some (checked_add ch.balance.provider_earned r.amount) _ _ h12
                                λ m e13 h13. on_some (checked_add ch.nonce 1) _ _ h13 λ n e14 h14.
                                  let l_is =
                                    checked_sub-eq-some ch.balance.client_locked r.amount e12 in
                                  let m_is =
                                    (checked_add-eq-some ch.balance.provider_earned r.amount
                                      e13).0 in
                                  let n_is = (checked_add-eq-some ch.nonce 1 e14).0 in
                                  (
                                    record {
                                      before = ch;
                                      after = _;
                                      at = e0;
                                      next =
                                          finalize r t l now
                                            ((eqb_status_iff ch.status pending).0 g1) e2
                                            (record {
                                              pre_sig = s;
                                              point_bytes = b;
                                              point = q;
                                              key = k;
                                              sig = sig;
                                              pre_sig_at = e3;
                                              point_at = e4;
                                              decompressed = e5;
                                              key_at = e6;
                                              opens = g7;
                                              adapts = e8;
                                              signed = g9;
                                            })
                                            l_is (cc (m_is, n_is));
                                      rest = sym (result_state h14);
                                    },
                                    cc (h14),
                                  )

    pub finalize_offchain-Does :
        (bytes : Bytes) (o : FinalizeOutcome)
        → finalize_offchain p c now id bytes v ≡ (ok o, v')
        → Does p c id v v' (paid_one o.request)
    unfolding finalize_offchain
    finalize_offchain-Does bytes o h =
        on_some (c.from_canonical_bytes bytes) _ _ h
          λ t e h1. finalize_with_secret-Does t (some bytes) o h1

    pub finalize_onchain_claim-Does :
        (sig_r sig_s : Bytes) (o : FinalizeOutcome)
        → finalize_onchain_claim p c now id sig_r sig_s v ≡ (ok o, v')
        → Does p c id v v' (paid_one o.request)
    unfolding finalize_onchain_claim
    finalize_onchain_claim-Does sig_r sig_s o h =
        on_some (get v.active_channels id) _ _ h λ ch e0 h0.
          on_check (eqb_status ch.status pending) _ _ h0 λ g1 h1.
            on_some ch.active_request _ _ h1 λ r e2 h2. on_some r.provider_pre_sig _ _ h2 λ s e3 h3.
              on_some r.adaptor_point _ _ h3 λ b e4 h4. on_some (c.decompress b) _ _ h4 λ q e5 h5.
                on_some r.provider_pubkey _ _ h5 λ k e6 h6.
                  on_some (extract c _ s) _ _ h6 λ t e7 h7.
                    on_some (c.decompress s.r_prime) _ _ h7 λ rp e8 h8.
                      on_check (bytes_eq (c.compress (c.point_add rp q)) sig_r) _ _ h8 λ g9 h9.
                        on_check (verify_adapted c k (payment_message p id r) _) _ _ h9
                          λ g10 h10. finalize_with_secret-Does t (some (c.scalar_bytes t)) o h10

    pub finalize_offchain-Steps :
        (bytes : Bytes) (o : FinalizeOutcome)
        → finalize_offchain p c now id bytes v ≡ (ok o, v')
        → Steps p c id v v'
    finalize_offchain-Steps bytes o h = (finalize_offchain-Does bytes o h).0

    pub finalize_onchain_claim-Steps :
        (sig_r sig_s : Bytes) (o : FinalizeOutcome)
        → finalize_onchain_claim p c now id sig_r sig_s v ≡ (ok o, v')
        → Steps p c id v v'
    finalize_onchain_claim-Steps sig_r sig_s o h = (finalize_onchain_claim-Does sig_r sig_s o h).0
