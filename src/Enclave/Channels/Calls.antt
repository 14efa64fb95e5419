-- ===== src/Enclave/Channels/Calls.antt =====
-- What the operations on one channel do when they succeed: each makes a step of its machine.
pub mod Finalize
use privacy_x.Base.{
  ℕ, ◌≡◌, refl, sym, not, Option, none, some, ok, Bytes, ℤ, pos, ltb_ℤ, ltb_ℤ→<ℤ, leb, leb→le,
  checked_add, checked_add_i64, checked_add-eq-some, bytes_instance, not-eq-true, ◌⊎◌, inl, inr,
  ◌&&◌, and_true, leb_ℤ,
}
use privacy_x.Base.Table.{get}
use privacy_x.Vault.Platform.{Platform}
use privacy_x.Enclave.State.{
  VaultState, ChannelId, open_, locked, eqb_status, eqb_status_iff, ChannelState, ChannelRequest,
  AdaptorPreSignature,
}
use privacy_x.Enclave.Action.{on_some, on_check, result_state, on_if}
use privacy_x.Enclave.Adaptor.{Curve, pre_verify, adapt}
use privacy_x.Enclave.Channels.{
  contains, is_busy, submit_request, expire_request, expire_active, release_request,
  request_expiry_sec, ExpiredRequestOutcome,
}
use privacy_x.Enclave.Channels.Finalize.{payment_message, deliver_adaptor}
use privacy_x.Enclave.Channels.Machine.{
  submit, deliver, expire, Steps, Does, submitted_one, delivered_one, expired_one, deed_of,
}

module _ {Scalar Point : Type 0} (p : Platform) (c : Curve Scalar Point) where
  pub submit_request-Does :
      (now : ℤ) (id : ChannelId) (rid : Bytes) (amount : ℕ) (hash : Bytes) (v v' : VaultState)
      → submit_request now id rid amount hash v ≡ (ok tt, v')
      → Does p c id v v' submitted_one
  unfolding submit_request deed_of
  submit_request-Does now id rid amount hash v v' h =
      on_some (get v.active_channels id) _ _ h λ ch e0 h0.
        on_check (eqb_status ch.status open_) _ _ h0 λ g1 h1.
          on_check (not (contains rid ch.used_request_ids)) _ _ h1 λ g2 h2.
            on_check (leb amount ch.balance.client_free) _ _ h2 λ g3 h3.
              on_some (checked_add ch.balance.client_locked amount) _ _ h3 λ l e4 h4.
                on_some (checked_add ch.nonce 1) _ _ h4 λ n e5 h5.
                  on_some (checked_add_i64 now (pos request_expiry_sec)) _ _ h5 λ x e6 h6.
                    let l_is = (checked_add-eq-some ch.balance.client_locked amount e4).0 in
                    let n_is = (checked_add-eq-some ch.nonce 1 e5).0 in
                    (
                      record {
                        before = ch;
                        after = _;
                        at = e0;
                        next =
                            submit rid amount hash now x ((eqb_status_iff ch.status open_).0 g1)
                              (not-eq-true _ g2) (leb→le amount ch.balance.client_free g3)
                              (cc (l_is, n_is));
                        rest = sym (result_state h6);
                      },
                      refl,
                    )

  pub submit_request-Steps :
      (now : ℤ) (id : ChannelId) (rid : Bytes) (amount : ℕ) (hash : Bytes) (v v' : VaultState)
      → submit_request now id rid amount hash v ≡ (ok tt, v')
      → Steps p c id v v'
  submit_request-Steps now id rid amount hash v v' h =
      (submit_request-Does now id rid amount hash v v' h).0

  module _ (now : ℤ) (id : ChannelId) (v v' : VaultState) where
    pub deliver_adaptor-Does :
        (point : Bytes) (pre_sig : AdaptorPreSignature) (encrypted hash key : Bytes)
        → deliver_adaptor p c now id point pre_sig encrypted hash key v ≡ (ok tt, v')
        → Does p c id v v' delivered_one
    unfolding deliver_adaptor deed_of
    deliver_adaptor-Does point pre_sig encrypted hash key h =
        on_some (get v.active_channels id) _ _ h λ ch e0 h0.
          on_check (eqb_status ch.status locked) _ _ h0 λ g1 h1.
            on_some ch.active_request _ _ h1 λ r e2 h2.
              on_check (leb_ℤ now r.expires_at) _ _ h2 λ g3 h3.
                on_some (c.decompress point) _ _ h3 λ t e4 h4.
                  on_check (pre_verify c key (payment_message p ch.channel_id r) t pre_sig) _ _ h4
                    λ g5 h5. on_some (checked_add ch.nonce 1) _ _ h5 λ n e6 h6.
                      let n_is = (checked_add-eq-some ch.nonce 1 e6).0 in
                      (
                        record {
                          before = ch;
                          after = _;
                          at = e0;
                          next =
                              deliver r point t pre_sig encrypted hash key now
                                ((eqb_status_iff ch.status locked).0 g1) e2 e4 g5 (cc n_is);
                          rest = sym (result_state h6);
                        },
                        refl,
                      )

    pub deliver_adaptor-Steps :
        (point : Bytes) (pre_sig : AdaptorPreSignature) (encrypted hash key : Bytes)
        → deliver_adaptor p c now id point pre_sig encrypted hash key v ≡ (ok tt, v')
        → Steps p c id v v'
    deliver_adaptor-Steps point pre_sig encrypted hash key h =
        (deliver_adaptor-Does point pre_sig encrypted hash key h).0

    -- What an expiry has done, or that there was nothing to expire.
    abbrev pub Expiry : Option ExpiredRequestOutcome → Type 0
    Expiry o =
        ((o ≡ none) × (v' ≡ v))
        ⊎ ((x : ExpiredRequestOutcome) × (o ≡ some x)
            × Does p c id v v' (expired_one x.previous_status x.request))

    expire_active-Expiry :
        (ch : ChannelState) (r : Option ChannelRequest) (o : Option ExpiredRequestOutcome)
        → get v.active_channels id ≡ some ch
        → ch.active_request ≡ r
        → expire_active now id ch r v ≡ (ok o, v')
        → Expiry o
    unfolding expire_active release_request deed_of
    expire_active-Expiry ch none o e0 e h = inl (cc (h), sym (result_state h))
    expire_active-Expiry ch (some r) o e0 e h =
        on_if (is_busy ch.status && ltb_ℤ r.expires_at now) _ _ h
          (λ due h1. on_some (checked_add ch.balance.client_free r.amount) _ _ h1 λ f e1 h2.
            on_some (checked_add ch.nonce 1) _ _ h2 λ n e2 h3.
              let (busy, late) = and_true (is_busy ch.status) (ltb_ℤ r.expires_at now) due in
              let f_is = (checked_add-eq-some ch.balance.client_free r.amount e1).0 in
              let n_is = (checked_add-eq-some ch.nonce 1 e2).0 in
              inr (
                record {
                  channel_id = ch.channel_id;
                  client = ch.client;
                  previous_status = ch.status;
                  request = r;
                },
                cc (h3),
                (
                  record {
                    before = ch;
                    after = _;
                    at = e0;
                    next = expire r now busy e (ltb_ℤ→<ℤ r.expires_at now late) (cc (f_is, n_is));
                    rest = sym (result_state h3);
                  },
                  refl,
                ),
              ))
          (λ idle h1. inl (cc (h1), sym (result_state h1)))

    pub expire_request-Expiry :
        (o : Option ExpiredRequestOutcome) → expire_request now id v ≡ (ok o, v') → Expiry o
    unfolding expire_request
    expire_request-Expiry o h =
        on_some (get v.active_channels id) _ _ h
          λ ch e0 h0. expire_active-Expiry ch ch.active_request o e0 refl h0

    -- An expiry that finds nothing to expire leaves the state as it was.
    pub expire_request-Steps :
        (o : Option ExpiredRequestOutcome)
        → expire_request now id v ≡ (ok o, v')
        → (v' ≡ v) ⊎ Steps p c id v v'
    expire_request-Steps o h = elim (expire_request-Expiry o h) [
      | inl (nothing, same) ↦ inl same
      | inr (x, some_one, does) ↦ inr does.0
    ]
