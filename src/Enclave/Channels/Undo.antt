-- ===== src/Enclave/Channels/Undo.antt =====
-- What each rollback leaves of a channel, when it follows the operation that it takes back.
pub mod Ended
use privacy_x.Base.{
  ◌-◌, ◌≡◌, refl, ap, subst, some, ok, Bytes, bytes_eq, eq_of_bytes_eq, bytes_instance, ℤ, arith,
  checked_add, checked_add-eq-some,
}
use privacy_x.Base.Table.{get, insert, get-insert_self}
use privacy_x.Vault.Platform.{Platform}
use privacy_x.Enclave.State.{
  VaultState, ChannelId, ChannelState, ChannelRequest, pending, eqb_status,
}
use privacy_x.Enclave.Action.{on_some, on_check, result_state}
use privacy_x.Enclave.Adaptor.{Curve}
use privacy_x.Enclave.Books.{channel_total}
use privacy_x.Enclave.Channels.{rollback_submit_request, submitted}
use privacy_x.Enclave.Channels.Finalize.{rollback_deliver_adaptor}
use privacy_x.Enclave.Channels.Machine.{
  Next, submit, deliver, finalize, expire, submitted_one, delivered_one, deed_of, after_submit,
  after_deliver, delivered,
}
use privacy_x.Enclave.Channels.Invariant.{IsSound, idle, waiting, locked_amount, nothing_locked}
use privacy_x.Enclave.Channels.Rollbacks.{without_first}

module _ {Scalar Point : Type 0} (p : Platform) (c : Curve Scalar Point) where
  -- A channel as it was, as far as its soundness, its owner and its accounts go.
  pub record IsBack (ch ch' : ChannelState) : Type 0 where
    pub sound : IsSound p c ch'
    pub same_client : ch'.client ≡ ch.client
    pub same_provider : ch'.provider_id ≡ ch.provider_id
    pub same_total : channel_total ch' ≡ channel_total ch
    pub same_earned : ch'.balance.provider_earned ≡ ch.balance.provider_earned
    pub same_nonce : ch'.nonce ≡ ch.nonce
    pub same_ids : ch'.used_request_ids ≡ ch.used_request_ids

  -- The channel that a rollback leaves at `id`.
  abbrev pub Left : ChannelId → ChannelState → VaultState → Type 0
  Left id ch w = (ch' : ChannelState) × (get w.active_channels id ≡ some ch') × IsBack ch ch'

  pub at_insert :
      (x w : VaultState) (id : ChannelId) (ch : ChannelState)
      → record x { active_channels = insert x.active_channels id ch } ≡ w
      → get w.active_channels id ≡ some ch
  at_insert x w id ch e =
      subst (λ (u : VaultState). get u.active_channels id ≡ some ch) e
        (get-insert_self x.active_channels id ch)

  module _ (id : ChannelId) (x w : VaultState) (ch ch1 : ChannelState) (now : ℤ)
      (sound : IsSound p c ch) (at : get x.active_channels id ≡ some ch1) where
    pub undo_submission :
        (rid : Bytes) (n : Next p c ch ch1)
        → deed_of p c ch n ≡ submitted_one
        → rollback_submit_request now id rid x ≡ (ok tt, w)
        → Left id ch w
    unfolding rollback_submit_request deed_of
    undo_submission rid (submit rid' amount hash t exp open_now new enough after) d h =
        on_some (get x.active_channels id) _ _ h λ y e0 h0.
          on_some y.active_request _ _ h0 λ r e1 h1.
            on_check (bytes_eq r.request_id rid) _ _ h1 λ g2 h2.
              on_some (checked_add y.balance.client_free r.amount) _ _ h2 λ f e3 h3.
                let same : y ≡ after_submit ch rid' amount hash t exp = cc (e0, at, after) in
                let request : r ≡ submitted rid' amount hash t exp =
                  cc (e1, ap (λ (z : ChannelState). z.active_request) same) in
                let amount_is = ap (λ (q : ChannelRequest). q.amount) request in
                let rid_is = ap (λ (q : ChannelRequest). q.request_id) request in
                let named = eq_of_bytes_eq r.request_id rid g2 in
                let f_is = (checked_add-eq-some y.balance.client_free r.amount e3).0 in
                let free_is = ap (λ (z : ChannelState). z.balance.client_free) same in
                let locked_is = ap (λ (z : ChannelState). z.balance.client_locked) same in
                let earned_is = ap (λ (z : ChannelState). z.balance.provider_earned) same in
                let nonce_is = ap (λ (z : ChannelState). z.nonce) same in
                let ids_is = ap (λ (z : ChannelState). z.used_request_ids) same in
                let zero = nothing_locked p c ch sound open_now in
                (
                  _,
                  at_insert x w id _ (result_state h3),
                  record {
                    sound = idle refl refl (omega (arith, locked_is, amount_is, zero));
                    same_client = ap (λ (z : ChannelState). z.client) same;
                    same_provider = ap (λ (z : ChannelState). z.provider_id) same;
                    same_total =
                        omega (arith, f_is, free_is, locked_is, earned_is, amount_is, enough, zero);
                    same_earned = earned_is;
                    same_nonce = omega (arith, nonce_is);
                    same_ids =
                        cc (without_first rid' ch.used_request_ids new, ids_is, rid_is, named);
                  },
                )
    undo_submission rid (deliver r q t s enc hash key t' l a dd v e) d h = cc
    undo_submission rid (finalize r secret left t s a u l e) d h = cc
    undo_submission rid (expire r t b a late e) d h = cc

    pub undo_delivery :
        (rid : Bytes) (n : Next p c ch ch1)
        → deed_of p c ch n ≡ delivered_one
        → rollback_deliver_adaptor now id rid x ≡ (ok tt, w)
        → Left id ch w
    unfolding rollback_deliver_adaptor deed_of
    undo_delivery rid (deliver q point s pre_sig enc hash key t st act dec ver after) d h =
        on_some (get x.active_channels id) _ _ h λ y e0 h0.
          on_check (eqb_status y.status pending) _ _ h0 λ g1 h1.
            on_some y.active_request _ _ h1 λ r e2 h2.
              on_check (bytes_eq r.request_id rid) _ _ h2 λ g3 h3.
                let same : y ≡ after_deliver ch (delivered q point pre_sig enc hash key) t =
                  cc (e0, at, after) in
                let request : r ≡ delivered q point pre_sig enc hash key =
                  cc (e2, ap (λ (z : ChannelState). z.active_request) same) in
                let amount_is = ap (λ (o : ChannelRequest). o.amount) request in
                let all = locked_amount p c ch q sound act in
                let balance_is = ap (λ (z : ChannelState). z.balance) same in
                let locked_is = ap (λ (z : ChannelState). z.balance.client_locked) same in
                let nonce_is = ap (λ (z : ChannelState). z.nonce) same in
                (
                  _,
                  at_insert x w id _ (result_state h3),
                  record {
                    sound = waiting _ refl refl (omega (arith, locked_is, all, amount_is));
                    same_client = ap (λ (z : ChannelState). z.client) same;
                    same_provider = ap (λ (z : ChannelState). z.provider_id) same;
                    same_total = ap channel_total same;
                    same_earned = ap (λ (z : ChannelState). z.balance.provider_earned) same;
                    same_nonce = omega (arith, nonce_is);
                    same_ids = ap (λ (z : ChannelState). z.used_request_ids) same;
                  },
                )
    undo_delivery rid (submit rid' amount hash t exp o n m e) d h = cc
    undo_delivery rid (finalize r secret left t s a u l e) d h = cc
    undo_delivery rid (expire r t b a late e) d h = cc
