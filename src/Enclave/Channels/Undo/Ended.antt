-- ===== src/Enclave/Channels/Undo/Ended.antt =====
-- The rollbacks of a finalization and of an expiry.
use privacy_x.Base.{
  ◌+◌, ◌-◌, ◌≡◌, refl, sym, ap, ◌∙◌, subst, some, ok, bytes_instance, ℤ, arith, checked_add,
  checked_add-eq-some,
}
use privacy_x.Base.Table.{get}
use privacy_x.Vault.Platform.{Platform}
use privacy_x.Enclave.State.{VaultState, ChannelId, ChannelState, ChannelRequest, pending}
use privacy_x.Enclave.Action.{on_some, on_check, result_state}
use privacy_x.Enclave.Adaptor.{Curve}
use privacy_x.Enclave.Channels.{is_idle, ExpiredRequestOutcome, rollback_expire_request, released}
use privacy_x.Enclave.Channels.Finalize.{rollback_finalize_offchain, settled}
use privacy_x.Enclave.Channels.Machine.{
  Next, submit, deliver, finalize, expire, paid_one, expired_one, deed_of,
}
use privacy_x.Enclave.Channels.Invariant.{IsSound, idle, waiting, ready, Delivered, locked_amount}
use privacy_x.Enclave.Channels.Undo.{Left, at_insert}

module _ {Scalar Point : Type 0} (p : Platform) (c : Curve Scalar Point) where
  module _ (id : ChannelId) (x w : VaultState) (ch ch1 : ChannelState) (now : ℤ)
      (sound : IsSound p c ch) (at : get x.active_channels id ≡ some ch1) where
    -- What was delivered is still there.
    delivery_of :
        (r : ChannelRequest)
        → ch.status ≡ pending
        → ch.active_request ≡ some r
        → Delivered p c ch.channel_id r
    delivery_of r st act = delivery sound
      where
        delivery : IsSound p c ch → Delivered p c ch.channel_id r
        delivery (idle s a l) = absurd (cc)
        delivery (waiting q s a l) = absurd (cc)
        delivery (ready q s a l d) = subst (Delivered p c ch.channel_id) (cc (a, act)) d

    pub undo_payment :
        (r : ChannelRequest) (n : Next p c ch ch1)
        → deed_of p c ch n ≡ paid_one r
        → rollback_finalize_offchain now id r x ≡ (ok tt, w)
        → Left p c id ch w
    unfolding rollback_finalize_offchain deed_of
    undo_payment r (finalize q secret left t st act u covers after) d h =
        on_some (get x.active_channels id) _ _ h λ y e0 h0. on_check (is_idle y) _ _ h0 λ g1 h1.
          on_some (checked_add y.balance.client_locked r.amount) _ _ h1 λ f e2 h2.
            let same : y
                ≡ settled ch left (ch.balance.provider_earned + q.amount) (ch.nonce + 1) t =
              cc (e0, at, after) in
            let request : q ≡ r = cc (d) in
            let amount_is = ap (λ (o : ChannelRequest). o.amount) request in
            let all = locked_amount p c ch q sound act in
            let f_is = (checked_add-eq-some y.balance.client_locked r.amount e2).0 in
            let free_is = ap (λ (z : ChannelState). z.balance.client_free) same in
            let locked_is = ap (λ (z : ChannelState). z.balance.client_locked) same in
            let earned_is = ap (λ (z : ChannelState). z.balance.provider_earned) same in
            let nonce_is = ap (λ (z : ChannelState). z.nonce) same in
            let id_is = ap (λ (z : ChannelState). z.channel_id) same in
            (
              _,
              at_insert p c x w id _ (result_state h2),
              record {
                sound = ready r refl refl (omega (arith, f_is, locked_is, covers, all, amount_is)) (
                    subst (λ k. Delivered p c k r) (sym id_is)
                      (delivery_of r st (act ∙ ap some request)));
                same_client = ap (λ (z : ChannelState). z.client) same;
                same_provider = ap (λ (z : ChannelState). z.provider_id) same;
                same_total = omega (arith, f_is, free_is, locked_is, earned_is, amount_is, covers);
                same_earned = omega (arith, earned_is, amount_is);
                same_nonce = omega (arith, nonce_is);
                same_ids = ap (λ (z : ChannelState). z.used_request_ids) same;
              },
            )
    undo_payment r (submit rid' amount hash t exp o n m e) d h = cc
    undo_payment r (deliver q point t s enc hash key t' l a dd v e) d h = cc
    undo_payment r (expire q t b a late e) d h = cc

    -- A busy channel with its status and its request is sound when one with the same accounts is.
    restored-IsSound :
        (r : ChannelRequest) (ch2 : ChannelState)
        → ch.active_request ≡ some r
        → ch2.active_request ≡ some r
        → ch2.status ≡ ch.status
        → ch2.channel_id ≡ ch.channel_id
        → ch2.balance.client_locked ≡ ch.balance.client_locked
        → IsSound p c ch2
    restored-IsSound r ch2 act act2 st key amount = from sound
      where
        from : IsSound p c ch → IsSound p c ch2
        from (idle s a l) = absurd (cc)
        from (waiting q s a l) = waiting q (st ∙ s) (cc (a, act, act2)) (amount ∙ l)
        from (ready q s a l d) =
            ready q (st ∙ s) (cc (a, act, act2)) (amount ∙ l)
              (subst (λ k. Delivered p c k q) (sym key) d)

    pub undo_expiry :
        (o : ExpiredRequestOutcome) (n : Next p c ch ch1)
        → deed_of p c ch n ≡ expired_one o.previous_status o.request
        → o.channel_id ≡ id
        → rollback_expire_request now o x ≡ (ok tt, w)
        → Left p c id ch w
    unfolding rollback_expire_request deed_of
    undo_expiry o (expire q t busy act late after) d named h =
        on_some (get x.active_channels o.channel_id) _ _ h λ y e0 h0.
          on_check (is_idle y) _ _ h0 λ g1 h1.
            on_some (checked_add y.balance.client_locked o.request.amount) _ _ h1 λ f e2 h2.
              let here : get x.active_channels id ≡ some y =
                subst (λ k. get x.active_channels k ≡ some y) named e0 in
              let same : y
                  ≡ released ch q.amount (ch.balance.client_free + q.amount) (ch.nonce + 1) t =
                cc (here, at, after) in
              let request : q ≡ o.request = cc (d) in
              let status : ch.status ≡ o.previous_status = cc (d) in
              let amount_is = ap (λ (r : ChannelRequest). r.amount) request in
              let all = locked_amount p c ch q sound act in
              let f_is = (checked_add-eq-some y.balance.client_locked o.request.amount e2).0 in
              let free_is = ap (λ (z : ChannelState). z.balance.client_free) same in
              let locked_is = ap (λ (z : ChannelState). z.balance.client_locked) same in
              let earned_is = ap (λ (z : ChannelState). z.balance.provider_earned) same in
              let nonce_is = ap (λ (z : ChannelState). z.nonce) same in
              let back : ChannelState = record y {
                balance = record y.balance {
                  client_free = y.balance.client_free - o.request.amount;
                  client_locked = f;
                };
                status = o.previous_status;
                active_request = some o.request;
                nonce = y.nonce - 1;
                updated_at = now;
              } in
              (
                back,
                subst (λ k. get w.active_channels k ≡ some back) named
                    (at_insert p c x w o.channel_id _ (result_state h2)),
                record {
                  sound =
                      restored-IsSound o.request back (act ∙ ap some request) refl (sym status)
                        (ap (λ (z : ChannelState). z.channel_id) same)
                        (omega (arith, f_is, locked_is, amount_is, all));
                  same_client = ap (λ (z : ChannelState). z.client) same;
                  same_provider = ap (λ (z : ChannelState). z.provider_id) same;
                  same_total = omega (arith, f_is, free_is, locked_is, earned_is, amount_is, all);
                  same_earned = earned_is;
                  same_nonce = omega (arith, nonce_is);
                  same_ids = ap (λ (z : ChannelState). z.used_request_ids) same;
                },
              )
    undo_expiry o (submit rid' amount hash t exp oo n m e) d named h = cc
    undo_expiry o (deliver q point t s enc hash key t' l a dd v e) d named h = cc
    undo_expiry o (finalize q secret left t s a u l e) d named h = cc
