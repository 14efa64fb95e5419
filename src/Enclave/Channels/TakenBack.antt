-- ===== src/Enclave/Channels/TakenBack.antt =====
-- An operation on one channel that is taken back at once, as enclave/src/handlers.rs and
-- enclave/src/batch.rs do, before they let go of their locks, when the log cannot be written.
use privacy_x.Base.{ℕ, ◌≡◌, sym, subst, some, ok, Bytes, bytes_instance, ℤ, inl, inr}
use privacy_x.Base.Table.{get}
use privacy_x.Vault.Platform.{Platform}
use privacy_x.Enclave.State.{VaultState, ChannelId, ChannelState, AdaptorPreSignature}
use privacy_x.Enclave.Adaptor.{Curve}
use privacy_x.Enclave.Channels.{
  ExpiredRequestOutcome, rollback_submit_request, rollback_expire_request, submit_request,
  expire_request,
}
use privacy_x.Enclave.Channels.Finalize.{
  rollback_deliver_adaptor, rollback_finalize_offchain, FinalizeOutcome, deliver_adaptor,
  finalize_offchain, finalize_onchain_claim,
}
use privacy_x.Enclave.Channels.Machine.{
  Next, Does, Deed, submitted_one, delivered_one, paid_one, expired_one, deed_of,
}
use privacy_x.Enclave.Channels.Calls.{
  submit_request-Does, deliver_adaptor-Does, expire_request-Expiry,
}
use privacy_x.Enclave.Channels.Calls.Finalize.{finalize_offchain-Does, finalize_onchain_claim-Does}
use privacy_x.Enclave.Channels.Invariant.{IsSound}
use privacy_x.Enclave.Channels.Undo.{Left, at_insert, undo_submission, undo_delivery}
use privacy_x.Enclave.Channels.Undo.Ended.{undo_payment, undo_expiry}

module _ {Scalar Point : Type 0} (p : Platform) (c : Curve Scalar Point) where
  -- An operation on the channel that has succeeded and its rollback that has succeeded, with nothing
  -- between them.
  pub data TakenBack (id : ChannelId) (u w : VaultState) : Type 0 where
    submission :
        (now now' : ℤ) (rid rid' : Bytes) (amount : ℕ) (hash : Bytes) (x : VaultState)
        → submit_request now id rid amount hash u ≡ (ok tt, x)
        → rollback_submit_request now' id rid' x ≡ (ok tt, w)
        → TakenBack id u w
    delivery :
        (now now' : ℤ) (point : Bytes) (pre_sig : AdaptorPreSignature)
        (encrypted hash key rid : Bytes) (x : VaultState)
        → deliver_adaptor p c now id point pre_sig encrypted hash key u ≡ (ok tt, x)
        → rollback_deliver_adaptor now' id rid x ≡ (ok tt, w)
        → TakenBack id u w
    payment :
        (now now' : ℤ) (secret : Bytes) (o : FinalizeOutcome) (x : VaultState)
        → finalize_offchain p c now id secret u ≡ (ok o, x)
        → rollback_finalize_offchain now' id o.request x ≡ (ok tt, w)
        → TakenBack id u w
    claim :
        (now now' : ℤ) (sig_r sig_s : Bytes) (o : FinalizeOutcome) (x : VaultState)
        → finalize_onchain_claim p c now id sig_r sig_s u ≡ (ok o, x)
        → rollback_finalize_offchain now' id o.request x ≡ (ok tt, w)
        → TakenBack id u w
    expiry :
        (now now' : ℤ) (o : ExpiredRequestOutcome) (x : VaultState)
        → expire_request now id u ≡ (ok (some o), x)
        → o.channel_id ≡ id
        → rollback_expire_request now' o x ≡ (ok tt, w)
        → TakenBack id u w

  module _ (id : ChannelId) (u w : VaultState) (ch : ChannelState) (sound : IsSound p c ch)
      (at : get u.active_channels id ≡ some ch) where
    -- The step that was taken, from the channel that is known.
    undo_of :
        (x : VaultState) (d : Deed)
        → Does p c id u x d
        → ((before after : ChannelState)
            → IsSound p c before
            → get x.active_channels id ≡ some after
            → (n : Next p c before after) → deed_of p c before n ≡ d
            → Left p c id before w)
        → Left p c id ch w
    undo_of x d (s, is_d) back =
        let same : s.before ≡ ch = cc (s.at, at) in
        subst (λ (z : ChannelState). Left p c id z w) same
          (back s.before s.after (subst (IsSound p c) (sym same) sound)
            (at_insert p c u x id s.after (sym s.rest)) s.next is_d)

    pub TakenBack-Left : TakenBack id u w → Left p c id ch w
    TakenBack-Left (submission now now' rid rid' amount hash x done back) =
        undo_of x submitted_one (submit_request-Does p c now id rid amount hash u x done)
          λ y z s a n d. undo_submission p c id x w y z now' s a rid' n d back
    TakenBack-Left (delivery now now' point pre_sig encrypted hash key rid x done back) =
        undo_of x delivered_one
          (deliver_adaptor-Does p c now id u x point pre_sig encrypted hash key done)
          λ y z s a n d. undo_delivery p c id x w y z now' s a rid n d back
    TakenBack-Left (payment now now' secret o x done back) =
        undo_of x (paid_one o.request) (finalize_offchain-Does p c now id u x secret o done)
          λ y z s a n d. undo_payment p c id x w y z now' s a o.request n d back
    TakenBack-Left (claim now now' sig_r sig_s o x done back) =
        undo_of x (paid_one o.request)
          (finalize_onchain_claim-Does p c now id u x sig_r sig_s o done)
          λ y z s a n d. undo_payment p c id x w y z now' s a o.request n d back
    TakenBack-Left (expiry now now' o x done named back) =
        elim (expire_request-Expiry p c now id u x (some o) done) [
          | inl (none_due, same) ↦ absurd (cc (none_due))
          | inr (o', is_o, does) ↦
              let same : o' ≡ o = cc (is_o) in
              undo_of x (expired_one o.previous_status o.request)
                (subst
                  (λ (q : ExpiredRequestOutcome).
                    Does p c id u x (expired_one q.previous_status q.request))
                  same does)
                λ y z s a n d. undo_expiry p c id x w y z now' s a o n d named back
        ]
