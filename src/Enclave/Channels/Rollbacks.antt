-- ===== src/Enclave/Channels/Rollbacks.antt =====
-- What is taken back, when the log cannot be written, stands as before.
use privacy_x.Base.{
  Result, ℕ, ◌+◌, ◌-◌, ◌≤◌, ◌<◌, ◌≡◌, refl, sym, ap, subst, false, not, not-eq-true, none, some, ok,
  [], ◌∷◌, List, Bytes, bytes_eq, bytes_eq_refl, bytes_instance, ℤ, pos, arith, leb, leb→le,
  checked_add, checked_add-eq-some, checked_add_total, checked_add_i64, u64_mod, Bool-cases, inl,
  inr,
}
use privacy_x.Base.Table.{get, insert, get-insert_self, insert_twice, All-get}
use privacy_x.Vault.Platform.{Platform}
use privacy_x.Enclave.State.{
  EnclaveError, VaultState, ChannelId, ChannelState, open_, eqb_status, eqb_status_iff,
}
use privacy_x.Enclave.Action.{on_some, on_check, result_state}
use privacy_x.Enclave.Adaptor.{Curve}
use privacy_x.Enclave.Ledger.{without}
use privacy_x.Enclave.Channels.{
  contains, submit_request, rollback_submit_request, request_expiry_sec,
}
use privacy_x.Enclave.Channels.Machine.{after_submit}
use privacy_x.Enclave.Channels.Invariant.{IsSound, idle, waiting, ready}
use privacy_x.Enclave.Channels.Accounts.{AllSound}

without_absent : (id : Bytes) (ids : List Bytes) → contains id ids ≡ false → without id ids ≡ ids
unfolding without contains
without_absent id [] h = refl
without_absent id (x ∷ xs) h = elim (Bool-cases (bytes_eq x id)) [
  | inl same ↦ absurd (ground (arith, h, same))
  | inr differs ↦ rw differs (ap (λ l. x ∷ l) (without_absent id xs (rest differs)))
]
  where
    rest : bytes_eq x id ≡ false → contains id xs ≡ false
    rest differs = ground (arith, h, differs)

pub without_first :
    (id : Bytes) (ids : List Bytes) → contains id ids ≡ false → without id (id ∷ ids) ≡ ids
unfolding without
without_first id ids h = rw (bytes_eq_refl id) (without_absent id ids h)

-- The state with one channel touched at another time.
abbrev pub touched : VaultState → ChannelId → ChannelState → ℤ → VaultState
touched v id ch now = record v {
  active_channels = insert v.active_channels id (record ch { updated_at = now });
}

module _ (now now' : ℤ) (id : ChannelId) (rid : Bytes) (amount : ℕ) (hash : Bytes) (v : VaultState)
    (ch : ChannelState) where
  rollback_from :
      (expires_at : ℤ)
      → ch.status ≡ open_
      → ch.active_request ≡ none
      → contains rid ch.used_request_ids ≡ false
      → amount ≤ ch.balance.client_free
      → ch.balance.client_free < u64_mod
      → rollback_submit_request now' id rid (record v {
        active_channels =
            insert v.active_channels id (after_submit ch rid amount hash now expires_at);
      })
        ≡ (ok tt, touched v id ch now')
  unfolding rollback_submit_request
  rollback_from expires_at st act absent enough fits =
      let ch1 = after_submit ch rid amount hash now expires_at in
      let free_back : ch.balance.client_free - amount + amount ≡ ch.balance.client_free =
        omega (arith, enough) in
      let sum : checked_add (ch.balance.client_free - amount) amount
          ≡ some (ch.balance.client_free - amount + amount) =
        checked_add_total (ch.balance.client_free - amount) amount
          (omega (arith, free_back, fits)) in
      let locked_back : ch.balance.client_locked + amount - amount ≡ ch.balance.client_locked =
        omega arith in
      let nonce_back : ch.nonce + 1 - 1 ≡ ch.nonce = omega arith in
      let ids = without_first rid ch.used_request_ids absent in
      let before : ChannelState = record ch { updated_at = now' } in
      let undone : ChannelState = record ch {
        balance = record ch.balance {
          client_free = ch.balance.client_free - amount + amount;
          client_locked = ch.balance.client_locked + amount - amount;
        };
        status = open_;
        nonce = ch.nonce + 1 - 1;
        updated_at = now';
        used_request_ids = without rid (rid ∷ ch.used_request_ids);
        active_request = none;
      } in
      let back : undone ≡ before = cc (free_back, locked_back, nonce_back, ids, st, act) in
      let twice = insert_twice v.active_channels id ch1 before in
      let end : ◌≡◌ {A = Result EnclaveError (Unit {0}) × VaultState}
          (ok tt, record v { active_channels = insert (insert v.active_channels id ch1) id undone })
          (ok tt, touched v id ch now') =
        cc (back, twice) in
      rw (get-insert_self v.active_channels id ch1) (rw (bytes_eq_refl rid) (rw sum end))

module _ {Scalar Point : Type 0} (p : Platform) (c : Curve Scalar Point) where
  no_active : (ch : ChannelState) → IsSound p c ch → ch.status ≡ open_ → ch.active_request ≡ none
  no_active ch (idle s a l) e = a
  no_active ch (waiting q s a l) e = absurd (cc)
  no_active ch (ready q s a l d) e = absurd (cc)

  -- When every channel is sound and the channel's free balance is a u64: taking back a submission that
  -- has succeeded succeeds too, and leaves the state as it was, the channel's identifiers and its nonce
  -- included, but for the time of the channel's last update.
  pub rollback_submit_request-submit_request :
      (now now' : ℤ) (id : ChannelId) (rid : Bytes) (amount : ℕ) (hash : Bytes) (v v' : VaultState)
      (ch : ChannelState)
      → AllSound p c v
      → get v.active_channels id ≡ some ch
      → ch.balance.client_free < u64_mod
      → submit_request now id rid amount hash v ≡ (ok tt, v')
      → rollback_submit_request now' id rid v' ≡ (ok tt, touched v id ch now')
  unfolding submit_request
  rollback_submit_request-submit_request now now' id rid amount hash v v' ch sound at fits h =
      on_some (get v.active_channels id) _ _ h λ x e0 h0.
        on_check (eqb_status x.status open_) _ _ h0 λ g1 h1.
          on_check (not (contains rid x.used_request_ids)) _ _ h1 λ g2 h2.
            on_check (leb amount x.balance.client_free) _ _ h2 λ g3 h3.
              on_some (checked_add x.balance.client_locked amount) _ _ h3 λ l e4 h4.
                on_some (checked_add x.nonce 1) _ _ h4 λ n e5 h5.
                  on_some (checked_add_i64 now (pos request_expiry_sec)) _ _ h5 λ y e6 h6.
                    let l_is = (checked_add-eq-some x.balance.client_locked amount e4).0 in
                    let n_is = (checked_add-eq-some x.nonce 1 e5).0 in
                    let same : x ≡ ch = cc (e0, at) in
                    let st = (eqb_status_iff x.status open_).0 g1 in
                    let act =
                      no_active x (All-get (IsSound p c) v.active_channels id x sound e0) st in
                    let small : x.balance.client_free < u64_mod =
                      subst (λ (z : ChannelState). z.balance.client_free < u64_mod) (sym same)
                        fits in
                    let taken =
                      rollback_from now now' id rid amount hash v x y st act (not-eq-true _ g2)
                        (leb→le amount x.balance.client_free g3) small in
                    let after : record v {
                      active_channels =
                          insert v.active_channels id (after_submit x rid amount hash now y);
                    }
                        ≡ v' =
                      cc (l_is, n_is, result_state h6) in
                    subst
                      (λ z. rollback_submit_request now' id rid v' ≡ (ok tt, touched v id z now'))
                      same
                      (subst
                        (λ u. rollback_submit_request now' id rid u ≡ (ok tt, touched v id x now'))
                        after taken)
