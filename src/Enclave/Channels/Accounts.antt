-- ===== src/Enclave/Channels/Accounts.antt =====
-- The books through the operations on channels.
use privacy_x.Base.{
  ℕ, ◌+◌, ◌-◌, ◌≤◌, ◌≡◌, refl, sym, ap, subst, none, some, ok, Bytes, ℤ, leb, leb→le,
  bytes_instance, arith, ◌∙◌,
}
use privacy_x.Base.Table.{get, insert, sum-insert-some, sum-insert-none, All, All-get, All-insert}
use privacy_x.Vault.State.{Pubkey}
use privacy_x.Vault.Platform.{Platform}
use privacy_x.Enclave.State.{VaultState, ClientBalance, ChannelId}
use privacy_x.Enclave.Action.{on_some, on_check, on_action, result_state}
use privacy_x.Enclave.Adaptor.{Curve}
use privacy_x.Enclave.Ledger.{reserve_balance}
use privacy_x.Enclave.Books.{
  Balanced, held, liabilities, funds, share, channel_total, channel_share,
}
use privacy_x.Enclave.Books.Changes.{lock_funds-after, locked_at-insert, share_add}
use privacy_x.Enclave.Channels.{opened, open_channel_with_id}
use privacy_x.Enclave.Channels.Machine.{Steps}
use privacy_x.Enclave.Channels.Invariant.{IsSound, idle, Next-IsSound, Next-Kept}

-- Every channel is sound.
abbrev pub AllSound : {Scalar Point : Type 0} → Platform → Curve Scalar Point → VaultState → Type 0
AllSound p c v = All (IsSound p c) v.active_channels

reserve_balance-after :
    (v v' : VaultState) (client : Pubkey) (n : ℕ)
    → reserve_balance client n v ≡ (ok tt, v')
    → (b : ClientBalance) × (get v.client_balances client ≡ some b)
      × (n ≤ b.free)
      × (v' ≡ record v {
        client_balances =
            insert v.client_balances client (record b { free = b.free - n; locked = b.locked + n });
      })
unfolding reserve_balance
reserve_balance-after v v' client n h = on_some (get v.client_balances client) _ _ h λ b e0 h0.
    on_check (leb n b.free) _ _ h0
      λ g1 h1. (b, e0, leb→le n b.free g1, lock_funds-after client b v v' n h1)

module _ {Scalar Point : Type 0} (p : Platform) (c : Curve Scalar Point) (v v' : VaultState) where
  -- A step of one channel keeps every channel sound and moves no money in or out.
  pub Steps-AllSound : (id : ChannelId) → AllSound p c v → Steps p c id v v' → AllSound p c v'
  Steps-AllSound id sound s =
      let now = All-get (IsSound p c) v.active_channels id s.before sound s.at in
      subst (AllSound p c) (sym s.rest) (
        All-insert (IsSound p c) v.active_channels id s.after sound
          (Next-IsSound p c s.before s.after now s.next))

  pub Steps-Balanced : (id : ChannelId) → AllSound p c v → Steps p c id v v' → Balanced v v' 0 0
  unfolding liabilities held
  Steps-Balanced id sound s =
      let now = All-get (IsSound p c) v.active_channels id s.before sound s.at in
      let kept = Next-Kept p c s.before s.after now s.next in
      subst (λ u. Balanced v u 0 0) (sym s.rest)
        (record {
          owed = refl;
          backing = λ o.
              let change =
                sum-insert-some (channel_share o) v.active_channels id s.before s.after s.at in
              let same : channel_share o s.after ≡ channel_share o s.before =
                ap (λ k. share o k (channel_total s.after)) kept.same_client
                ∙ ap (share o s.before.client) kept.same_total in
              omega (arith, change, same);
        })

  -- Opening a channel under a new identifier: the deposit is locked behind it.
  pub open_channel_with_id-Balanced :
      (now : ℤ) (id : ChannelId) (client : Pubkey) (provider : Bytes) (n : ℕ)
      → get v.active_channels id ≡ none
      → open_channel_with_id now id client provider n v ≡ (ok tt, v')
      → Balanced v v' 0 0
  unfolding open_channel_with_id liabilities held
  open_channel_with_id-Balanced now id client provider n fresh h =
      on_some (get v.providers provider) _ _ h λ q e0 h0.
        on_some (get v.client_balances client) _ _ h0 λ a e1 h1.
          on_check (leb n a.free) _ _ h1 λ g2 h2.
            on_action (reserve_balance client n) _ h2 λ x u e3 h3.
              let (b, at, enough, mid) = reserve_balance-after v u client n e3 in
              let b' : ClientBalance = record b { free = b.free - n; locked = b.locked + n } in
              let ch = opened id client provider n now in
              let after : record v {
                client_balances = insert v.client_balances client b';
                active_channels = insert v.active_channels id ch;
              }
                  ≡ v' =
                cc (mid, result_state h3) in
              let money = sum-insert-some funds v.client_balances client b b' at in
              subst (λ t. Balanced v t 0 0) after
                (record {
                  owed = omega (arith, money, enough);
                  backing = λ o.
                      let lock = locked_at-insert v.client_balances client o b b' at in
                      let split = share_add o client b.locked n in
                      let whole : channel_share o ch ≡ share o client n =
                        ap (share o client) {x = n + 0 + 0} (omega arith) in
                      let stands =
                        sum-insert-none (channel_share o) v.active_channels id ch fresh in
                      omega (arith, lock, split, whole, stands);
                })

  pub open_channel_with_id-AllSound :
      (now : ℤ) (id : ChannelId) (client : Pubkey) (provider : Bytes) (n : ℕ)
      → AllSound p c v
      → open_channel_with_id now id client provider n v ≡ (ok tt, v')
      → AllSound p c v'
  unfolding open_channel_with_id
  open_channel_with_id-AllSound now id client provider n sound h =
      on_some (get v.providers provider) _ _ h λ q e0 h0.
        on_some (get v.client_balances client) _ _ h0 λ a e1 h1.
          on_check (leb n a.free) _ _ h1 λ g2 h2.
            on_action (reserve_balance client n) _ h2 λ x u e3 h3.
              let (b, at, enough, mid) = reserve_balance-after v u client n e3 in
              let same : u.active_channels ≡ v.active_channels = cc (mid) in
              subst (AllSound p c) (result_state h3) (
                All-insert (IsSound p c) u.active_channels id (opened id client provider n now)
                  (subst (All (IsSound p c)) (sym same) sound) (idle refl refl refl))
