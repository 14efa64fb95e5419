-- ===== src/Enclave/Channels/Closing.antt =====
-- The books through the closing of a channel.
use privacy_x.Base.{
  ℕ, ◌+◌, ◌-◌, ◌≤◌, ◌≡◌, inl, inr, refl, sym, ap, subst, false, Option, none, some, [], ◌∷◌, ◌++◌,
  ok, Bytes, ℤ, ltb, checked_add, checked_add-eq-some, bytes_instance, arith,
}
use privacy_x.Base.Table.{
  Table, get, insert, remove, sum, insert_twice, sum-insert-some, sum-insert-none, sum-remove-some,
  All, All-get, All-remove,
}
use privacy_x.Vault.State.{Pubkey}
use privacy_x.Vault.Platform.{Platform}
use privacy_x.Enclave.State.{
  VaultState, ClientBalance, ChannelId, ChannelState, ProviderCredit, open_, eqb_status,
  eqb_status_iff,
}
use privacy_x.Enclave.Action.{on_some, on_check, on_when, result_state}
use privacy_x.Enclave.Adaptor.{Curve}
use privacy_x.Enclave.Ledger.{credit_provider}
use privacy_x.Enclave.Books.{
  Balanced, IsBacked, held, liabilities, locked_at, funds, credited, share, channel_total,
  channel_share,
}
use privacy_x.Enclave.Books.Changes.{
  unlock_funds-after, locked_at-insert, share_add, share_zero, channel_backed,
}
use privacy_x.Enclave.Channels.{CloseOutcome}
use privacy_x.Enclave.Channels.Close.{
  return_funds, credit_entry, credit_earnings, close_channel_with_settlement_id,
}
use privacy_x.Enclave.Channels.Invariant.{IsSound, nothing_locked}
use privacy_x.Enclave.Channels.Accounts.{AllSound}

-- What the client's side of a closing does to the clients' balances.
record Refunded (client : Pubkey) (total earned : ℕ) (v u : VaultState) : Type 0 where
  balances : Table Pubkey ClientBalance
  rest : u ≡ record v { client_balances = balances }
  money : sum funds balances + earned ≡ sum funds v.client_balances
  unlocked :
      (o : Pubkey) → locked_at balances o + share o client total ≡ locked_at v.client_balances o

return_funds-Refunded :
    (client : Pubkey) (total left earned : ℕ) (v u : VaultState)
    → left + earned ≡ total
    → ((b : ClientBalance) → get v.client_balances client ≡ some b → total ≤ b.locked)
    → return_funds client total left v ≡ (ok tt, u)
    → Refunded client total earned v u
unfolding return_funds
return_funds-Refunded client total left earned v u parts backed h =
    on_some (get v.client_balances client) _ _ h λ b e0 h0.
      let b' : ClientBalance = record b { free = b.free + left; locked = b.locked - total } in
      let enough = backed b e0 in
      let gain = sum-insert-some funds v.client_balances client b b' e0 in
      record {
        balances = insert v.client_balances client b';
        rest = unlock_funds-after client b v u total left h0;
        money = omega (arith, gain, enough, parts);
        unlocked = λ o.
            let lock = locked_at-insert v.client_balances client o b b' e0 in
            let split = share_add o client b'.locked total in
            let whole =
              ap (share o client) {x = b'.locked + total} {y = b.locked} (omega (arith, enough)) in
            omega (arith, lock, split, whole);
      }

nothing-Refunded :
    (client : Pubkey) (total left earned : ℕ) (v : VaultState)
    → left + earned ≡ total
    → ltb 0 total ≡ false
    → Refunded client total earned v v
nothing-Refunded client total left earned v parts empty =
    let zero : total ≡ 0 = ground (arith, empty) in
    record {
      balances = v.client_balances;
      rest = refl;
      money = omega (arith, zero, parts);
      unlocked = λ o.
          let none_shared = ap (share o client) zero in
          omega (arith, none_shared, share_zero o client);
    }

-- What the provider's side of a closing does to the credits.
record Credited (earned : ℕ) (v u : VaultState) : Type 0 where
  credits : Table Bytes ProviderCredit
  rest : u ≡ record v { provider_credits = credits }
  money : sum credited credits ≡ sum credited v.provider_credits + earned

credit_entry-Credited :
    (o : Option ProviderCredit) (new : ProviderCredit) (earned : ℕ) (sid : Bytes) (v u : VaultState)
    → get v.provider_credits new.provider_id ≡ o
    → new.credited_amount ≡ earned
    → credit_entry o new earned sid v ≡ (ok tt, u)
    → Credited earned v u
unfolding credit_entry credit_provider
credit_entry-Credited none new earned sid v u at amount h = record {
  credits = insert v.provider_credits new.provider_id new;
  rest = sym (result_state h);
  money =
      let gain = sum-insert-none credited v.provider_credits new.provider_id new at in
      omega (arith, gain, amount);
}
credit_entry-Credited (some old) new earned sid v u at amount h =
    on_some (checked_add old.credited_amount earned) _ _ h λ n e h1.
      let raised : ProviderCredit = record old {
        credited_amount = n;
        settlement_ids = old.settlement_ids ++ sid ∷ [];
      } in
      let n_is = (checked_add-eq-some old.credited_amount earned e).0 in
      let gain = sum-insert-some credited v.provider_credits new.provider_id old raised at in
      let twice = insert_twice v.provider_credits new.provider_id old raised in
      record {
        credits = insert v.provider_credits new.provider_id raised;
        rest = cc (twice, result_state h1);
        money = omega (arith, gain, n_is);
      }

credit_earnings-Credited :
    (now : ℤ) (provider : Bytes) (earned : ℕ) (chosen : Option Bytes) (v u : VaultState)
    → credit_earnings now provider earned chosen v ≡ (ok tt, u)
    → Credited earned v u
unfolding credit_earnings
credit_earnings-Credited now provider earned chosen v u h =
    on_some (get v.providers provider) _ _ h λ q e0 h0. on_some chosen _ _ h0 λ sid e1 h1.
      credit_entry-Credited (get v.provider_credits provider) _ earned sid v u refl refl h1

nothing-Credited : (earned : ℕ) (v : VaultState) → ltb 0 earned ≡ false → Credited earned v v
nothing-Credited earned v empty =
    let zero : earned ≡ 0 = ground (arith, empty) in
    record { credits = v.provider_credits; rest = refl; money = omega (arith, zero) }

module _ {Scalar Point : Type 0} (p : Platform) (c : Curve Scalar Point) (v v' : VaultState) where
  -- Once the channel is gone, the two sides make up the books again.
  sides_balance :
      (id : ChannelId) (ch : ChannelState) (u : VaultState)
      → get v.active_channels id ≡ some ch
      → ch.balance.client_locked ≡ 0
      → Refunded ch.client
          (ch.balance.client_free + ch.balance.provider_earned)
          ch.balance.provider_earned
          (record v { active_channels = remove v.active_channels id })
          u
      → Credited ch.balance.provider_earned u v'
      → Balanced v v' 0 0 × (v'.active_channels ≡ remove v.active_channels id)
  unfolding liabilities held
  sides_balance id ch u at idle refunded credit =
      let after : record v {
        active_channels = remove v.active_channels id;
        client_balances = refunded.balances;
        provider_credits = credit.credits;
      }
          ≡ v' =
        cc (refunded.rest, credit.rest) in
      let same_credits : u.provider_credits ≡ v.provider_credits = cc (refunded.rest) in
      let earned = ap (sum credited) same_credits in
      subst (λ t. Balanced v t 0 0 × (t.active_channels ≡ remove v.active_channels id)) after
        (
          record {
            owed = omega (arith, refunded.money, credit.money, earned);
            backing = λ o.
                let gone = sum-remove-some (channel_share o) v.active_channels id ch at in
                let whole : channel_share o ch
                    ≡ share o ch.client (ch.balance.client_free + ch.balance.provider_earned) =
                  ap (share o ch.client) {x = channel_total ch} (omega (arith, idle)) in
                omega (arith, refunded.unlocked o, gone, whole);
          },
          refl,
        )

  -- Closing a sound, backed channel returns what is free in it to the client and credits the provider
  -- with what it has earned: the books stay balanced, and the channels sound.
  pub close_channel-Balanced-AllSound :
      (now : ℤ) (fresh : Bytes) (id : ChannelId) (chosen : Option Bytes) (o : CloseOutcome)
      → AllSound p c v
      → IsBacked v
      → close_channel_with_settlement_id now fresh id chosen v ≡ (ok o, v')
      → Balanced v v' 0 0 × AllSound p c v'
  unfolding close_channel_with_settlement_id
  close_channel-Balanced-AllSound now fresh id chosen o sound backed h =
      on_some (get v.active_channels id) _ _ h λ ch e0 h0.
        on_check (eqb_status ch.status open_) _ _ h0 λ g1 h1.
          on_some (checked_add ch.balance.client_free ch.balance.provider_earned) _ _ h1 λ n e2 h2.
            on_when (ltb 0 n) _ _ h2 λ u side h3.
              on_when (ltb 0 ch.balance.provider_earned) _ _ h3 λ w side' h4.
                let idle =
                  nothing_locked p c ch (All-get (IsSound p c) v.active_channels id ch sound e0)
                    ((eqb_status_iff ch.status open_).0 g1) in
                let n_is =
                  (checked_add-eq-some ch.balance.client_free ch.balance.provider_earned e2).0 in
                let refunded : Refunded ch.client n ch.balance.provider_earned
                    (record v { active_channels = remove v.active_channels id }) u =
                  elim side [
                    | inl (positive, ran) ↦
                        return_funds-Refunded ch.client n ch.balance.client_free
                          ch.balance.provider_earned _ u (sym n_is)
                          (λ b at.
                            let bound = channel_backed v id ch b backed e0 at in
                            omega (arith, bound, n_is))
                          ran
                    | inr (empty, kept) ↦
                        subst (Refunded ch.client n ch.balance.provider_earned _) (sym kept) (
                          nothing-Refunded ch.client n ch.balance.client_free
                            ch.balance.provider_earned _ (sym n_is) empty)
                  ] in
                let credit : Credited ch.balance.provider_earned u w = elim side' [
                  | inl (positive, ran) ↦
                      credit_earnings-Credited now ch.provider_id ch.balance.provider_earned _ u w
                        ran
                  | inr (empty, kept) ↦
                      subst (Credited ch.balance.provider_earned u) (sym kept)
                        (nothing-Credited ch.balance.provider_earned u empty)
                ] in
                let (balanced, channels) =
                  sides_balance id ch u e0 idle
                    (subst
                      (λ m.
                        Refunded ch.client m ch.balance.provider_earned
                          (record v { active_channels = remove v.active_channels id }) u)
                      n_is refunded)
                    (subst (Credited ch.balance.provider_earned u) (result_state h4) credit) in
                (
                  balanced,
                  subst (All (IsSound p c)) (sym channels)
                      (All-remove (IsSound p c) v.active_channels id sound),
                )
