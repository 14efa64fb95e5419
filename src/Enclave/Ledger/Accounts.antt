-- ===== src/Enclave/Ledger/Accounts.antt =====
-- The books through the operations on balances and withdrawals.
use privacy_x.Base.{
  ℕ, ◌+◌, ◌-◌, ◌≤◌, ◌≡◌, refl, ap, subst, Option, none, some, ok, leb, leb→le, checked_add,
  checked_add-eq-some, bytes_instance, nat_eq, arith, Option-cases, inl, inr,
}
use privacy_x.Base.Table.{
  Table, sum-insert, get, insert, sum, measure, sum-insert-some, sum-insert-none, sum-remove-some,
  insert_twice, remove,
}
use privacy_x.Vault.State.{Pubkey}
use privacy_x.Enclave.State.{VaultState, ClientBalance, PendingWithdrawal, default_balance}
use privacy_x.Enclave.Action.{on_some, on_check, on_action, result_state}
use privacy_x.Enclave.Ledger.{
  unwrap_or, apply_deposit, lock_funds, unlock_funds, authorize_withdrawal,
  expire_pending_withdrawal, apply_withdrawal,
}
use privacy_x.Enclave.Books.{
  Balanced, Settles, IsBacked, held, liabilities, locked_at, locked_part, funds, share,
  withdrawal_share,
}
use privacy_x.Enclave.Books.Changes.{
  lock_funds-after, unlock_funds-after, locked_at-insert, locked_at-insert_new, share_zero,
  share_add, withdrawal_backed,
}

or_default :
    (o : Option ClientBalance)
    → (measure funds o ≡ funds (unwrap_or o default_balance))
      × (measure locked_part o ≡ (unwrap_or o default_balance).locked)
unfolding measure
or_default none = (refl, refl)
or_default (some b) = (refl, refl)

locked_at-insert_any :
    (t : Table Pubkey ClientBalance) (client owner : Pubkey) (b' : ClientBalance)
    → locked_at (insert t client b') owner + share owner client (measure locked_part (get t client))
      ≡ locked_at t owner + share owner client b'.locked
unfolding measure
locked_at-insert_any t client owner b' = elim (Option-cases (get t client)) [
  | inl new ↦
      rw new (omega (arith, locked_at-insert_new t client owner b' new, share_zero owner client))
  | inr (b, at) ↦ rw at (locked_at-insert t client owner b b' at)
]

module _ (v v' : VaultState) where
  -- Locking for a withdrawal: what is locked stands behind the withdrawal.
  pub authorize_withdrawal-Settles :
      (w : PendingWithdrawal)
      → get v.pending_withdrawals w.withdraw_nonce ≡ none
      → authorize_withdrawal w v ≡ (ok tt, v')
      → Settles v v' 0 0
  unfolding authorize_withdrawal liabilities held
  authorize_withdrawal-Settles w fresh h = on_some (get v.client_balances w.client) _ _ h λ b e0 h0.
      on_check (leb w.amount b.free) _ _ h0 λ g1 h1.
        on_action (lock_funds w.client b w.amount) _ h1 λ x u e2 h2.
          let b' : ClientBalance = record b {
            free = b.free - w.amount;
            locked = b.locked + w.amount;
          } in
          let mid = lock_funds-after w.client b v u w.amount e2 in
          let after : record v {
            client_balances = insert v.client_balances w.client b';
            pending_withdrawals = insert v.pending_withdrawals w.withdraw_nonce w;
          }
              ≡ v' =
            cc (mid, result_state h2) in
          let enough = leb→le w.amount b.free g1 in
          let money = sum-insert-some funds v.client_balances w.client b b' e0 in
          subst (λ t. Settles v t 0 0) after
            (
              record {
                owed = omega (arith, money, enough);
                backing = λ o.
                    let lock = locked_at-insert v.client_balances w.client o b b' e0 in
                    let split = share_add o w.client b.locked w.amount in
                    let stands =
                      sum-insert-none (withdrawal_share o) v.pending_withdrawals w.withdraw_nonce w
                        fresh in
                    omega (arith, lock, split, stands);
              },
              refl,
            )

  -- What is locked when a withdrawal and its locked amount go.
  withdrawal_leaves :
      (nonce : ℕ) (w : PendingWithdrawal) (b b' : ClientBalance)
      → get v.pending_withdrawals nonce ≡ some w
      → get v.client_balances w.client ≡ some b
      → w.amount ≤ b.locked
      → b'.locked ≡ b.locked - w.amount
      → (o : Pubkey)
      → locked_at (insert v.client_balances w.client b') o
          + sum (withdrawal_share o) v.pending_withdrawals
        ≡ locked_at v.client_balances o
          + sum (withdrawal_share o) (remove v.pending_withdrawals nonce)
  withdrawal_leaves nonce w b b' at has enough less o =
      let lock = locked_at-insert v.client_balances w.client o b b' has in
      let split = share_add o w.client b'.locked w.amount in
      let whole =
        ap (share o w.client) {x = b'.locked + w.amount} {y = b.locked}
          (omega (arith, enough, less)) in
      let stands = sum-remove-some (withdrawal_share o) v.pending_withdrawals nonce w at in
      omega (arith, lock, split, whole, stands)

  -- Giving a withdrawal up: the money is free again.
  pub expire_pending_withdrawal-Settles :
      (nonce : ℕ) (w : PendingWithdrawal)
      → IsBacked v
      → expire_pending_withdrawal nonce v ≡ (ok w, v')
      → Settles v v' 0 0
  unfolding expire_pending_withdrawal liabilities held
  expire_pending_withdrawal-Settles nonce w backed h =
      on_some (get v.pending_withdrawals nonce) _ _ h λ x e0 h0.
        on_some (get v.client_balances x.client) _ _ h0 λ b e1 h1.
          on_action (unlock_funds x.client b x.amount x.amount) _ h1 λ y u e2 h2.
            let b' : ClientBalance = record b {
              free = b.free + x.amount;
              locked = b.locked - x.amount;
            } in
            let mid = unlock_funds-after x.client b _ u x.amount x.amount e2 in
            let after : record v {
              client_balances = insert v.client_balances x.client b';
              pending_withdrawals = remove v.pending_withdrawals nonce;
            }
                ≡ v' =
              cc (mid, result_state h2) in
            let enough = withdrawal_backed v nonce x b backed e0 e1 in
            let money = sum-insert-some funds v.client_balances x.client b b' e1 in
            subst (λ t. Settles v t 0 0) after
              (
                record {
                  owed = omega (arith, money, enough);
                  backing = λ o. omega (arith, withdrawal_leaves nonce x b b' e0 e1 enough refl o);
                },
                refl,
              )

  -- A withdrawal that has been paid on chain: its amount is owed no more.
  pub apply_withdrawal-Settles :
      (nonce : ℕ) (w : PendingWithdrawal)
      → IsBacked v
      → apply_withdrawal nonce v ≡ (ok w, v')
      → (get v.pending_withdrawals nonce ≡ some w) × Settles v v' 0 w.amount
  unfolding apply_withdrawal liabilities held
  apply_withdrawal-Settles nonce w backed h =
      on_some (get v.pending_withdrawals nonce) _ _ h λ x e0 h0.
        on_some (get v.client_balances x.client) _ _ h0 λ b e1 h1.
          on_some (checked_add b.total_withdrawn x.amount) _ _ h1 λ n e2 h2.
            let b1 : ClientBalance = record b { locked = b.locked - x.amount } in
            let b' : ClientBalance = record b {
              locked = b.locked - x.amount;
              total_withdrawn = n;
            } in
            let twice = insert_twice v.client_balances x.client b1 b' in
            let paid : VaultState = record v {
              client_balances = insert v.client_balances x.client b';
              pending_withdrawals = remove v.pending_withdrawals nonce;
            } in
            let after : paid ≡ v' = cc (twice, result_state h2) in
            let same : x ≡ w = cc (h2) in
            let enough = withdrawal_backed v nonce x b backed e0 e1 in
            let money = sum-insert-some funds v.client_balances x.client b b' e1 in
            let balanced : Balanced v paid 0 x.amount = record {
              owed = omega (arith, money, enough);
              backing = λ o. omega (arith, withdrawal_leaves nonce x b b' e0 e1 enough refl o);
            } in
            subst
              (λ (y : PendingWithdrawal).
                (get v.pending_withdrawals nonce ≡ some y) × Settles v v' 0 y.amount)
              same (e0, subst (λ t. Settles v t 0 x.amount) after (balanced, refl))

  -- A deposit is owed to the client.
  pub apply_deposit-Settles :
      (client : Pubkey) (amount : ℕ)
      → apply_deposit client amount v ≡ (ok tt, v')
      → Settles v v' amount 0
  unfolding apply_deposit liabilities held
  apply_deposit-Settles client amount h =
      let t = v.client_balances in
      let b = unwrap_or (get t client) default_balance in
      on_some (checked_add b.free amount) _ _ h λ f e0 h0.
        on_some (checked_add b.total_deposited amount) _ _ h0 λ d e1 h1.
          let b1 : ClientBalance = record b { free = f } in
          let b' : ClientBalance = record b { free = f; total_deposited = d } in
          let first = insert_twice t client b b1 in
          let second = insert_twice t client b1 b' in
          let after : record v { client_balances = insert t client b' } ≡ v' =
            cc (first, second, result_state h1) in
          let f_is = (checked_add-eq-some b.free amount e0).0 in
          let (old_funds, old_locked) = or_default (get t client) in
          let money = sum-insert funds t client b' in
          subst (λ u. Settles v u amount 0) after
            (
              record {
                owed = omega (arith, money, old_funds, f_is);
                backing = λ o.
                    let lock = locked_at-insert_any t client o b' in
                    let same = ap (share o client) old_locked in omega (arith, lock, same);
              },
              refl,
            )
