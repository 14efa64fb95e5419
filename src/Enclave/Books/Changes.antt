-- ===== src/Enclave/Books/Changes.antt =====
-- How single changes of the state show in the books.
use privacy_x.Base.{
  ℕ, Bytes, ◌+◌, ◌-◌, ◌≤◌, ◌≡◌, ◌≢◌, subst, refl, ok, some, none, Bool-cases, inl, inr, bytes_eq,
  eq_of_bytes_eq, bytes_eq_of_eq, bytes_instance, nat_eq, bytes_eq_refl, arith, checked_add,
  checked_add-eq-some,
}
use privacy_x.Base.Table.{
  Table, get, insert, measure, insert_twice, get-insert_self, get-insert_ne, measure_le_sum,
}
use privacy_x.Vault.State.{Pubkey}
use privacy_x.Enclave.State.{VaultState, ClientBalance, ChannelState, PendingWithdrawal}
use privacy_x.Enclave.Action.{on_some, result_state}
use privacy_x.Enclave.Ledger.{lock_funds, unlock_funds}
use privacy_x.Enclave.Books.{
  share, held, IsBacked, channel_total, channel_share, withdrawal_share, locked_at,
}

module _ (client : Pubkey) (b : ClientBalance) (v v' : VaultState) where
  pub lock_funds-after :
      (n : ℕ)
      → lock_funds client b n v ≡ (ok tt, v')
      → v' ≡ record v {
        client_balances =
            insert v.client_balances client (record b { free = b.free - n; locked = b.locked + n });
      }
  unfolding lock_funds
  lock_funds-after n h = on_some (checked_add b.locked n) _ _ h λ l e h1.
      let l_is = (checked_add-eq-some b.locked n e).0 in
      cc (
        result_state h1,
        l_is,
        insert_twice v.client_balances client (record b { free = b.free - n })
            (record b { free = b.free - n; locked = l }),
      )

  pub unlock_funds-after :
      (lowered returned : ℕ)
      → unlock_funds client b lowered returned v ≡ (ok tt, v')
      → v' ≡ record v {
        client_balances =
            insert v.client_balances client
              (record b { free = b.free + returned; locked = b.locked - lowered });
      }
  unfolding unlock_funds
  unlock_funds-after lowered returned h = on_some (checked_add b.free returned) _ _ h λ f e h1.
      let f_is = (checked_add-eq-some b.free returned e).0 in
      cc (
        result_state h1,
        f_is,
        insert_twice v.client_balances client (record b { locked = b.locked - lowered })
            (record b { locked = b.locked - lowered; free = f }),
      )

-- The locked balances after one client's balance has been replaced.
pub locked_at-insert :
    (t : Table Pubkey ClientBalance) (client owner : Pubkey) (b b' : ClientBalance)
    → get t client ≡ some b
    → locked_at (insert t client b') owner + share owner client b.locked
      ≡ locked_at t owner + share owner client b'.locked
unfolding locked_at measure share
locked_at-insert t client owner b b' at = elim (Bool-cases (bytes_eq client owner)) [
  | inl same ↦
      let c_o = eq_of_bytes_eq client owner same in
      let new : get (insert t client b') owner ≡ some b' =
        subst (λ o. get (insert t client b') o ≡ some b') c_o (get-insert_self t client b') in
      let old : get t owner ≡ some b = subst (λ o. get t o ≡ some b) c_o at in
      rw same (rw new (rw old (omega arith)))
  | inr differs ↦
      let apart : client ≢ owner = λ e. cc (bytes_eq_of_eq client owner e) in
      rw differs (rw (get-insert_ne t client owner b' apart) (omega arith))
]

-- The same for a client without a balance.
pub locked_at-insert_new :
    (t : Table Pubkey ClientBalance) (client owner : Pubkey) (b' : ClientBalance)
    → get t client ≡ none
    → locked_at (insert t client b') owner ≡ locked_at t owner + share owner client b'.locked
unfolding locked_at measure share
locked_at-insert_new t client owner b' at = elim (Bool-cases (bytes_eq client owner)) [
  | inl same ↦
      let c_o = eq_of_bytes_eq client owner same in
      let new : get (insert t client b') owner ≡ some b' =
        subst (λ o. get (insert t client b') o ≡ some b') c_o (get-insert_self t client b') in
      let old : get t owner ≡ none = subst (λ o. get t o ≡ none) c_o at in
      rw same (rw new (rw old (omega arith)))
  | inr differs ↦
      let apart : client ≢ owner = λ e. cc (bytes_eq_of_eq client owner e) in
      rw differs (rw (get-insert_ne t client owner b' apart) (omega arith))
]

pub share_zero : (owner client : Pubkey) → share owner client 0 ≡ 0
unfolding share
share_zero owner client = ground arith

pub share_add :
    (owner client : Pubkey) (n m : ℕ)
    → share owner client (n + m) ≡ share owner client n + share owner client m
unfolding share
share_add owner client n m = ground arith

pub share_self : (owner : Pubkey) (n : ℕ) → share owner owner n ≡ n
unfolding share
share_self owner n = rw (bytes_eq_refl owner) refl

-- What a client has in one channel is locked in its balance.
pub channel_backed :
    (v : VaultState) (id : Bytes) (ch : ChannelState) (b : ClientBalance)
    → IsBacked v
    → get v.active_channels id ≡ some ch
    → get v.client_balances ch.client ≡ some b
    → channel_total ch ≤ b.locked
unfolding IsBacked held locked_at measure
channel_backed v id ch b backed at has =
    let part : measure (channel_share ch.client) (get v.active_channels id) ≡ channel_total ch =
      rw at (share_self ch.client (channel_total ch)) in
    let whole : locked_at v.client_balances ch.client ≡ b.locked = rw has refl in
    let bound = measure_le_sum (channel_share ch.client) v.active_channels id in
    omega (arith, backed ch.client, part, whole, bound)

pub withdrawal_backed :
    (v : VaultState) (nonce : ℕ) (w : PendingWithdrawal) (b : ClientBalance)
    → IsBacked v
    → get v.pending_withdrawals nonce ≡ some w
    → get v.client_balances w.client ≡ some b
    → w.amount ≤ b.locked
unfolding IsBacked held locked_at measure
withdrawal_backed v nonce w b backed at has =
    let part : measure (withdrawal_share w.client) (get v.pending_withdrawals nonce) ≡ w.amount =
      rw at (share_self w.client w.amount) in
    let whole : locked_at v.client_balances w.client ≡ b.locked = rw has refl in
    let bound = measure_le_sum (withdrawal_share w.client) v.pending_withdrawals nonce in
    omega (arith, backed w.client, part, whole, bound)
