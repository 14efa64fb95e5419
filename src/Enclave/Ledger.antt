-- ===== src/Enclave/Ledger.antt =====
-- enclave/src/state.rs, the operations on balances, withdrawals and provider credits. `-` on ℕ stops
-- at 0, as `saturating_sub` does; where the source subtracts without it, the check before it makes
-- the difference exact.
pub mod Accounts
use privacy_x.Base.{
  ℕ, ◌-◌, Bool, true, false, Option, none, some, List, [], ◌∷◌, ◌++◌, ◌&&◌, ◌||◌, ◌==◌, leb,
  checked_add, Bytes, bytes_eq, nat_eq, bytes_instance, ℤ, pos, max_ℤ, if◌then◌else◌,
}
use privacy_x.Base.Table.{Table, get}
use privacy_x.Vault.State.{Pubkey}
use privacy_x.Vault.AscClaim.{ascii}
use privacy_x.Enclave.State.{
  VaultState, insufficient_balance, client_not_found, provider_not_found, reservation_not_found,
  internal, ClientBalance, default_balance, ProviderCredit, PendingWithdrawal, Reservation,
  is_reserved, ChannelState, ChannelRequest,
}
use privacy_x.Enclave.Action.{
  Action, ◌>>=◌, ◌>>◌, done, read, check, some_or, add, put_client, put_credit, remove_credit,
  put_withdrawal, remove_withdrawal,
}

-- `value.unwrap_or(default)`.
abbrev pub unwrap_or {ℓ} : {A : Type ℓ} → Option A → A → A
unwrap_or none default = default
unwrap_or (some a) default = a

unfoldable pub apply_deposit : Pubkey → ℕ → Action (Unit {0})
apply_deposit client amount = do
  v ← read
  let balance = unwrap_or (get v.client_balances client) default_balance
  put_client client balance
  free ← add balance.free amount
  put_client client (record balance { free = free })
  total_deposited ← add balance.total_deposited amount
  put_client client (record balance { free = free; total_deposited = total_deposited })

unfoldable pub rollback_deposit : Pubkey → ℕ → Action (Unit {0})
rollback_deposit client amount = do
  v ← read
  balance ← some_or (get v.client_balances client) client_not_found
  put_client client (record balance {
    free = balance.free - amount;
    total_deposited = balance.total_deposited - amount;
  })

-- `balance.free -= amount; balance.locked += amount`, once the free part has been found to be enough.
unfoldable pub lock_funds : Pubkey → ClientBalance → ℕ → Action (Unit {0})
lock_funds client balance amount = do
  put_client client (record balance { free = balance.free - amount })
  locked ← add balance.locked amount
  put_client client (record balance { free = balance.free - amount; locked = locked })

-- `balance.locked = balance.locked.saturating_sub(lowered); balance.free += returned`.
unfoldable pub unlock_funds : Pubkey → ClientBalance → (lowered returned : ℕ) → Action (Unit {0})
unlock_funds client balance lowered returned = do
  put_client client (record balance { locked = balance.locked - lowered })
  free ← add balance.free returned
  put_client client (record balance { locked = balance.locked - lowered; free = free })

unfoldable pub reserve_balance : Pubkey → ℕ → Action (Unit {0})
reserve_balance client amount = do
  v ← read
  balance ← some_or (get v.client_balances client) insufficient_balance
  check (leb amount balance.free) insufficient_balance
  lock_funds client balance amount

unfoldable pub release_balance : Pubkey → ℕ → Action (Unit {0})
release_balance client amount = do
  v ← read
  balance ← some_or (get v.client_balances client) client_not_found
  unlock_funds client balance amount amount

-- `.max()` of an iterator of `i64`, and `.unwrap_or(0)`.
abbrev pub max_expiry : List ℤ → ℤ
max_expiry [] = pos 0
max_expiry (x ∷ []) = x
max_expiry (x ∷ (y ∷ ys)) = max_ℤ x (max_expiry (y ∷ ys))

-- `filter` and `map` of the entries' values at once.
unfoldable pub collect : {K V A : Type 0} → (V → Option A) → Table K V → List A
collect f [] = []
collect f ((k, v) ∷ t) = elim (f v) [ none ↦ collect f t | some a ↦ a ∷ collect f t ]

unfoldable pub reservation_expiry : Pubkey → Reservation → Option ℤ
reservation_expiry client r =
    if bytes_eq r.client client && is_reserved r.status then some r.expires_at else none

unfoldable pub withdrawal_expiry : Pubkey → PendingWithdrawal → Option ℤ
withdrawal_expiry client w = if bytes_eq w.client client then some w.expires_at else none

abbrev pub request_expiry : Option ChannelRequest → Option ℤ
request_expiry none = none
request_expiry (some request) = some request.expires_at

unfoldable pub channel_expiry : Pubkey → ChannelState → Option ℤ
channel_expiry client c = if bytes_eq c.client client then request_expiry c.active_request else none

unfoldable pub latest_lock : VaultState → Pubkey → ℤ
latest_lock v client =
    max_ℤ
      (max_ℤ (max_expiry (collect (reservation_expiry client) v.reservations))
        (max_expiry (collect (withdrawal_expiry client) v.pending_withdrawals)))
      (max_expiry (collect (channel_expiry client) v.active_channels))

unfoldable pub refresh_client_max_lock_expires_at : Pubkey → Action ℤ
refresh_client_max_lock_expires_at client = do
  v ← read
  balance ← some_or (get v.client_balances client) client_not_found
  put_client client (record balance { max_lock_expires_at = latest_lock v client })
  done (latest_lock v client)

unfoldable pub authorize_withdrawal : PendingWithdrawal → Action (Unit {0})
authorize_withdrawal withdrawal = do
  v ← read
  balance ← some_or (get v.client_balances withdrawal.client) client_not_found
  check (leb withdrawal.amount balance.free) insufficient_balance
  lock_funds withdrawal.client balance withdrawal.amount
  put_withdrawal withdrawal.withdraw_nonce withdrawal

unfoldable pub expire_pending_withdrawal : ℕ → Action PendingWithdrawal
expire_pending_withdrawal withdraw_nonce = do
  v ← read
  withdrawal ← some_or (get v.pending_withdrawals withdraw_nonce) reservation_not_found
  remove_withdrawal withdraw_nonce
  balance ← some_or (get v.client_balances withdrawal.client) client_not_found
  unlock_funds withdrawal.client balance withdrawal.amount withdrawal.amount
  done withdrawal

abbrev pub rollback_authorized_withdrawal : ℕ → Action PendingWithdrawal
rollback_authorized_withdrawal = expire_pending_withdrawal

unfoldable pub apply_withdrawal : ℕ → Action PendingWithdrawal
apply_withdrawal withdraw_nonce = do
  v ← read
  withdrawal ← some_or (get v.pending_withdrawals withdraw_nonce) reservation_not_found
  remove_withdrawal withdraw_nonce
  balance ← some_or (get v.client_balances withdrawal.client) client_not_found
  put_client withdrawal.client (record balance { locked = balance.locked - withdrawal.amount })
  total_withdrawn ←
      some_or (checked_add balance.total_withdrawn withdrawal.amount)
        (internal (ascii "Withdrawal total overflow"))
  put_client withdrawal.client (record balance {
    locked = balance.locked - withdrawal.amount;
    total_withdrawn = total_withdrawn;
  })
  done withdrawal

unfoldable pub rollback_applied_withdrawal : PendingWithdrawal → Action (Unit {0})
rollback_applied_withdrawal withdrawal = do
  v ← read
  balance ← some_or (get v.client_balances withdrawal.client) client_not_found
  locked ← add balance.locked withdrawal.amount
  put_client withdrawal.client (record balance {
    locked = locked;
    total_withdrawn = balance.total_withdrawn - withdrawal.amount;
  })
  put_withdrawal withdrawal.withdraw_nonce withdrawal

-- `credited_amount += amount; settlement_ids.push(settlement_id)`.
unfoldable pub credit_provider : Bytes → ProviderCredit → ℕ → Bytes → Action (Unit {0})
credit_provider provider_id credit amount settlement_id = do
  put_credit provider_id credit
  credited_amount ← add credit.credited_amount amount
  put_credit provider_id (record credit {
    credited_amount = credited_amount;
    settlement_ids = credit.settlement_ids ++ settlement_id ∷ [];
  })

unfoldable pub settle_payment :
    (client : Pubkey) (amount : ℕ) (provider_id settlement_id : Bytes) (now : ℤ) → Action (Unit {0})
settle_payment client amount provider_id settlement_id now = do
  v ← read
  balance ← some_or (get v.client_balances client) client_not_found
  put_client client (record balance { locked = balance.locked - amount })
  provider ← some_or (get v.providers provider_id) provider_not_found
  let opened : ProviderCredit = record {
    provider_id = provider_id;
    settlement_token_account = provider.settlement_token_account;
    credited_amount = 0;
    oldest_credit_at = now;
    settlement_ids = [];
  }
  credit_provider provider_id (unwrap_or (get v.provider_credits provider_id) opened) amount
      settlement_id

abbrev pub is_empty : List Bytes → Bool
is_empty [] = true
is_empty (x ∷ xs) = false

-- `retain(|value| value != id)`.
unfoldable pub without : Bytes → List Bytes → List Bytes
without id [] = []
without id (x ∷ xs) = let rest = without id xs in if bytes_eq x id then rest else x ∷ rest

-- A credit with nothing in it is dropped.
abbrev pub is_spent : ProviderCredit → Bool
is_spent credit = credit.credited_amount == 0 || is_empty credit.settlement_ids

unfoldable pub rollback_settle_payment :
    (client : Pubkey) (amount : ℕ) (provider_id settlement_id : Bytes) → Action (Unit {0})
rollback_settle_payment client amount provider_id settlement_id = do
  v ← read
  balance ← some_or (get v.client_balances client) client_not_found
  locked ← add balance.locked amount
  put_client client (record balance { locked = locked })
  credit ← some_or (get v.provider_credits provider_id) provider_not_found
  let left : ProviderCredit = record credit {
    credited_amount = credit.credited_amount - amount;
    settlement_ids = without settlement_id credit.settlement_ids;
  }
  put_credit provider_id left
  if is_spent left then remove_credit provider_id else done tt
