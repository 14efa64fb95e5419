-- ===== src/Enclave/Books.antt =====
-- The enclave's books: what it owes, and what of a client's locked balance stands behind channels and
-- withdrawals.
pub mod Changes
use privacy_x.Base.{ℕ, ◌+◌, ◌≤◌, ◌≡◌, bytes_eq, bytes_instance, arith, if◌then◌else◌}
use privacy_x.Base.Table.{Table, get, sum, measure}
use privacy_x.Vault.State.{Pubkey}
use privacy_x.Enclave.State.{
  VaultState, ClientBalance, ProviderCredit, PendingWithdrawal, ChannelState,
}

-- What a channel holds, in all its three parts.
abbrev pub channel_total : ChannelState → ℕ
channel_total ch = ch.balance.client_free + ch.balance.client_locked + ch.balance.provider_earned

unfoldable pub share : Pubkey → Pubkey → ℕ → ℕ
share owner client n = if bytes_eq client owner then n else 0

abbrev pub channel_share : Pubkey → ChannelState → ℕ
channel_share owner ch = share owner ch.client (channel_total ch)

abbrev pub withdrawal_share : Pubkey → PendingWithdrawal → ℕ
withdrawal_share owner w = share owner w.client w.amount

-- What stands in a client's channels and pending withdrawals.
unfoldable pub held : VaultState → Pubkey → ℕ
held v owner =
    sum (channel_share owner) v.active_channels + sum (withdrawal_share owner) v.pending_withdrawals

abbrev pub locked_part : ClientBalance → ℕ
locked_part b = b.locked

abbrev pub funds : ClientBalance → ℕ
funds b = b.free + b.locked

abbrev pub credited : ProviderCredit → ℕ
credited c = c.credited_amount

unfoldable pub locked_at : Table Pubkey ClientBalance → Pubkey → ℕ
locked_at t owner = measure locked_part (get t owner)

abbrev pub locked_of : VaultState → Pubkey → ℕ
locked_of v owner = locked_at v.client_balances owner

-- What the enclave owes: the clients' balances and the providers' credits.
unfoldable pub liabilities : VaultState → ℕ
liabilities v = sum funds v.client_balances + sum credited v.provider_credits

-- All that is in a client's channels and withdrawals is in its locked balance.
unfoldable pub IsBacked : VaultState → Type 0
IsBacked v = (owner : Pubkey) → held v owner ≤ locked_of v owner

-- A change of the state in which `paid_in` comes from outside, `paid_out` goes there, and what is
-- locked without standing behind a channel or a withdrawal stays the same.
pub record Balanced (v v' : VaultState) (paid_in paid_out : ℕ) : Type 0 where
  pub owed : liabilities v' + paid_out ≡ liabilities v + paid_in
  pub backing :
      (owner : Pubkey) → locked_of v' owner + held v owner ≡ locked_of v owner + held v' owner

-- The same, with the channels as they were.
abbrev pub Settles : (v v' : VaultState) (paid_in paid_out : ℕ) → Type 0
Settles v v' paid_in paid_out =
    Balanced v v' paid_in paid_out × (v'.active_channels ≡ v.active_channels)

pub Balanced-IsBacked :
    (v v' : VaultState) (paid_in paid_out : ℕ)
    → Balanced v v' paid_in paid_out
    → IsBacked v
    → IsBacked v'
unfolding IsBacked
Balanced-IsBacked v v' paid_in paid_out m b owner = omega (arith, m.backing owner, b owner)
