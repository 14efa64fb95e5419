-- ===== src/Enclave/Channels/Close.antt =====
-- enclave/src/asc_manager.rs: closing a channel, and taking that back.
use privacy_x.Base.{
  ℕ, ◌-◌, Option, none, some, [], ◌∷◌, ◌++◌, ltb, Bytes, bytes_instance, ℤ, if◌then◌else◌,
}
use privacy_x.Base.Table.{get}
use privacy_x.Vault.State.{Pubkey}
use privacy_x.Vault.AscClaim.{ascii}
use privacy_x.Enclave.State.{
  client_not_found, provider_not_found, internal, invalid_channel_status, debug_status, ChannelId,
  open_, eqb_status, ProviderCredit,
}
use privacy_x.Enclave.Action.{
  Action, ◌>>=◌, ◌>>◌, done, read, check, when, some_or, add, put_channel, remove_channel,
  put_client, put_credit, remove_credit,
}
use privacy_x.Enclave.Ledger.{unwrap_or, unlock_funds, credit_provider}
use privacy_x.Enclave.Channels.{CloseOutcome, find_channel}

-- The whole amount leaves the client's locked balance; what is free in the channel comes back.
unfoldable pub return_funds : Pubkey → (total returned : ℕ) → Action (Unit {0})
return_funds client total returned = do
  v ← read
  balance ← some_or (get v.client_balances client) client_not_found
  unlock_funds client balance total returned

-- `entry(provider_id).and_modify(...).or_insert_with(...)`.
unfoldable pub credit_entry :
    Option ProviderCredit
    → (new : ProviderCredit) (earned : ℕ) (settlement_id : Bytes) → Action (Unit {0})
credit_entry none new earned settlement_id = put_credit new.provider_id new
credit_entry (some credit) new earned settlement_id =
    credit_provider new.provider_id credit earned settlement_id

unfoldable pub credit_earnings :
    (now : ℤ) → (provider_id : Bytes) (earned : ℕ) → Option Bytes → Action (Unit {0})
credit_earnings now provider_id earned chosen = do
  v ← read
  provider ← some_or (get v.providers provider_id) provider_not_found
  settlement_id ← some_or chosen (internal (ascii "missing settlement id"))
  let new : ProviderCredit = record {
    provider_id = provider_id;
    settlement_token_account = provider.settlement_token_account;
    credited_amount = earned;
    oldest_credit_at = now;
    settlement_ids = settlement_id ∷ [];
  }
  credit_entry (get v.provider_credits provider_id) new earned settlement_id

-- `fresh` is the identifier that is made up when none is given.
unfoldable pub close_channel_with_settlement_id :
    (now : ℤ) (fresh : Bytes) → ChannelId → Option Bytes → Action CloseOutcome
close_channel_with_settlement_id now fresh channel_id settlement_id_override = do
  channel ← find_channel channel_id
  check (eqb_status channel.status open_) (
      invalid_channel_status (
        ascii "expected Open, got "
        ++ debug_status channel.status
        ++ ascii " (close only from Open)"))
  v ← read
  let remaining_free = channel.balance.client_free
  let provider_earned = channel.balance.provider_earned
  let earned = ltb 0 provider_earned
  let settlement_id : Option Bytes =
      if earned then some (unwrap_or settlement_id_override fresh) else none
  remove_channel channel_id
  total_channel_amount ← add remaining_free provider_earned
  when (ltb 0 total_channel_amount)
      (return_funds channel.client total_channel_amount remaining_free)
  when earned (credit_earnings now channel.provider_id provider_earned settlement_id)
  done (record {
    client = channel.client;
    provider_id = channel.provider_id;
    returned_to_client = remaining_free;
    provider_earned = provider_earned;
    settlement_id = settlement_id;
    closed_channel = channel;
    previous_provider_credit = if earned then get v.provider_credits channel.provider_id else none;
  })

-- The previous credit of the provider, or none, stands again.
unfoldable pub restore_credit : Bytes → Option ProviderCredit → Action (Unit {0})
restore_credit provider_id none = remove_credit provider_id
restore_credit provider_id (some credit) = put_credit provider_id credit

unfoldable pub relock_funds : Pubkey → (total returned : ℕ) → Action (Unit {0})
relock_funds client total returned = do
  v ← read
  balance ← some_or (get v.client_balances client) client_not_found
  locked ← add balance.locked total
  put_client client (record balance { locked = locked; free = balance.free - returned })

unfoldable pub rollback_close_channel : CloseOutcome → Action (Unit {0})
rollback_close_channel outcome = do
  total_channel_amount ← add outcome.returned_to_client outcome.provider_earned
  when (ltb 0 total_channel_amount)
      (relock_funds outcome.client total_channel_amount outcome.returned_to_client)
  when (ltb 0 outcome.provider_earned)
      (restore_credit outcome.provider_id outcome.previous_provider_credit)
  put_channel outcome.closed_channel.channel_id outcome.closed_channel
