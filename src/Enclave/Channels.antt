-- ===== src/Enclave/Channels.antt =====
-- enclave/src/asc_manager.rs: opening and closing a channel, submitting and expiring its requests,
-- and the rollbacks of these. `now` is `Utc::now().timestamp()`. The sums that may panic stand before
-- the update in whose middle the source makes them: what such an update leaves after a panic is not
-- modelled.
pub mod Close
pub mod Finalize
pub mod Machine
pub mod Calls
pub mod Invariant
pub mod Accounts
pub mod Closing
pub mod Payment
pub mod Cipher
pub mod Session
pub mod Rollbacks
pub mod Undo
pub mod TakenBack
use privacy_x.Base.{
  ℕ, ◌-◌, Bool, true, false, Option, none, some, List, [], ◌∷◌, ◌==◌, ◌&&◌, ◌||◌, not, ltb, leb,
  Bytes, bytes_eq, bytes_instance, ℤ, pos, ltb_ℤ, checked_add_i64, if◌then◌else◌,
}
use privacy_x.Base.Table.{get}
use privacy_x.Vault.State.{Pubkey}
use privacy_x.Vault.AscClaim.{ascii}
use privacy_x.Enclave.State.{
  panic, insufficient_balance, provider_not_found, channel_not_found, channel_request_id_reused,
  internal, EnclaveError, expected, ChannelId, ChannelStatus, open_, locked, pending, closed,
  eqb_status, ChannelBalance, ChannelState, ChannelRequest, ProviderCredit,
}
use privacy_x.Enclave.Action.{
  Action, ◌>>=◌, ◌>>◌, done, read, check, when, some_or, add, put_channel, remove_channel,
}
use privacy_x.Enclave.Ledger.{without, reserve_balance, release_balance}

abbrev pub request_expiry_sec : ℕ
request_expiry_sec = 120

pub record CloseOutcome : Type 0 where
  pub client : Pubkey
  pub provider_id : Bytes
  pub returned_to_client : ℕ
  pub provider_earned : ℕ
  pub settlement_id : Option Bytes
  pub closed_channel : ChannelState
  pub previous_provider_credit : Option ProviderCredit

pub record ExpiredRequestOutcome : Type 0 where
  pub channel_id : ChannelId
  pub client : Pubkey
  pub previous_status : ChannelStatus
  pub request : ChannelRequest

-- `active_channels.get(channel_id).ok_or(ChannelNotFound)?`.
abbrev pub find_channel : ChannelId → Action ChannelState
find_channel channel_id v = (some_or (get v.active_channels channel_id) channel_not_found) v

-- `active_request.as_ref().ok_or(ChannelNotFound)?`.
abbrev pub active : ChannelState → Action ChannelRequest
active channel = some_or channel.active_request channel_not_found

-- `used_request_ids.contains(id)`.
unfoldable pub contains : Bytes → List Bytes → Bool
contains id [] = false
contains id (x ∷ xs) = bytes_eq x id || contains id xs

-- What a channel opens with, and what a request starts with.
abbrev pub opened : ChannelId → (client : Pubkey) (provider_id : Bytes) → ℕ → ℤ → ChannelState
opened channel_id client provider_id initial_deposit now = record {
  channel_id = channel_id;
  client = client;
  provider_id = provider_id;
  balance = record { client_free = initial_deposit; client_locked = 0; provider_earned = 0 };
  status = open_;
  nonce = 0;
  created_at = now;
  updated_at = now;
  used_request_ids = [];
  active_request = none;
}

abbrev pub submitted :
    (request_id : Bytes) (amount : ℕ) (request_hash : Bytes) (now expires_at : ℤ) → ChannelRequest
submitted request_id amount request_hash now expires_at = record {
  request_id = request_id;
  amount = amount;
  request_hash = request_hash;
  provider_pubkey = none;
  adaptor_point = none;
  provider_pre_sig = none;
  encrypted_result = none;
  result_hash = none;
  created_at = now;
  expires_at = expires_at;
}

unfoldable pub open_channel_with_id :
    (now : ℤ)
    → ChannelId
    → (client : Pubkey) (provider_id : Bytes) (initial_deposit : ℕ) → Action (Unit {0})
open_channel_with_id now channel_id client provider_id initial_deposit = do
  v ← read
  provider ← some_or (get v.providers provider_id) provider_not_found
  balance ← some_or (get v.client_balances client) insufficient_balance
  check (leb initial_deposit balance.free) insufficient_balance
  reserve_balance client initial_deposit
  put_channel channel_id (opened channel_id client provider_id initial_deposit now)

unfoldable pub rollback_open_channel : ChannelId → Action (Unit {0})
rollback_open_channel channel_id = do
  channel ← find_channel channel_id
  remove_channel channel_id
  client_side ← add channel.balance.client_free channel.balance.client_locked
  total_channel_amount ← add client_side channel.balance.provider_earned
  when (ltb 0 total_channel_amount) (release_balance channel.client total_channel_amount)

unfoldable pub submit_request :
    (now : ℤ)
    → ChannelId
    → (request_id : Bytes) (amount : ℕ) (request_hash : Bytes) → Action (Unit {0})
submit_request now channel_id request_id amount request_hash = do
  channel ← find_channel channel_id
  check (eqb_status channel.status open_) (expected (ascii "Open") channel.status)
  check (not (contains request_id channel.used_request_ids)) channel_request_id_reused
  check (leb amount channel.balance.client_free) insufficient_balance
  client_locked ← add channel.balance.client_locked amount
  nonce ← add channel.nonce 1
  expires_at ← some_or (checked_add_i64 now (pos request_expiry_sec)) panic
  let balance : ChannelBalance = record channel.balance {
    client_free = channel.balance.client_free - amount;
    client_locked = client_locked;
  }
  put_channel channel_id (record channel {
    balance = balance;
    status = locked;
    nonce = nonce;
    updated_at = now;
    used_request_ids = request_id ∷ channel.used_request_ids;
    active_request = some (submitted request_id amount request_hash now expires_at);
  })

-- `client_locked` goes down, stopping at 0, and `client_free` goes up.
abbrev pub unlocked : ChannelBalance → (amount client_free : ℕ) → ChannelBalance
unlocked b amount client_free = record b {
  client_free = client_free;
  client_locked = b.client_locked - amount;
}

unfoldable pub rollback_submit_request : (now : ℤ) → ChannelId → Bytes → Action (Unit {0})
rollback_submit_request now channel_id request_id = do
  channel ← find_channel channel_id
  request ← active channel
  check (bytes_eq request.request_id request_id) channel_not_found
  client_free ← add channel.balance.client_free request.amount
  put_channel channel_id (record channel {
    balance = unlocked channel.balance request.amount client_free;
    status = open_;
    nonce = channel.nonce - 1;
    updated_at = now;
    used_request_ids = without request_id channel.used_request_ids;
    active_request = none;
  })

-- `status == Locked || status == Pending`.
abbrev pub is_busy : ChannelStatus → Bool
is_busy status = eqb_status status locked || eqb_status status pending

-- The channel without its request, whose amount is free again.
abbrev pub released : ChannelState → (amount client_free nonce : ℕ) → ℤ → ChannelState
released channel amount client_free nonce now = record channel {
  balance = unlocked channel.balance amount client_free;
  status = open_;
  active_request = none;
  nonce = nonce;
  updated_at = now;
}

unfoldable pub release_request :
    ℤ → ChannelId → ChannelState → ChannelRequest → Action (Option ExpiredRequestOutcome)
release_request now channel_id channel request = do
  client_free ← add channel.balance.client_free request.amount
  nonce ← add channel.nonce 1
  put_channel channel_id (released channel request.amount client_free nonce now)
  done (
      some (record {
        channel_id = channel.channel_id;
        client = channel.client;
        previous_status = channel.status;
        request = request;
      }))

-- A request of a busy channel that has expired; `None` when there is none.
unfoldable pub expire_active :
    ℤ → ChannelId → ChannelState → Option ChannelRequest → Action (Option ExpiredRequestOutcome)
expire_active now channel_id channel none = done none
expire_active now channel_id channel (some request) =
    if is_busy channel.status && ltb_ℤ request.expires_at now
    then release_request now channel_id channel request
    else done none

unfoldable pub expire_request : (now : ℤ) → ChannelId → Action (Option ExpiredRequestOutcome)
expire_request now channel_id = do
  channel ← find_channel channel_id
  expire_active now channel_id channel channel.active_request

abbrev pub no_request : Option ChannelRequest → Bool
no_request none = true
no_request (some r) = false

-- `!(status != Open || active_request.is_some())`.
abbrev pub is_idle : ChannelState → Bool
is_idle channel = eqb_status channel.status open_ && no_request channel.active_request

-- The error of the rollbacks that need an idle channel.
abbrev pub not_idle : ChannelState → EnclaveError
not_idle channel = expected (ascii "Open without active request") channel.status

unfoldable pub rollback_expire_request : (now : ℤ) → ExpiredRequestOutcome → Action (Unit {0})
rollback_expire_request now outcome = do
  channel ← find_channel outcome.channel_id
  check (is_idle channel) (not_idle channel)
  client_locked ← add channel.balance.client_locked outcome.request.amount
  let balance : ChannelBalance = record channel.balance {
    client_free = channel.balance.client_free - outcome.request.amount;
    client_locked = client_locked;
  }
  put_channel outcome.channel_id (record channel {
    balance = balance;
    status = outcome.previous_status;
    active_request = some outcome.request;
    nonce = channel.nonce - 1;
    updated_at = now;
  })

-- The expiry that the log replays.
unfoldable pub expire_replayed_request : (now : ℤ) → ChannelId → Bytes → ℕ → Action (Unit {0})
expire_replayed_request now channel_id request_id amount = do
  channel ← find_channel channel_id
  check (is_busy channel.status) (expected (ascii "Locked or Pending") channel.status)
  request ← active channel
  check (bytes_eq request.request_id request_id) channel_not_found
  check (request.amount == amount)
      (internal (ascii "WAL replay amount mismatch for expired channel request"))
  client_free ← add channel.balance.client_free amount
  nonce ← add channel.nonce 1
  put_channel channel_id (released channel amount client_free nonce now)
