-- ===== src/Enclave/State.antt =====
-- enclave/src/state.rs and enclave/src/error.rs: what the enclave keeps. A string and a public key
-- are bytes; a `DashMap` is a table. Left out of the vault's state: the signing key, the auditor's
-- secret, the RPC settings and the on-chain view, which no operation of these modules reads.
use privacy_x.Base.{ℕ, Bool, true, false, ◌≡◌, ◌↔◌, arith, Option, List, ◌++◌, Bytes, ℤ, pos}
use privacy_x.Base.Table.{Table}
use privacy_x.Vault.State.{Pubkey}
use privacy_x.Vault.AscClaim.{ascii}

abbrev pub ChannelId : Type 0
ChannelId = Bytes

pub data ChannelStatus : Type 0 where
  open_ locked pending closed : ChannelStatus

abbrev pub eqb_status : ChannelStatus → ChannelStatus → Bool
eqb_status open_ open_ = true
eqb_status locked locked = true
eqb_status pending pending = true
eqb_status closed closed = true
eqb_status _ _ = false

pub eqb_status_iff : (a b : ChannelStatus) → (eqb_status a b ≡ true) ↔ (a ≡ b)
eqb_status_iff a b = ground arith

-- `{:?}` of a status.
abbrev pub debug_status : ChannelStatus → Bytes
debug_status open_ = ascii "Open"
debug_status locked = ascii "Locked"
debug_status pending = ascii "Pending"
debug_status closed = ascii "Closed"

pub record ChannelBalance : Type 0 where
  pub client_free : ℕ
  pub client_locked : ℕ
  pub provider_earned : ℕ

-- adaptor_sig.rs: an adaptor pre-signature and an adapted signature.
pub record AdaptorPreSignature : Type 0 where
  pub r_prime : Bytes
  pub s_prime : Bytes

pub record AdaptedSignature : Type 0 where
  pub r_bytes : Bytes
  pub s_bytes : Bytes

pub record ChannelRequest : Type 0 where
  pub request_id : Bytes
  pub amount : ℕ
  pub request_hash : Bytes
  pub provider_pubkey : Option Bytes
  pub adaptor_point : Option Bytes
  pub provider_pre_sig : Option AdaptorPreSignature
  pub encrypted_result : Option Bytes
  pub result_hash : Option Bytes
  pub created_at : ℤ
  pub expires_at : ℤ

pub record ChannelState : Type 0 where
  pub channel_id : ChannelId
  pub client : Pubkey
  pub provider_id : Bytes
  pub balance : ChannelBalance
  pub status : ChannelStatus
  pub nonce : ℕ
  pub created_at : ℤ
  pub updated_at : ℤ
  -- A `HashSet`: each identifier stands once, in any order.
  pub used_request_ids : List Bytes
  pub active_request : Option ChannelRequest

pub data ReservationStatus : Type 0 where
  reserved settled_offchain cancelled expired batched_onchain : ReservationStatus

abbrev pub is_reserved : ReservationStatus → Bool
is_reserved reserved = true
is_reserved _ = false

pub record ClientBalance : Type 0 where
  pub free : ℕ
  pub locked : ℕ
  pub max_lock_expires_at : ℤ
  pub total_deposited : ℕ
  pub total_withdrawn : ℕ

-- `ClientBalance::default`.
abbrev pub default_balance : ClientBalance
default_balance = record {
  free = 0;
  locked = 0;
  max_lock_expires_at = pos 0;
  total_deposited = 0;
  total_withdrawn = 0;
}

pub record ProviderRegistration : Type 0 where
  pub provider_id : Bytes
  pub display_name : Bytes
  pub participant_pubkey : Option Pubkey
  pub participant_attestation_policy_hash : Option Bytes
  pub participant_attestation_verified_at_ms : Option ℤ
  pub participant_attestation_mode : Option Bytes
  pub settlement_token_account : Pubkey
  pub network : Bytes
  pub asset_mint : Pubkey
  pub allowed_origins : List Bytes
  pub auth_mode : Bytes
  pub api_key_hash : Option Bytes
  pub mtls_cert_fingerprint : Option Bytes

pub record Reservation : Type 0 where
  pub verification_id : Bytes
  pub reservation_id : Bytes
  pub payment_id : Bytes
  pub client : Pubkey
  pub provider_id : Bytes
  pub amount : ℕ
  pub request_hash : Bytes
  pub payment_details_hash : Bytes
  pub status : ReservationStatus
  pub created_at : ℤ
  pub expires_at : ℤ
  pub settlement_id : Option Bytes
  pub settled_at : Option ℤ

pub record ProviderCredit : Type 0 where
  pub provider_id : Bytes
  pub settlement_token_account : Pubkey
  pub credited_amount : ℕ
  pub oldest_credit_at : ℤ
  pub settlement_ids : List Bytes

pub record PendingWithdrawal : Type 0 where
  pub client : Pubkey
  pub recipient_ata : Pubkey
  pub amount : ℕ
  pub withdraw_nonce : ℕ
  pub issued_at : ℤ
  pub expires_at : ℤ

pub record SettlementRecord : Type 0 where
  pub settlement_id : Bytes
  pub client : Pubkey
  pub provider : Pubkey
  pub amount : ℕ
  pub timestamp : ℤ

pub record SettlementBatchInfo : Type 0 where
  pub batch_id : ℕ
  pub tx_signature : Bytes

pub record VaultState : Type 0 where
  pub vault_config : Pubkey
  pub client_balances : Table Pubkey ClientBalance
  pub reservations : Table Bytes Reservation
  pub provider_credits : Table Bytes ProviderCredit
  pub providers : Table Bytes ProviderRegistration
  pub settlement_history : Table Bytes SettlementRecord
  pub settlement_batches : Table Bytes SettlementBatchInfo
  pub pending_withdrawals : Table ℕ PendingWithdrawal
  pub active_channels : Table ChannelId ChannelState
  pub receipt_nonce : ℕ
  pub withdraw_nonce : ℕ

-- `EnclaveError`, and `panic`: `overflow-checks` is on in every profile that Cargo.toml sets.
pub data EnclaveError : Type 0 where
  insufficient_balance client_not_found provider_not_found provider_auth_failed
        unsupported_provider_auth_mode invalid_provider_auth_config mtls_not_enabled invalid_scheme
        payment_details_required invalid_payment_details verify_window_sec_required
        invalid_verify_window_sec invalid_client_signature client_auth_expired
        invalid_client_auth_window payment_expired payment_id_reused reservation_not_found
        reservation_expired settlement_not_found vault_not_active vault_paused vault_migrating
        vault_retired vault_status_unavailable deposit_sync_in_progress request_hash_mismatch
        payment_details_hash_mismatch provider_id_mismatch provider_already_registered
        channel_not_found channel_request_expired channel_request_id_reused
        invalid_adaptor_signature receipt_watchtower_unavailable invalid_provider_participant
        provider_participant_required provider_participant_attestation_required
        provider_participant_mismatch pay_to_mismatch asset_mint_mismatch network_mismatch
        origin_not_allowed admin_privacy_bypass_disabled panic :
      EnclaveError
  invalid_reservation_status invalid_channel_status invalid_provider_participant_attestation
        internal :
      Bytes → EnclaveError

-- `"expected Open, got {:?}"`.
abbrev pub expected : Bytes → ChannelStatus → EnclaveError
expected what got =
    invalid_channel_status (ascii "expected " ++ what ++ ascii ", got " ++ debug_status got)
