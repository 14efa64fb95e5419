-- ===== src/Vault/Receipt.antt =====
-- programs/subly402_vault/src/ed25519_utils.rs, `decode_participant_receipt_message`.
use privacy_x.Base.{
  ℕ, Bytes, Result, ok, ok_or, require, ◌>>=◌, ◌>>◌, ◌==◌, length, get_elem?, slice, ℤ,
  u64_of_bytes, i64_of_bytes,
}
use privacy_x.Vault.Error.{ProgramError, custom, panic, invalid_receipt_message}
use privacy_x.Vault.State.{Pubkey}

abbrev pub participant_receipt_message_len : ℕ
participant_receipt_message_len = 145

pub record ParticipantReceiptMessage : Type 0 where
  pub participant : Pubkey
  pub participant_kind : ℕ
  pub recipient_ata : Pubkey
  pub free_balance : ℕ
  pub locked_balance : ℕ
  pub max_lock_expires_at : ℤ
  pub nonce : ℕ
  pub timestamp : ℤ
  pub snapshot_seqno : ℕ
  pub vault_config : Pubkey

-- `message[lo..hi]`; `message[at]`.
part : Bytes → ℕ → ℕ → Result ProgramError Bytes
part message lo hi = ok_or (slice message lo hi) panic

byte : Bytes → ℕ → Result ProgramError ℕ
byte message at = ok_or (get_elem? message at) panic

unfoldable pub decode_participant_receipt_message :
    Bytes → Result ProgramError ParticipantReceiptMessage
unfolding part byte
decode_participant_receipt_message message = do
  require (length message == participant_receipt_message_len) (custom invalid_receipt_message)
  participant ← part message 0 32
  participant_kind ← byte message 32
  recipient_ata ← part message 33 65
  free_balance ← part message 65 73
  locked_balance ← part message 73 81
  max_lock_expires_at ← part message 81 89
  nonce ← part message 89 97
  timestamp ← part message 97 105
  snapshot_seqno ← part message 105 113
  vault_config ← part message 113 145
  ok (record {
    participant = participant;
    participant_kind = participant_kind;
    recipient_ata = recipient_ata;
    free_balance = u64_of_bytes free_balance;
    locked_balance = u64_of_bytes locked_balance;
    max_lock_expires_at = i64_of_bytes max_lock_expires_at;
    nonce = u64_of_bytes nonce;
    timestamp = i64_of_bytes timestamp;
    snapshot_seqno = u64_of_bytes snapshot_seqno;
    vault_config = vault_config;
  })
