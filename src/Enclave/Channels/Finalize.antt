-- ===== src/Enclave/Channels/Finalize.antt =====
-- enclave/src/asc_manager.rs: the delivery of a request's adaptor pre-signature, its finalization off
-- chain and from a claim on chain, and their rollbacks. `sha256` is a parameter beside the curve.
use privacy_x.Base.{
  ℕ, zero, suc, ◌+◌, ◌-◌, ◌*◌, ◌/◌, ◌%◌, Bool, true, Option, none, some, [], ◌∷◌, ◌++◌, ◌==◌,
  length, take, drop, concat, u64_bytes, Bytes, bytes_eq, bytes_instance, ℤ, leb_ℤ,
}
use privacy_x.Vault.AscClaim.{ascii, build_asc_payment_message}
use privacy_x.Vault.Platform.{Platform}
use privacy_x.Enclave.State.{
  channel_not_found, channel_request_expired, invalid_adaptor_signature, internal, expected,
  ChannelId, open_, locked, pending, eqb_status, ChannelBalance, ChannelState, ChannelRequest,
  AdaptorPreSignature, AdaptedSignature,
}
use privacy_x.Enclave.Action.{Action, ◌>>=◌, ◌>>◌, done, check, some_or, add, sub, put_channel}
use privacy_x.Enclave.Adaptor.{Curve, pre_verify, adapt, extract, verify_adapted}
use privacy_x.Enclave.Ledger.{unwrap_or}
use privacy_x.Enclave.Channels.{find_channel, active, is_idle, not_idle}

pub record FinalizeOutcome : Type 0 where
  pub request_id : Bytes
  pub result_bytes : Bytes
  pub amount : ℕ
  pub request : ChannelRequest

-- `^` on numbers of `width` bits.
unfoldable pub xor : (width : ℕ) → ℕ → ℕ → ℕ
xor zero a b = 0
xor (suc width) a b = (a + b) % 2 + 2 * xor width (a / 2) (b / 2)

unfoldable pub xor_bytes : Bytes → Bytes → Bytes
xor_bytes [] ks = []
xor_bytes (x ∷ xs) [] = []
xor_bytes (x ∷ xs) (k ∷ ks) = xor 8 x k ∷ xor_bytes xs ks

-- The block of the keystream with an index.
unfoldable pub keystream : Platform → (key : Bytes) (block_idx : ℕ) → Bytes
keystream p key block_idx =
    p.sha256 (concat (ascii "subly402-asc-enc-v1" ∷ key ∷ u64_bytes block_idx ∷ []))

-- The chunks of 32 bytes that are left, each with its block; one round takes one at least.
unfoldable pub decrypt_blocks : Platform → Bytes → (rounds block_idx : ℕ) → Bytes → Bytes
decrypt_blocks p key zero block_idx input = []
decrypt_blocks p key (suc n) block_idx input =
    xor_bytes (take 32 input) (keystream p key block_idx)
    ++ decrypt_blocks p key n (block_idx + 1) (drop 32 input)

unfoldable pub decrypt_with_scalar : Platform → (ciphertext key_bytes : Bytes) → Bytes
decrypt_with_scalar p ciphertext key_bytes =
    decrypt_blocks p key_bytes (length ciphertext) 0 ciphertext

unfoldable pub encrypt_with_scalar : Platform → (plaintext key_bytes : Bytes) → Bytes
encrypt_with_scalar p plaintext key_bytes = decrypt_with_scalar p plaintext key_bytes

-- `if let Some(expected_hash) = request.result_hash`.
unfoldable pub has_hash : Platform → Option Bytes → Bytes → Bool
has_hash p none result = true
has_hash p (some expected_hash) result = bytes_eq (p.sha256 result) expected_hash

-- The message that is signed for a request of a channel.
abbrev pub payment_message : Platform → ChannelId → ChannelRequest → Bytes
payment_message p channel_id request =
    build_asc_payment_message p channel_id request.request_id request.amount request.request_hash

-- The amount is earned, and the channel is open again without its request.
abbrev pub settled : ChannelState → (client_locked provider_earned nonce : ℕ) → ℤ → ChannelState
settled channel client_locked provider_earned nonce now = record channel {
  balance = record channel.balance {
    client_locked = client_locked;
    provider_earned = provider_earned;
  };
  status = open_;
  active_request = none;
  nonce = nonce;
  updated_at = now;
}

module _ {Scalar Point : Type 0} (p : Platform) (c : Curve Scalar Point) (now : ℤ) where
  unfoldable pub deliver_adaptor :
      ChannelId
      → (adaptor_point_bytes : Bytes) → AdaptorPreSignature
      → (encrypted_result result_hash provider_pubkey : Bytes) → Action (Unit {0})
  deliver_adaptor channel_id adaptor_point_bytes pre_sig encrypted_result result_hash
        provider_pubkey =
      do
        channel ← find_channel channel_id
        check (eqb_status channel.status locked) (expected (ascii "Locked") channel.status)
        request ← active channel
        check (leb_ℤ now request.expires_at) channel_request_expired
        adaptor_point ← some_or (c.decompress adaptor_point_bytes) invalid_adaptor_signature
        check
            (pre_verify c provider_pubkey (payment_message p channel.channel_id request)
              adaptor_point pre_sig)
            invalid_adaptor_signature
        nonce ← add channel.nonce 1
        let delivered : ChannelRequest = record request {
          provider_pubkey = some provider_pubkey;
          adaptor_point = some adaptor_point_bytes;
          provider_pre_sig = some pre_sig;
          encrypted_result = some encrypted_result;
          result_hash = some result_hash;
        }
        put_channel channel_id (record channel {
          active_request = some delivered;
          status = pending;
          nonce = nonce;
          updated_at = now;
        })

  unfoldable pub finalize_with_secret :
      ChannelId
      → (adaptor_secret : Scalar) (secret_bytes_override : Option Bytes) → Action FinalizeOutcome
  finalize_with_secret channel_id adaptor_secret secret_bytes_override = do
    channel ← find_channel channel_id
    check (eqb_status channel.status pending) (expected (ascii "Pending") channel.status)
    request ← active channel
    pre_sig ← some_or request.provider_pre_sig invalid_adaptor_signature
    adaptor_point_bytes ← some_or request.adaptor_point invalid_adaptor_signature
    adaptor_point ← some_or (c.decompress adaptor_point_bytes) invalid_adaptor_signature
    provider_pubkey ← some_or request.provider_pubkey invalid_adaptor_signature
    check (c.point_eq adaptor_point (c.mul_base adaptor_secret)) invalid_adaptor_signature
    full_sig ← some_or (adapt c pre_sig adaptor_secret adaptor_point) invalid_adaptor_signature
    check (verify_adapted c provider_pubkey (payment_message p channel.channel_id request) full_sig)
        invalid_adaptor_signature
    encrypted_result ← some_or request.encrypted_result channel_not_found
    let secret_bytes = unwrap_or secret_bytes_override (c.scalar_bytes adaptor_secret)
    let decrypted = decrypt_with_scalar p encrypted_result secret_bytes
    check (has_hash p request.result_hash decrypted)
        (internal (ascii "Result hash mismatch after decryption"))
    client_locked ← sub channel.balance.client_locked request.amount
    provider_earned ← add channel.balance.provider_earned request.amount
    nonce ← add channel.nonce 1
    put_channel channel_id (settled channel client_locked provider_earned nonce now)
    done (record {
      request_id = request.request_id;
      result_bytes = decrypted;
      amount = request.amount;
      request = request;
    })

  unfoldable pub finalize_offchain :
      ChannelId → (adaptor_secret_bytes : Bytes) → Action FinalizeOutcome
  finalize_offchain channel_id adaptor_secret_bytes = do
    t ← some_or (c.from_canonical_bytes adaptor_secret_bytes) invalid_adaptor_signature
    finalize_with_secret channel_id t (some adaptor_secret_bytes)

  unfoldable pub finalize_onchain_claim :
      ChannelId → (full_sig_r full_sig_s : Bytes) → Action FinalizeOutcome
  finalize_onchain_claim channel_id full_sig_r full_sig_s = do
    channel ← find_channel channel_id
    check (eqb_status channel.status pending) (expected (ascii "Pending") channel.status)
    request ← active channel
    pre_sig ← some_or request.provider_pre_sig invalid_adaptor_signature
    adaptor_point_bytes ← some_or request.adaptor_point invalid_adaptor_signature
    adaptor_point ← some_or (c.decompress adaptor_point_bytes) invalid_adaptor_signature
    provider_pubkey ← some_or request.provider_pubkey invalid_adaptor_signature
    let full_sig : AdaptedSignature = record { r_bytes = full_sig_r; s_bytes = full_sig_s }
    extracted ← some_or (extract c full_sig pre_sig) invalid_adaptor_signature
    r_prime ← some_or (c.decompress pre_sig.r_prime) invalid_adaptor_signature
    check (bytes_eq (c.compress (c.point_add r_prime adaptor_point)) full_sig_r)
        invalid_adaptor_signature
    check (verify_adapted c provider_pubkey (payment_message p channel_id request) full_sig)
        invalid_adaptor_signature
    finalize_with_secret channel_id extracted (some (c.scalar_bytes extracted))

module _ (now : ℤ) where
  unfoldable pub rollback_deliver_adaptor : ChannelId → (request_id : Bytes) → Action (Unit {0})
  rollback_deliver_adaptor channel_id request_id = do
    channel ← find_channel channel_id
    check (eqb_status channel.status pending) (expected (ascii "Pending") channel.status)
    request ← active channel
    check (bytes_eq request.request_id request_id) channel_not_found
    let undelivered : ChannelRequest = record request {
      provider_pubkey = none;
      adaptor_point = none;
      provider_pre_sig = none;
      encrypted_result = none;
      result_hash = none;
    }
    put_channel channel_id (record channel {
      active_request = some undelivered;
      status = locked;
      nonce = channel.nonce - 1;
      updated_at = now;
    })

  unfoldable pub rollback_finalize_offchain : ChannelId → ChannelRequest → Action (Unit {0})
  rollback_finalize_offchain channel_id request = do
    channel ← find_channel channel_id
    check (is_idle channel) (not_idle channel)
    client_locked ← add channel.balance.client_locked request.amount
    let balance : ChannelBalance = record channel.balance {
      client_locked = client_locked;
      provider_earned = channel.balance.provider_earned - request.amount;
    }
    put_channel channel_id (record channel {
      balance = balance;
      status = pending;
      active_request = some request;
      nonce = channel.nonce - 1;
      updated_at = now;
    })

  -- The finalization that the log replays.
  unfoldable pub finalize_replayed_request :
      ChannelId → (request_id : Bytes) (amount_paid : ℕ) → Action (Unit {0})
  finalize_replayed_request channel_id request_id amount_paid = do
    channel ← find_channel channel_id
    check (eqb_status channel.status pending) (expected (ascii "Pending") channel.status)
    request ← active channel
    check (bytes_eq request.request_id request_id) channel_not_found
    check (request.amount == amount_paid)
        (internal (ascii "WAL replay amount mismatch for finalized channel request"))
    provider_earned ← add channel.balance.provider_earned amount_paid
    nonce ← add channel.nonce 1
    put_channel channel_id
        (settled channel (channel.balance.client_locked - amount_paid) provider_earned nonce now)
