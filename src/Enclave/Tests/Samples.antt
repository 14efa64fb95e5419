-- ===== src/Enclave/Tests/Samples.antt =====
-- A curve of two points, a platform and a state with a channel.
use privacy_x.Base.{
  zero, suc, ◌≡◌, ◌↔◌, refl, Bool, true, false, ◌&&◌, Option, none, some, [], ◌∷◌, Bytes, pos,
  length, replicate, arith, bytes_instance, nat_eq,
}
use privacy_x.Vault.Platform.{Platform}
use privacy_x.Vault.Tests.Machine.{machine}
use privacy_x.Vault.AscClaim.{build_asc_payment_message}
use privacy_x.Enclave.State.{
  VaultState, ProviderRegistration, ChannelState, ChannelRequest, ChannelId, open_, pending,
  AdaptorPreSignature, default_balance,
}
use privacy_x.Enclave.Adaptor.{Curve, CurveLaws, pre_sign, public_key_of}

abbrev xor_bool : Bool → Bool → Bool
xor_bool true true = false
xor_bool true false = true
xor_bool false b = b

abbrev same_bool : Bool → Bool → Bool
same_bool true b = b
same_bool false true = false
same_bool false false = true

abbrev bool_bytes : Bool → Bytes
bool_bytes true = 1 ∷ []
bool_bytes false = 0 ∷ []

abbrev of_bit : Bytes → Option Bool
of_bit (zero ∷ []) = some false
of_bit (suc zero ∷ []) = some true
of_bit _ = none

abbrev pub two_points : Curve Bool Bool
two_points = record {
  scalar_add = xor_bool;
  scalar_sub = xor_bool;
  scalar_mul = λ a b. a && b;
  scalar_bytes = bool_bytes;
  from_canonical_bytes = of_bit;
  from_bytes_mod_order = λ b. true;
  from_bytes_mod_order_wide = λ b. true;
  point_add = xor_bool;
  point_eq = same_bool;
  mul = λ a b. a && b;
  mul_base = λ a. a;
  compress = bool_bytes;
  decompress = of_bit;
  sha512 = λ b. b;
}

same_bool_iff : (a b : Bool) → (same_bool a b ≡ true) ↔ (a ≡ b)
same_bool_iff a b = ground arith

assoc : (a b c : Bool) → xor_bool (xor_bool a b) c ≡ xor_bool a (xor_bool b c)
assoc a b c = ground arith

comm : (a b : Bool) → xor_bool a b ≡ xor_bool b a
comm a b = ground arith

cancel : (a b c : Bool) → xor_bool a b ≡ xor_bool a c → b ≡ c
cancel a b c h = ground arith

sub_then_add : (a b : Bool) → xor_bool b (xor_bool a b) ≡ a
sub_then_add a b = ground arith

add_then_sub : (a b : Bool) → xor_bool (xor_bool a b) a ≡ b
add_then_sub a b = ground arith

bit_round : (a : Bool) → of_bit (bool_bytes a) ≡ some a
bit_round true = refl
bit_round false = refl

pub two_points_laws : CurveLaws two_points
two_points_laws = record {
  point_eq_iff = same_bool_iff;
  point_add_assoc = assoc;
  point_add_comm = comm;
  point_add_cancel = cancel;
  mul_base_add = λ a b. refl;
  mul_base_mul = λ a b. refl;
  sub_add = sub_then_add;
  add_sub = add_then_sub;
  scalar_round = bit_round;
  point_round = bit_round;
}

-- A platform whose hash has 32 bytes.
abbrev pub wide_machine : Platform
wide_machine = record machine { sha256 = λ m. replicate 32 (length m) }

abbrev pub client : Bytes
client = 70 ∷ []

abbrev pub provider : Bytes
provider = 80 ∷ []

abbrev pub channel_key : ChannelId
channel_key = 90 ∷ []

abbrev pub request_key : Bytes
request_key = 91 ∷ []

abbrev registration : ProviderRegistration
registration = record {
  provider_id = provider;
  display_name = [];
  participant_pubkey = none;
  participant_attestation_policy_hash = none;
  participant_attestation_verified_at_ms = none;
  participant_attestation_mode = none;
  settlement_token_account = 81 ∷ [];
  network = [];
  asset_mint = 3 ∷ [];
  allowed_origins = [];
  auth_mode = [];
  api_key_hash = none;
  mtls_cert_fingerprint = none;
}

-- A provider is registered, and nothing has happened yet.
abbrev pub fresh_state : VaultState
fresh_state = record {
  vault_config = 1 ∷ [];
  client_balances = [];
  reservations = [];
  provider_credits = [];
  providers = (provider, registration) ∷ [];
  settlement_history = [];
  settlement_batches = [];
  pending_withdrawals = [];
  active_channels = [];
  receipt_nonce = 1;
  withdraw_nonce = 1;
}

abbrev pub provider_secret : Bytes
provider_secret = 5 ∷ 6 ∷ []

-- The message that is signed for the request, and its pre-signature for the adaptor point `true`.
abbrev pub message : Bytes
message = build_asc_payment_message wide_machine channel_key request_key 30 (9 ∷ [])

abbrev pub pre_signature : AdaptorPreSignature
pre_signature = pre_sign two_points provider_secret message true

abbrev pub provider_key : Bytes
provider_key = public_key_of two_points provider_secret

abbrev pub delivered_request : ChannelRequest
delivered_request = record {
  request_id = request_key;
  amount = 30;
  request_hash = 9 ∷ [];
  provider_pubkey = some provider_key;
  adaptor_point = some (1 ∷ []);
  provider_pre_sig = some pre_signature;
  encrypted_result = some (11 ∷ 12 ∷ []);
  result_hash = some (replicate 32 2);
  created_at = pos 10;
  expires_at = pos 130;
}

-- A channel that awaits the secret.
abbrev pub pending_channel : ChannelState
pending_channel = record {
  channel_id = channel_key;
  client = client;
  provider_id = provider;
  balance = record { client_free = 20; client_locked = 30; provider_earned = 0 };
  status = pending;
  nonce = 2;
  created_at = pos 5;
  updated_at = pos 10;
  used_request_ids = request_key ∷ [];
  active_request = some delivered_request;
}

-- A channel that is open, with nothing asked of it yet.
abbrev pub idle_channel : ChannelState
idle_channel = record pending_channel {
  balance = record { client_free = 50; client_locked = 0; provider_earned = 0 };
  status = open_;
  nonce = 0;
  used_request_ids = [];
  active_request = none;
}

abbrev pub with_channel : ChannelState → VaultState
with_channel ch = record fresh_state {
  client_balances =
      (client, record default_balance { free = 50; locked = 50; total_deposited = 100 }) ∷ [];
  active_channels = (channel_key, ch) ∷ [];
}
