-- ===== src/Vault/AscClaim.antt =====
-- programs/subly402_vault/src/asc_claim.rs: the messages of an atomic service channel's claim.
use Prim.Native.Char.{code}
use Prim.Native.String.{String}
use privacy_x.Base.{
  ℕ, Bytes, bytes_eq, ◌==◌, ◌++◌, [], ◌∷◌, length, slice, take, drop, concat, ℤ, not, u64_bytes,
  i64_bytes, u64_of_bytes, i64_of_bytes, Option, some, none, if◌then◌else◌,
}
use privacy_x.Vault.Platform.{Platform}

-- The bytes of an ASCII text.
abbrev pub ascii : String → Bytes
ascii String.[] = []
ascii (String.◌∷◌ c s) = code c ∷ ascii s

abbrev pub asc_claim_voucher_prefix : Bytes
asc_claim_voucher_prefix = ascii "SUBLY402-ASC-CLAIM-VOUCHER"

abbrev pub asc_payment_message_prefix : Bytes
asc_payment_message_prefix = ascii "subly402-asc-pay-v1"

-- `ASC_CLAIM_VOUCHER_PREFIX.len() + 1`.
abbrev pub asc_claim_voucher_prefix_with_nul_len : ℕ
asc_claim_voucher_prefix_with_nul_len = 27

abbrev pub asc_claim_voucher_message_len : ℕ
asc_claim_voucher_message_len = 203

pub record AscClaimVoucherFields : Type 0 where
  pub channel_id_hash : Bytes
  pub request_id_hash : Bytes
  pub amount : ℕ
  pub request_hash : Bytes
  pub provider_pubkey : Bytes
  pub issued_at : ℤ
  pub vault_config : Bytes

unfoldable pub build_asc_payment_message_from_hashes : Bytes → Bytes → ℕ → Bytes → Bytes
build_asc_payment_message_from_hashes channel_id_hash request_id_hash amount request_hash = concat (
    asc_payment_message_prefix
    ∷ channel_id_hash
    ∷ request_id_hash
    ∷ u64_bytes amount
    ∷ request_hash
    ∷ [])

unfoldable pub hash_identifier : Platform → Bytes → Bytes
hash_identifier p value = p.sha256 value

unfoldable pub build_asc_payment_message : Platform → Bytes → Bytes → ℕ → Bytes → Bytes
unfolding hash_identifier build_asc_payment_message_from_hashes
build_asc_payment_message p channel_id request_id amount request_hash =
    build_asc_payment_message_from_hashes (hash_identifier p channel_id)
      (hash_identifier p request_id) amount request_hash

unfoldable pub build_asc_claim_voucher_message : AscClaimVoucherFields → Bytes
build_asc_claim_voucher_message f = concat (
    asc_claim_voucher_prefix
    ∷ (0 ∷ [])
    ∷ f.channel_id_hash
    ∷ f.request_id_hash
    ∷ u64_bytes f.amount
    ∷ f.request_hash
    ∷ f.provider_pubkey
    ∷ i64_bytes f.issued_at
    ∷ f.vault_config
    ∷ [])

infixl 5 ◌>>=◌
abbrev ◌>>=◌ : {A B : Type 0} → Option A → (A → Option B) → Option B
none >>= f = none
some a >>= f = f a

-- The fields behind the prefix: `take_32` and `get` return `None` out of range.
unfoldable pub parse_voucher_fields : Bytes → Option AscClaimVoucherFields
parse_voucher_fields rest = do
  channel_id_hash ← slice rest 0 32
  request_id_hash ← slice rest 32 64
  amount ← slice rest 64 72
  request_hash ← slice rest 72 104
  provider_pubkey ← slice rest 104 136
  issued_at ← slice rest 136 144
  vault_config ← slice rest 144 176
  some (record {
    channel_id_hash = channel_id_hash;
    request_id_hash = request_id_hash;
    amount = u64_of_bytes amount;
    request_hash = request_hash;
    provider_pubkey = provider_pubkey;
    issued_at = i64_of_bytes issued_at;
    vault_config = vault_config;
  })

unfoldable pub parse_asc_claim_voucher_message : Bytes → Option AscClaimVoucherFields
parse_asc_claim_voucher_message message =
    if not (length message == asc_claim_voucher_message_len)
    then none
    else if not (
        bytes_eq (take asc_claim_voucher_prefix_with_nul_len message)
          (asc_claim_voucher_prefix ++ 0 ∷ []))
    then none
    else parse_voucher_fields (drop asc_claim_voucher_prefix_with_nul_len message)
