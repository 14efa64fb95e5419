-- ===== src/Wire/Tests.antt =====
-- One receipt and one voucher, there and back.
use privacy_x.Base.{
  ℕ, zero, suc, ◌<◌, ◌≡◌, refl, Bytes, ok, err, pos, negsuc, arith, replicate, ◌++◌, AreBytes, some,
  bytes_eq, slice, u64_of_bytes, i64_of_bytes, of_le_bytes,
}
use privacy_x.Vault.Error.{custom, invalid_receipt_message}
use privacy_x.Vault.Receipt.{ParticipantReceiptMessage, decode_participant_receipt_message}
use privacy_x.Vault.AscClaim.{
  AscClaimVoucherFields, build_asc_claim_voucher_message, parse_asc_claim_voucher_message,
  parse_voucher_fields, asc_claim_voucher_prefix,
}
use privacy_x.Wire.ReceiptCodec.{encode, decode-build, build-decode, decode_wrong_length}
use privacy_x.Wire.VoucherCodec.{IsVoucher, parse-build, build-parse}

abbrev receipt : ParticipantReceiptMessage
receipt = record {
  participant = replicate 32 1;
  participant_kind = 1;
  recipient_ata = replicate 32 2;
  free_balance = 300;
  locked_balance = 18446744073709551615;
  max_lock_expires_at = pos 70000;
  nonce = 5;
  timestamp = negsuc 8;
  snapshot_seqno = 12;
  vault_config = replicate 32 3;
}

decode-build_example : decode_participant_receipt_message (encode receipt) ≡ ok receipt
decode-build_example = decode-build receipt (record {
  participant_len = refl;
  kind_u8 = omega arith;
  recipient_len = refl;
  free_u64 = omega arith;
  locked_u64 = omega arith;
  lock_i64 = omega arith;
  nonce_u64 = omega arith;
  timestamp_i64 = omega arith;
  seqno_u64 = omega arith;
  vault_len = refl;
})

all_below : (n x : ℕ) → x < 256 → AreBytes (replicate n x)
all_below zero x h = tt
all_below (suc n) x h = (h, all_below n x h)

build-decode_example :
    (m : ParticipantReceiptMessage) × (decode_participant_receipt_message (replicate 145 200)
      ≡ ok m)
    × (encode m ≡ replicate 145 200)
build-decode_example = build-decode (replicate 145 200) (all_below 145 200 (omega arith)) refl

decode_wrong_length_example :
    decode_participant_receipt_message (replicate 144 0) ≡ err (custom invalid_receipt_message)
decode_wrong_length_example = decode_wrong_length (replicate 144 0) (omega arith)

abbrev voucher : AscClaimVoucherFields
voucher = record {
  channel_id_hash = replicate 32 1;
  request_id_hash = replicate 32 2;
  amount = 1000000;
  request_hash = replicate 32 3;
  provider_pubkey = replicate 32 4;
  issued_at = pos 1700000000;
  vault_config = replicate 32 5;
}

voucher-IsVoucher : IsVoucher voucher
voucher-IsVoucher = record {
  channel_len = refl;
  request_id_len = refl;
  amount_u64 = omega arith;
  request_len = refl;
  provider_len = refl;
  issued_i64 = omega arith;
  vault_len = refl;
}

parse-build_example :
    parse_asc_claim_voucher_message (build_asc_claim_voucher_message voucher) ≡ some voucher
parse-build_example = parse-build voucher voucher-IsVoucher

-- The prefix, and fields that are all zero.
abbrev zeros : Bytes
zeros = asc_claim_voucher_prefix ++ replicate 177 0

abbrev zero_voucher : AscClaimVoucherFields
zero_voucher = record {
  channel_id_hash = replicate 32 0;
  request_id_hash = replicate 32 0;
  amount = 0;
  request_hash = replicate 32 0;
  provider_pubkey = replicate 32 0;
  issued_at = pos 0;
  vault_config = replicate 32 0;
}

zeros-AreBytes : AreBytes zeros
zeros-AreBytes = omega arith

parses_zeros : parse_asc_claim_voucher_message zeros ≡ some zero_voucher
unfolding parse_asc_claim_voucher_message parse_voucher_fields bytes_eq slice u64_of_bytes
    i64_of_bytes of_le_bytes
parses_zeros = refl

build-parse_example : build_asc_claim_voucher_message zero_voucher ≡ zeros
build-parse_example = build-parse zeros zero_voucher zeros-AreBytes parses_zeros
