-- ===== src/Wire/VoucherCodec.antt =====
-- Claim vouchers: `build_asc_claim_voucher_message` against `parse_asc_claim_voucher_message`, both
-- of programs/subly402_vault/src/asc_claim.rs; the enclave calls the first, the program the second.
use privacy_x.Base.{
  ℕ, ◌+◌, ◌<◌, ◌≡◌, refl, ◌∙◌, ap, sym, Bytes, bytes_eq, eq_of_bytes_eq, AreBytes, List, [], ◌∷◌,
  ◌++◌, length, take, drop, slice, slice_nth, slice_within, drop_split, drop_all, total, concat,
  length-concat, length-drop, IsI64, get_elem?, u64_mod, u64_bytes, i64_bytes, u64_of_bytes,
  i64_of_bytes, length-u64_bytes, length-i64_bytes, u64_of_bytes-u64_bytes, i64_of_bytes-i64_bytes,
  u64_bytes_window, i64_bytes_window, Option, some, none, arith, AreBytes-drop, take-append-drop,
  ◌==◌, true, false, not, ==_iff, Bool, if◌then◌else◌,
}
use privacy_x.Vault.AscClaim.{
  AscClaimVoucherFields, asc_claim_voucher_prefix, build_asc_claim_voucher_message,
  parse_asc_claim_voucher_message, parse_voucher_fields,
}

-- The values are in the ranges of their Rust types.
pub record IsVoucher (f : AscClaimVoucherFields) : Type 0 where
  pub channel_len : length f.channel_id_hash ≡ 32
  pub request_id_len : length f.request_id_hash ≡ 32
  pub amount_u64 : f.amount < u64_mod
  pub request_len : length f.request_hash ≡ 32
  pub provider_len : length f.provider_pubkey ≡ 32
  pub issued_i64 : IsI64 f.issued_at
  pub vault_len : length f.vault_config ≡ 32

ruleset layout = (arith, length-u64_bytes, length-i64_bytes)

-- The parts behind the prefix.
abbrev fields : AscClaimVoucherFields → List Bytes
fields f =
    f.channel_id_hash
    ∷ f.request_id_hash
    ∷ u64_bytes f.amount
    ∷ f.request_hash
    ∷ f.provider_pubkey
    ∷ i64_bytes f.issued_at
    ∷ f.vault_config
    ∷ []

module _ (f : AscClaimVoucherFields) (h : IsVoucher f) where
  at :
      (i : ℕ) (s : Bytes) (lo hi : ℕ)
      → get_elem? (fields f) i ≡ some s
      → total (take i (fields f)) ≡ lo
      → lo + length s ≡ hi
      → slice (concat (fields f)) lo hi ≡ some s
  at i s lo hi e p q = slice_nth (fields f) i s lo hi e p q

  size : length (concat (fields f)) ≡ 176
  size = length-concat (fields f) ∙ omega layout

  parse_fields : parse_voucher_fields (concat (fields f)) ≡ some f
  unfolding parse_voucher_fields
  parse_fields =
      let p0 = at 0 f.channel_id_hash 0 32 refl (omega layout) (omega layout) in
      let p1 = at 1 f.request_id_hash 32 64 refl (omega layout) (omega layout) in
      let p2 = at 2 (u64_bytes f.amount) 64 72 refl (omega layout) (omega layout) in
      let p3 = at 3 f.request_hash 72 104 refl (omega layout) (omega layout) in
      let p4 = at 4 f.provider_pubkey 104 136 refl (omega layout) (omega layout) in
      let p5 = at 5 (i64_bytes f.issued_at) 136 144 refl (omega layout) (omega layout) in
      let p6 = at 6 f.vault_config 144 176 refl (omega layout) (omega layout) in
      ground (
        arith,
        p0,
        p1,
        p2,
        p3,
        p4,
        p5,
        p6,
        u64_of_bytes-u64_bytes f.amount,
        i64_of_bytes-i64_bytes f.issued_at,
      )

  -- The program parses every voucher that is built from fields in range to those fields.
  pub parse-build : parse_asc_claim_voucher_message (build_asc_claim_voucher_message f) ≡ some f
  unfolding parse_asc_claim_voucher_message build_asc_claim_voucher_message bytes_eq
  parse-build = rw size parse_fields

abbrev parsed : Bytes → AscClaimVoucherFields
parsed r = record {
  channel_id_hash = take 32 (drop 0 r);
  request_id_hash = take 32 (drop 32 r);
  amount = u64_of_bytes (take 8 (drop 64 r));
  request_hash = take 32 (drop 72 r);
  provider_pubkey = take 32 (drop 104 r);
  issued_at = i64_of_bytes (take 8 (drop 136 r));
  vault_config = take 32 (drop 144 r);
}

parse-parsed : (r : Bytes) → length r ≡ 176 → parse_voucher_fields r ≡ some (parsed r)
unfolding parse_voucher_fields
parse-parsed r size = ground (
  arith,
  slice_within r 0 32,
  slice_within r 32 32,
  slice_within r 64 8,
  slice_within r 72 32,
  slice_within r 104 32,
  slice_within r 136 8,
  slice_within r 144 32,
)

build-parsed : (r : Bytes) → AreBytes r → length r ≡ 176 → concat (fields (parsed r)) ≡ r
build-parsed r bytes size =
    let cut = drop_split r in
    cc (
      cut 0 32,
      cut 32 32,
      cut 64 8,
      cut 72 32,
      cut 104 32,
      cut 136 8,
      cut 144 32,
      drop_all r 176 (omega arith),
      u64_bytes_window r 64 bytes (omega arith),
      i64_bytes_window r 136 bytes (omega arith),
    )

-- Inversion of a guard `if !t { return None; }`.
guarded :
    (t : Bool) (o : Option AscClaimVoucherFields) {f : AscClaimVoucherFields}
    → (if not t then none else o) ≡ some f
    → (t ≡ true) × (o ≡ some f)
guarded true o h = (refl, h)
guarded false o h = cc

-- A message that parses is the message that is built from the fields that were read.
pub build-parse :
    (b : Bytes) (f : AscClaimVoucherFields)
    → AreBytes b
    → parse_asc_claim_voucher_message b ≡ some f
    → build_asc_claim_voucher_message f ≡ b
unfolding build_asc_claim_voucher_message parse_asc_claim_voucher_message
build-parse b f bytes h =
    let (size, h1) = guarded (length b == 203) _ h in
    let (same, h2) = guarded (bytes_eq (take 27 b) (asc_claim_voucher_prefix ++ 0 ∷ [])) _ h1 in
    let prefix = eq_of_bytes_eq (take 27 b) (asc_claim_voucher_prefix ++ 0 ∷ []) same in
    let len : length b ≡ 203 = (==_iff (length b) 203).0 size in
    let left : length (drop 27 b) ≡ 176 = omega (arith, length-drop 27 b) in
    let read : f ≡ parsed (drop 27 b) = cc (parse-parsed (drop 27 b) left) in
    rw read (
      ap (λ r. asc_claim_voucher_prefix ++ 0 ∷ r)
        (build-parsed (drop 27 b) (AreBytes-drop 27 b bytes) left)
      ∙ ap (λ l. l ++ drop 27 b) (sym prefix)
      ∙ take-append-drop 27 b)
