-- ===== src/Vault/Ed25519/Embedded.antt =====
-- What a verified signature rests on: an Ed25519 instruction of the same transaction that carries
-- the key, the signature and the message in its own data.
use privacy_x.Base.{
  ℕ, ◌+◌, ◌-◌, ◌*◌, ◌≤◌, ◌<◌, ◌≡◌, ◌≢◌, Bytes, ok, err, leb, length, get_elem?_within, slice,
  slice_within, u16_max, arith, some, eq_of_bytes_eq, leb→le, Bool-cases, inl, inr, ◌⊎◌, take, drop,
  bytes_eq, Option-cases, ok_or-eq-ok, require-eq-ok,
}
use privacy_x.Vault.Error.{panic}
use privacy_x.Vault.Platform.{Platform, Env, Instruction}
use privacy_x.Vault.Ed25519.{
  VerifiedEd25519Signature, byte_at, u16_at, parse_ed25519,
  verify_ed25519_signature_details_relative,
}

u16_at_within : (xs : Bytes) (i : ℕ) → i + 1 < length xs → (n : ℕ) × (u16_at xs i ≡ ok n)
unfolding u16_at
u16_at_within xs i h =
    let (lo, low) = get_elem?_within xs i (omega arith) in
    let (hi, high) = get_elem?_within xs (i + 1) h in (lo + 256 * hi, ground arith)

byte_at_within : (xs : Bytes) (i : ℕ) → i < length xs → (n : ℕ) × (byte_at xs i ≡ ok n)
unfolding byte_at
byte_at_within xs i h = let (n, e) = get_elem?_within xs i h in (n, ground arith)

parse_short : (xs : Bytes) (i : ℕ) (k : Bytes) → length xs < 16 → parse_ed25519 xs i k ≢ err panic
unfolding parse_ed25519
parse_short xs i k h e = ground arith

parse_long : (xs : Bytes) (i : ℕ) (k : Bytes) → 16 ≤ length xs → parse_ed25519 xs i k ≢ err panic
unfolding parse_ed25519
parse_long xs i k h e =
    let (b, e0) = byte_at_within xs 0 (omega arith) in
    let (so, e2) = u16_at_within xs 2 (omega arith) in
    let (si, e4) = u16_at_within xs 4 (omega arith) in
    let (po, e6) = u16_at_within xs 6 (omega arith) in
    let (pi, e8) = u16_at_within xs 8 (omega arith) in
    let (mo, e10) = u16_at_within xs 10 (omega arith) in
    let (ms, e12) = u16_at_within xs 12 (omega arith) in
    let (mi, e14) = u16_at_within xs 14 (omega arith) in
    ground (arith, slice_within xs so 64, slice_within xs po 32, slice_within xs mo ms)

parse_ed25519-ne-panic : (xs : Bytes) (i : ℕ) (k : Bytes) → parse_ed25519 xs i k ≢ err panic
parse_ed25519-ne-panic xs i k h = elim (Bool-cases (leb 16 (length xs))) [
  | inl long ↦ parse_long xs i k (leb→le 16 (length xs) long) h
  | inr short ↦ parse_short xs i k (ground arith) h
]

-- An index of the precompile's header that points at the precompile's own data.
abbrev pub PointsAtItself : Bytes → ℕ → ℕ → Type 0
PointsAtItself xs at index = (u16_at xs at ≡ ok u16_max) ⊎ (u16_at xs at ≡ ok index)

-- The precompile's data holds one signature, with its key and its message, all in itself.
pub record EmbeddedSignature (xs : Bytes) (index : ℕ) (key : Bytes) (v : VerifiedEd25519Signature)
    : Type 0 where
  pub signature_offset : ℕ
  pub key_offset : ℕ
  pub message_offset : ℕ
  pub message_size : ℕ
  pub one_signature : byte_at xs 0 ≡ ok 1
  pub signature_here : PointsAtItself xs 4 index
  pub key_here : PointsAtItself xs 8 index
  pub message_here : PointsAtItself xs 14 index
  pub signature_header : u16_at xs 2 ≡ ok signature_offset
  pub key_header : u16_at xs 6 ≡ ok key_offset
  pub message_header : u16_at xs 10 ≡ ok message_offset
  pub size_header : u16_at xs 12 ≡ ok message_size
  pub signature_bytes : slice xs signature_offset (signature_offset + 64) ≡ some v.signature
  pub key_bytes : slice xs key_offset (key_offset + 32) ≡ some key
  pub message_bytes : slice xs message_offset (message_offset + message_size) ≡ some v.message

parse-long :
    (xs : Bytes) (i : ℕ) (k : Bytes) {v : VerifiedEd25519Signature}
    → parse_ed25519 xs i k ≡ ok v
    → 16 ≤ length xs
unfolding parse_ed25519
parse-long xs i k h = ground arith

parse_embedded :
    (xs : Bytes) (i : ℕ) (k : Bytes) {v : VerifiedEd25519Signature}
    → parse_ed25519 xs i k ≡ ok v
    → EmbeddedSignature xs i k v
unfolding parse_ed25519
parse_embedded xs i k {v} h =
    let long : 16 ≤ length xs = parse-long xs i k h in
    let (b, e0) = byte_at_within xs 0 (omega arith) in
    let (so, e2) = u16_at_within xs 2 (omega arith) in
    let (si, e4) = u16_at_within xs 4 (omega arith) in
    let (po, e6) = u16_at_within xs 6 (omega arith) in
    let (pi, e8) = u16_at_within xs 8 (omega arith) in
    let (mo, e10) = u16_at_within xs 10 (omega arith) in
    let (ms, e12) = u16_at_within xs 12 (omega arith) in
    let (mi, e14) = u16_at_within xs 14 (omega arith) in
    record {
      signature_offset = so;
      key_offset = po;
      message_offset = mo;
      message_size = ms;
      one_signature = ground arith;
      signature_here = ground arith;
      key_here = ground arith;
      message_here = ground arith;
      signature_header = e2;
      key_header = e6;
      message_header = e10;
      size_header = e12;
      signature_bytes = ground (arith, slice_within xs so 64);
      key_bytes = ground (arith, slice_within xs po 32, eq_of_bytes_eq (take 32 (drop po xs)) k);
      message_bytes = ground (arith, slice_within xs mo ms);
    }

-- The Ed25519 instruction that stands `offset` places before the one that runs.
pub record SignedInstruction (p : Platform) (e : Env) (offset : ℕ) (key : Bytes)
    (v : VerifiedEd25519Signature) : Type 0 where
  pub current : ℕ
  pub ix : Instruction
  pub current_is : e.current_index ≡ some current
  pub preceded : offset ≤ current
  pub ix_is : e.instruction_at (current - offset) ≡ some ix
  pub by_precompile : ix.program_id ≡ p.ed25519_program_id
  pub embedded : EmbeddedSignature ix.ix_data (current - offset) key v

module _ (p : Platform) (e : Env) where
  -- A signature is accepted only from an Ed25519 precompile instruction that stands exactly
  -- `offset` places before the current one in the same transaction, that holds exactly one
  -- signature, whose three instruction indices refer to itself, and in whose data the expected key,
  -- the returned signature and the returned message stand at the offsets that its header names.
  pub verify_ed25519-SignedInstruction :
      (offset : ℕ) (key : Bytes) (v : VerifiedEd25519Signature)
      → verify_ed25519_signature_details_relative p e offset key ≡ ok v
      → SignedInstruction p e offset key v
  unfolding verify_ed25519_signature_details_relative
  verify_ed25519-SignedInstruction offset key v h =
      let (current, e1, h1) = ok_or-eq-ok e.current_index _ _ h in
      let (e2, h2) = require-eq-ok (leb offset current) _ _ h1 in
      let (ix, e3, h3) = ok_or-eq-ok (e.instruction_at (current - offset)) _ _ h2 in
      let (e4, h4) = require-eq-ok (bytes_eq ix.program_id p.ed25519_program_id) _ _ h3 in
      record {
        current = current;
        ix = ix;
        current_is = e1;
        preceded = leb→le offset current e2;
        ix_is = e3;
        by_precompile = eq_of_bytes_eq ix.program_id p.ed25519_program_id e4;
        embedded = parse_embedded ix.ix_data (current - offset) key h4;
      }

  -- Reading the signature never panics, whatever the transaction holds.
  pub verify_ed25519-ne-panic :
      (offset : ℕ) (key : Bytes)
      → verify_ed25519_signature_details_relative p e offset key ≢ err panic
  unfolding verify_ed25519_signature_details_relative
  verify_ed25519-ne-panic offset key h = elim (Option-cases e.current_index) [
    | inl out ↦ ground arith
    | inr (current, e1) ↦ elim (Option-cases (e.instruction_at (current - offset))) [
      | inl out ↦ ground arith
      | inr (ix, e3) ↦ ground (arith, parse_ed25519-ne-panic ix.ix_data (current - offset) key)
    ]
  ]
