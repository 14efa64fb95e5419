-- ===== src/Wire/ReceiptCodec.antt =====
-- Participant receipts: `build_participant_receipt_message` of enclave/src/state.rs against
-- `decode_participant_receipt_message` of programs/subly402_vault/src/ed25519_utils.rs.
use privacy_x.Base.{
  ℕ, ◌+◌, ◌<◌, ◌≡◌, refl, ◌∙◌, Bytes, ok, length, get_elem?, slice, slice_nth, slice_within,
  drop_split, drop_elem, drop_all, AreBytes, u64_bytes_window, i64_bytes_window, get_elem?_within,
  err, ◌≢◌, take, drop, get_elem?-append_length, subst, IsI64, u64_mod, u64_bytes, i64_bytes,
  u64_of_bytes, i64_of_bytes, length-u64_bytes, length-i64_bytes, u64_of_bytes-u64_bytes,
  i64_of_bytes-i64_bytes, [], ◌∷◌, List, some, arith, total, concat, length-concat,
}
use privacy_x.Vault.Error.{custom, invalid_receipt_message}
use privacy_x.Vault.Receipt.{ParticipantReceiptMessage, decode_participant_receipt_message}
use privacy_x.Enclave.Messages.{build_participant_receipt_message}

-- The values are in the ranges of their Rust types.
pub record IsReceipt (m : ParticipantReceiptMessage) : Type 0 where
  pub participant_len : length m.participant ≡ 32
  pub kind_u8 : m.participant_kind < 256
  pub recipient_len : length m.recipient_ata ≡ 32
  pub free_u64 : m.free_balance < u64_mod
  pub locked_u64 : m.locked_balance < u64_mod
  pub lock_i64 : IsI64 m.max_lock_expires_at
  pub nonce_u64 : m.nonce < u64_mod
  pub timestamp_i64 : IsI64 m.timestamp
  pub seqno_u64 : m.snapshot_seqno < u64_mod
  pub vault_len : length m.vault_config ≡ 32

-- The enclave's message of these fields.
abbrev pub encode : ParticipantReceiptMessage → Bytes
encode m =
    build_participant_receipt_message m.vault_config m.participant m.participant_kind
      m.recipient_ata m.free_balance m.locked_balance m.max_lock_expires_at m.nonce m.timestamp
      m.snapshot_seqno

-- Its parts, in order.
abbrev segments : ParticipantReceiptMessage → List Bytes
segments m =
    m.participant
    ∷ (m.participant_kind ∷ [])
    ∷ m.recipient_ata
    ∷ u64_bytes m.free_balance
    ∷ u64_bytes m.locked_balance
    ∷ i64_bytes m.max_lock_expires_at
    ∷ u64_bytes m.nonce
    ∷ i64_bytes m.timestamp
    ∷ u64_bytes m.snapshot_seqno
    ∷ m.vault_config
    ∷ []

ruleset layout = (arith, length-u64_bytes, length-i64_bytes)

module _ (m : ParticipantReceiptMessage) (h : IsReceipt m) where
  kind_at : get_elem? (concat (segments m)) 32 ≡ some m.participant_kind
  kind_at =
      subst (λ n. get_elem? (concat (segments m)) n ≡ some m.participant_kind) h.participant_len
        (get_elem?-append_length m.participant m.participant_kind (concat (drop 2 (segments m))))

  at :
      (i : ℕ) (s : Bytes) (lo hi : ℕ)
      → get_elem? (segments m) i ≡ some s
      → total (take i (segments m)) ≡ lo
      → lo + length s ≡ hi
      → slice (concat (segments m)) lo hi ≡ some s
  at i s lo hi e p q = slice_nth (segments m) i s lo hi e p q

  size : length (concat (segments m)) ≡ 145
  size = length-concat (segments m) ∙ omega (arith, length-u64_bytes, length-i64_bytes)

  -- The program decodes every message that the enclave builds to the fields that went in.
  pub decode-build : decode_participant_receipt_message (encode m) ≡ ok m
  unfolding decode_participant_receipt_message build_participant_receipt_message
  decode-build =
      let p0 = at 0 m.participant 0 32 refl (omega layout) (omega layout) in
      let p2 = at 2 m.recipient_ata 33 65 refl (omega layout) (omega layout) in
      let p3 = at 3 (u64_bytes m.free_balance) 65 73 refl (omega layout) (omega layout) in
      let p4 = at 4 (u64_bytes m.locked_balance) 73 81 refl (omega layout) (omega layout) in
      let p5 = at 5 (i64_bytes m.max_lock_expires_at) 81 89 refl (omega layout) (omega layout) in
      let p6 = at 6 (u64_bytes m.nonce) 89 97 refl (omega layout) (omega layout) in
      let p7 = at 7 (i64_bytes m.timestamp) 97 105 refl (omega layout) (omega layout) in
      let p8 = at 8 (u64_bytes m.snapshot_seqno) 105 113 refl (omega layout) (omega layout) in
      let p9 = at 9 m.vault_config 113 145 refl (omega layout) (omega layout) in
      ground (
        arith,
        size,
        kind_at,
        p0,
        p2,
        p3,
        p4,
        p5,
        p6,
        p7,
        p8,
        p9,
        u64_of_bytes-u64_bytes m.free_balance,
        u64_of_bytes-u64_bytes m.locked_balance,
        u64_of_bytes-u64_bytes m.nonce,
        u64_of_bytes-u64_bytes m.snapshot_seqno,
        i64_of_bytes-i64_bytes m.timestamp,
        i64_of_bytes-i64_bytes m.max_lock_expires_at,
      )

-- What decoding reads of a message of the right length; `kind` is its byte 32.
abbrev decoded : Bytes → ℕ → ParticipantReceiptMessage
decoded b kind = record {
  participant = take 32 (drop 0 b);
  participant_kind = kind;
  recipient_ata = take 32 (drop 33 b);
  free_balance = u64_of_bytes (take 8 (drop 65 b));
  locked_balance = u64_of_bytes (take 8 (drop 73 b));
  max_lock_expires_at = i64_of_bytes (take 8 (drop 81 b));
  nonce = u64_of_bytes (take 8 (drop 89 b));
  timestamp = i64_of_bytes (take 8 (drop 97 b));
  snapshot_seqno = u64_of_bytes (take 8 (drop 105 b));
  vault_config = take 32 (drop 113 b);
}

decode-decoded :
    (b : Bytes) (kind : ℕ)
    → length b ≡ 145
    → get_elem? b 32 ≡ some kind
    → decode_participant_receipt_message b ≡ ok (decoded b kind)
unfolding decode_participant_receipt_message
decode-decoded b kind size k = ground (
  arith,
  slice_within b 0 32,
  slice_within b 33 32,
  slice_within b 65 8,
  slice_within b 73 8,
  slice_within b 81 8,
  slice_within b 89 8,
  slice_within b 97 8,
  slice_within b 105 8,
  slice_within b 113 32,
)

build-decoded :
    (b : Bytes) (kind : ℕ)
    → AreBytes b
    → length b ≡ 145
    → get_elem? b 32 ≡ some kind
    → encode (decoded b kind) ≡ b
unfolding build_participant_receipt_message
build-decoded b kind bytes size k =
    let cut = drop_split b in
    cc (
      cut 0 32,
      drop_elem b 32 k,
      cut 33 32,
      cut 65 8,
      cut 73 8,
      cut 81 8,
      cut 89 8,
      cut 97 8,
      cut 105 8,
      cut 113 32,
      drop_all b 145 (omega arith),
      u64_bytes_window b 65 bytes (omega arith),
      u64_bytes_window b 73 bytes (omega arith),
      i64_bytes_window b 81 bytes (omega arith),
      u64_bytes_window b 89 bytes (omega arith),
      i64_bytes_window b 97 bytes (omega arith),
      u64_bytes_window b 105 bytes (omega arith),
    )

-- Every 145-byte message decodes, and building a message from what was decoded gives it back: the
-- encoding is canonical, so no two messages carry the same fields.
pub build-decode :
    (b : Bytes)
    → AreBytes b
    → length b ≡ 145
    → (m : ParticipantReceiptMessage) × (decode_participant_receipt_message b ≡ ok m)
      × (encode m ≡ b)
build-decode b bytes size =
    let (kind, k) = get_elem?_within b 32 (omega arith) in
    (decoded b kind, decode-decoded b kind size k, build-decoded b kind bytes size k)

-- A message of any other length is refused as `InvalidReceiptMessage`.
pub decode_wrong_length :
    (b : Bytes)
    → length b ≢ 145
    → decode_participant_receipt_message b ≡ err (custom invalid_receipt_message)
unfolding decode_participant_receipt_message
decode_wrong_length b h = ground arith
