-- ===== src/Vault/Settlement/Pairing.antt =====
-- What each half of an atomic batch has found when it has found the other.
use privacy_x.Base.{
  ℕ, ◌≡◌, ◌≢◌, Bytes, ok, Option, some, List, [], ◌∷◌, ◌++◌, map, concat, take, drop, get_elem?,
  u64_bytes, i64_bytes, on_ok_or,
}
use privacy_x.Vault.Error.{
  ProgramError, custom, settle_vault_without_audit, record_audit_without_settle,
}
use privacy_x.Vault.AscClaim.{ascii}
use privacy_x.Vault.BatchHash.{compute_batch_chunk_hash, batch_chunk_preimage}
use privacy_x.Vault.Platform.{Platform, Env, Instruction, SettlementEntry, AuditRecordData}
use privacy_x.Vault.Settlement.{
  Wanted, parse_instruction, instruction_discriminator, verify_record_audit_pairing,
  verify_settle_vault_pairing,
}
use privacy_x.Vault.Settlement.Arguments.{parse_instruction-Parses, is_wanted-parts}
use privacy_x.Vault.Settlement.Search.{Paired, search_pairing-Paired}

-- The bytes whose hash binds the two halves of a chunk.
abbrev pub chunk_bytes : ℕ → List SettlementEntry → List AuditRecordData → Bytes
chunk_bytes batch_id settlements records =
    ascii "subly402-batch-chunk-v1"
    ++ (u64_bytes batch_id
        ++ (concat (
              map (λ (s : SettlementEntry). s.provider_token_account ++ u64_bytes s.amount)
                settlements)
            ++ concat (
                map
                  (λ (r : AuditRecordData). concat (
                    r.encrypted_sender
                    ∷ r.encrypted_amount
                    ∷ r.provider
                    ∷ i64_bytes r.timestamp
                    ∷ []))
                  records)))

-- Another instruction of the transaction that calls the entry point `name` of this program on the same
-- vault, with arguments that are the same batch, the same chunk hash and items that have this hash.
pub record OtherHalf (p : Platform) (e : Env) {A : Type 0}
    (read_items : Bytes → Option (List A × Bytes)) (bytes_of : List A → Bytes) (name : Bytes)
    (w : Wanted) : Type 0 where
  pub current : ℕ
  pub at : ℕ
  pub ix : Instruction
  pub items : List A
  pub after_id : Bytes
  pub after_hash : Bytes
  pub rest : Bytes
  pub current_is : e.current_index ≡ some current
  pub other : at ≢ current
  pub ix_is : e.instruction_at at ≡ some ix
  pub of_program : ix.program_id ≡ p.program_id
  pub entry_point : take 8 ix.ix_data ≡ take 8 (p.sha256 name)
  pub id_read : p.read_u64 (drop 8 ix.ix_data) ≡ some (w.batch_id, after_id)
  pub hash_read : p.read_hash after_id ≡ some (w.batch_chunk_hash, after_hash)
  pub items_read : read_items after_hash ≡ some (items, rest)
  pub same_vault : get_elem? ix.accounts 1 ≡ some w.vault
  pub hash_is : p.sha256 (bytes_of items) ≡ w.batch_chunk_hash

module _ (p : Platform) (e : Env) {A : Type 0} (read_items : Bytes → Option (List A × Bytes))
    (bytes_of : List A → Bytes) (name : Bytes) (w : Wanted) where
  Paired-OtherHalf :
      (missing : ProgramError) (current i : ℕ)
      → e.current_index ≡ some current
      → Paired e
          (parse_instruction p read_items (instruction_discriminator p name))
          (λ items. p.sha256 (bytes_of items))
          w
          missing
          current
          i
      → OtherHalf p e read_items bytes_of name w
  Paired-OtherHalf missing current i now x =
      let parses = parse_instruction-Parses p read_items name x.ix x.parsed x.parsed_is in
      let (id, hash, vault) = is_wanted-parts w x.ix x.parsed x.wanted in
      record {
        current = current;
        at = x.at;
        ix = x.ix;
        items = x.parsed.items;
        after_id = parses.after_id;
        after_hash = parses.after_hash;
        rest = parses.rest;
        current_is = now;
        other = x.other;
        ix_is = x.ix_is;
        of_program = parses.of_program;
        entry_point = parses.entry_point;
        id_read = cc (parses.id_read, id);
        hash_read = cc (parses.hash_read, hash);
        items_read = parses.items_read;
        same_vault = vault;
        hash_is = x.hash_is;
      }

module _ (p : Platform) (e : Env) (w : Wanted) where
  -- When a settlement finds its audit, another instruction of the transaction calls `record_audit` of
  -- this program on the same vault for the same batch, with the same chunk hash, which is the hash of
  -- the batch, the settlements and that call's records.
  pub verify_record_audit_pairing-OtherHalf :
      (settlements : List SettlementEntry)
      → verify_record_audit_pairing p e w settlements ≡ ok tt
      → OtherHalf p e p.read_audit_records
          (chunk_bytes w.batch_id settlements)
          (ascii "global:record_audit")
          w
  unfolding verify_record_audit_pairing compute_batch_chunk_hash batch_chunk_preimage
  verify_record_audit_pairing-OtherHalf settlements h0 =
      on_ok_or e.current_index _ _ h0 λ current now h1.
        Paired-OtherHalf p e p.read_audit_records (chunk_bytes w.batch_id settlements)
          (ascii "global:record_audit") w (custom settle_vault_without_audit) current 0 now
          (search_pairing-Paired e _ _ w (custom settle_vault_without_audit) current 32 0 h1)

  -- When an audit finds its settlement, another instruction of the transaction, at an index other than
  -- the current one, calls `settle_vault` of this program on the same vault; its arguments are the same
  -- batch, the same chunk hash and settlements; and the chunk hash is the hash of the batch, these
  -- settlements and the audit's records.
  pub verify_settle_vault_pairing-OtherHalf :
      (records : List AuditRecordData)
      → verify_settle_vault_pairing p e w records ≡ ok tt
      → OtherHalf p e p.read_settlements
          (λ settlements. chunk_bytes w.batch_id settlements records)
          (ascii "global:settle_vault")
          w
  unfolding verify_settle_vault_pairing compute_batch_chunk_hash batch_chunk_preimage
  verify_settle_vault_pairing-OtherHalf records h0 =
      on_ok_or e.current_index _ _ h0 λ current now h1.
        Paired-OtherHalf p e p.read_settlements
          (λ settlements. chunk_bytes w.batch_id settlements records) (ascii "global:settle_vault")
          w (custom record_audit_without_settle) current 0 now
          (search_pairing-Paired e _ _ w (custom record_audit_without_settle) current 32 0 h1)
