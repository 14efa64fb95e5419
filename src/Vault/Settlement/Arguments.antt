-- ===== src/Vault/Settlement/Arguments.antt =====
-- What an instruction that parses as a half of a batch holds.
use privacy_x.Base.{
  ◌≡◌, ap, subst, true, ◌&&◌, ◌||◌, not, Bytes, bytes_eq, eq_of_bytes_eq, ◌==◌, ==_iff, Option,
  some, List, [], ◌∷◌, take, drop, length, get_elem?, ltb, arith, Option-cases, Bool-cases, inl,
  inr, and_true,
}
use privacy_x.Vault.State.{Pubkey}
use privacy_x.Vault.Platform.{Platform, Instruction}
use privacy_x.Vault.Settlement.{
  Parsed, Wanted, is_wanted, names_vault, parse_instruction, instruction_discriminator,
  parse_arguments,
}

second_is :
    (vault : Pubkey) (ks : List Pubkey) → names_vault vault ks ≡ true → get_elem? ks 1 ≡ some vault
unfolding names_vault
second_is vault [] h = cc
second_is vault (k ∷ []) h = cc
second_is vault (k ∷ l ∷ ks) h = ap some (eq_of_bytes_eq l vault h)

pub is_wanted-parts :
    {A : Type 0} (w : Wanted) (ix : Instruction) (parsed : Parsed A)
    → is_wanted w ix parsed ≡ true
    → (parsed.batch_id ≡ w.batch_id)
      × (parsed.batch_chunk_hash ≡ w.batch_chunk_hash)
      × (get_elem? ix.accounts 1 ≡ some w.vault)
unfolding is_wanted names_vault
is_wanted-parts w ix parsed h =
    let (same, named) =
      and_true
        (parsed.batch_id == w.batch_id && bytes_eq parsed.batch_chunk_hash w.batch_chunk_hash)
        (names_vault w.vault ix.accounts) h in
    let (same_id, same_hash) =
      and_true (parsed.batch_id == w.batch_id) (bytes_eq parsed.batch_chunk_hash w.batch_chunk_hash)
        same in
    (
      (==_iff parsed.batch_id w.batch_id).0 same_id,
      eq_of_bytes_eq parsed.batch_chunk_hash w.batch_chunk_hash same_hash,
      second_is w.vault ix.accounts named,
    )

module _ (p : Platform) {A : Type 0} (read_items : Bytes → Option (List A × Bytes)) where
  -- An instruction that parses: whose it is, and what its data reads as.
  pub record Parses (name : Bytes) (ix : Instruction) (parsed : Parsed A) : Type 0 where
    pub after_id : Bytes
    pub after_hash : Bytes
    pub rest : Bytes
    pub of_program : ix.program_id ≡ p.program_id
    pub entry_point : take 8 ix.ix_data ≡ take 8 (p.sha256 name)
    pub id_read : p.read_u64 (drop 8 ix.ix_data) ≡ some (parsed.batch_id, after_id)
    pub hash_read : p.read_hash after_id ≡ some (parsed.batch_chunk_hash, after_hash)
    pub items_read : read_items after_hash ≡ some (parsed.items, rest)

  read_arguments :
      (name : Bytes) (ix : Instruction) (parsed : Parsed A)
      → ix.program_id ≡ p.program_id
      → take 8 ix.ix_data ≡ take 8 (p.sha256 name)
      → parse_arguments p read_items (drop 8 ix.ix_data) ≡ some parsed
      → Parses name ix parsed
  unfolding parse_arguments
  read_arguments name ix parsed ours named h =
      elim (Option-cases (p.read_u64 (drop 8 ix.ix_data))) [
        | inl no_id ↦ absurd (cc (rw (no_id, parse_arguments) at h))
        | inr ((id, after_id), id_read) ↦
            let h1 = rw (id_read, parse_arguments) at h in
            elim (Option-cases (p.read_hash after_id)) [
              | inl no_hash ↦ absurd (cc (rw no_hash at h1))
              | inr ((hash, after_hash), hash_read) ↦
                  let h2 = rw hash_read at h1 in
                  elim (Option-cases (read_items after_hash)) [
                    | inl no_items ↦ absurd (cc (rw no_items at h2))
                    | inr ((items, rest), items_read) ↦
                        let h3 = rw items_read at h2 in
                        subst (Parses name ix) (cc (h3)) (record {
                          after_id = after_id;
                          after_hash = after_hash;
                          rest = rest;
                          of_program = ours;
                          entry_point = named;
                          id_read = id_read;
                          hash_read = hash_read;
                          items_read = items_read;
                        })
                  ]
            ]
      ]

  pub parse_instruction-Parses :
      (name : Bytes) (ix : Instruction) (parsed : Parsed A)
      → parse_instruction p read_items (instruction_discriminator p name) ix ≡ some parsed
      → Parses name ix parsed
  unfolding parse_instruction instruction_discriminator
  parse_instruction-Parses name ix parsed h =
      let other = not (bytes_eq ix.program_id p.program_id) in
      let short = ltb (length ix.ix_data) 48 in
      let misnamed = not (bytes_eq (take 8 ix.ix_data) (take 8 (p.sha256 name))) in
      elim (Bool-cases (other || short || misnamed)) [
        | inl skip ↦ absurd (cc (rw skip at h))
        | inr read ↦
            read_arguments name ix parsed
              (eq_of_bytes_eq ix.program_id p.program_id (ground (arith, read)))
              (eq_of_bytes_eq (take 8 ix.ix_data) (take 8 (p.sha256 name)) (ground (arith, read)))
              (rw read at h)
      ]
