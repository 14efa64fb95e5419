-- ===== src/Vault/Settlement/Search.antt =====
-- The search for the other half of a batch, for any parser and any hash.
use privacy_x.Base.{
  ℕ, zero, suc, ◌+◌, ◌≤◌, ◌≡◌, ◌≢◌, refl, Bool, true, false, Bytes, eq_of_bytes_eq, Result, ok,
  ◌==◌, Option, some, none, List, arith, Option-cases, Bool-cases, inl, inr, require,
}
use privacy_x.Vault.Error.{ProgramError}
use privacy_x.Vault.Platform.{Env, Instruction}
use privacy_x.Vault.Settlement.{
  Parsed, Wanted, is_wanted, check_instruction, check_parsed, search_pairing,
}

module _ (e : Env) {A : Type 0} (parse : Instruction → Option (Parsed A)) (hash : List A → Bytes)
    (w : Wanted) (missing : ProgramError) (current_index : ℕ) where
  -- Another instruction of the transaction, from index `i` on, that is the wanted half and whose
  -- items have the wanted hash.
  pub record Paired (i : ℕ) : Type 0 where
    pub at : ℕ
    pub ix : Instruction
    pub parsed : Parsed A
    pub after : i ≤ at
    pub other : at ≢ current_index
    pub ix_is : e.instruction_at at ≡ some ix
    pub parsed_is : parse ix ≡ some parsed
    pub wanted : is_wanted w ix parsed ≡ true
    pub hash_is : hash parsed.items ≡ w.batch_chunk_hash

  later : (i : ℕ) → Paired (i + 1) → Paired i
  later i x = record {
    at = x.at;
    ix = x.ix;
    parsed = x.parsed;
    after = omega (arith, x.after);
    other = x.other;
    ix_is = x.ix_is;
    parsed_is = x.parsed_is;
    wanted = x.wanted;
    hash_is = x.hash_is;
  }

  require_ok : (t : Bool) (x : ProgramError) → require t x ≡ ok tt → t ≡ true
  require_ok true x h = refl
  require_ok false x h = cc

  from_parsed :
      (i : ℕ) (ix : Instruction) (o : Option (Parsed A)) (next : Result ProgramError (Unit {0}))
      → i ≢ current_index
      → e.instruction_at i ≡ some ix
      → parse ix ≡ o
      → (next ≡ ok tt → Paired (i + 1))
      → check_parsed e parse hash w missing current_index ix o next ≡ ok tt
      → Paired i
  unfolding check_parsed
  from_parsed i ix none next ne at p ih h = later i (ih h)
  from_parsed i ix (some parsed) next ne at p ih h = elim (Bool-cases (is_wanted w ix parsed)) [
    | inl wanted ↦ record {
      at = i;
      ix = ix;
      parsed = parsed;
      after = omega arith;
      other = ne;
      ix_is = at;
      parsed_is = p;
      wanted = wanted;
      hash_is =
          eq_of_bytes_eq (hash parsed.items) w.batch_chunk_hash (require_ok _ _ (rw wanted at h));
    }
    | inr unwanted ↦ later i (ih (rw unwanted at h))
  ]

  pub search_pairing-Paired :
      (rounds i : ℕ)
      → search_pairing e parse hash w missing current_index rounds i ≡ ok tt
      → Paired i
  unfolding search_pairing check_instruction
  search_pairing-Paired zero i h = absurd (cc)
  search_pairing-Paired (suc n) i h = elim (Bool-cases (i == current_index)) [
    | inl skip ↦ later i (search_pairing-Paired n (i + 1) (rw skip at h))
    | inr look ↦ elim (Option-cases (e.instruction_at i)) [
      | inl over ↦ absurd (ground arith)
      | inr (ix, at) ↦
          from_parsed i ix (parse ix)
            (search_pairing e parse hash w missing current_index n (i + 1)) (ground arith) at refl
            (search_pairing-Paired n (i + 1)) (rw (look, at, check_instruction) at h)
    ]
  ]
