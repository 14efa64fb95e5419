-- ===== src/Vault/Program/AuditCalls.antt =====
-- The audit call: it only creates audit records, at addresses that were free.
use privacy_x.Base.{
  ℕ, ◌≡◌, ◌∙◌, refl, sym, subst, Bytes, bytes_eq, ok, on_bind, on_require, ok-injective, Option,
  some, none, ℤ, List, [], ◌∷◌, length, leb, not, ◌&&◌, ◌==◌, Bool-cases, inl, inr, eq_of_bytes_eq,
}
use privacy_x.Vault.State.{
  Pubkey, AuditRecord, Account, audit_record, Chain, save, save_at, max_atomic_audits_per_tx,
}
use privacy_x.Vault.Platform.{Platform, Env, AuditRecordData, init_account, init_account-eq-ok}
use privacy_x.Vault.Settlement.{verify_settle_vault_pairing, settling_vault, before_exit}
use privacy_x.Vault.SettleVault.{is_empty}
use privacy_x.Vault.RecordAudit.{
  write_records, record_audit, resolve_audit_index, index_follows, next_index,
}
use privacy_x.Vault.Program.Evolution.{Evolves, ChainEvolves}

-- Every account is as it was, or it is an audit record at an address that was free.
pub data Written (a b : Option Account) : Type 0 where
  same : b ≡ a → Written a b
  created : (x : AuditRecord) → a ≡ none → b ≡ some (audit_record x) → Written a b

abbrev pub AllWritten : Chain → Chain → Type 0
AllWritten c c' = (k : Pubkey) → Written (c.accounts k) (c'.accounts k)

then-Written : {a b d : Option Account} → Written a b → Written b d → Written a d
then-Written (same e) (same e') = same (e' ∙ e)
then-Written (same e) (created x free new) = created x (sym e ∙ free) new
then-Written (created x free new) (same e) = created x free (e ∙ new)
then-Written (created x free new) (created y taken newer) = absurd (cc)

save-AllWritten :
    (c : Chain) (key : Pubkey) (x : AuditRecord)
    → c.accounts key ≡ none
    → AllWritten c (save c key (audit_record x))
save-AllWritten c key x free k = elim (Bool-cases (bytes_eq key k)) [
  | inl e ↦
      rw (save_at, e)
        (subst (λ j. Written (c.accounts j) (some (audit_record x))) (eq_of_bytes_eq key k e)
          (created x free refl))
  | inr e ↦ rw (save_at, e) (same refl)
]

module _ (p : Platform) (e : Env) (vault : Pubkey) (batch_id epoch : ℕ) where
  pub write_records-AllWritten :
      (records : List AuditRecordData) (accounts : List Pubkey) (next : Option ℕ) (c c' : Chain)
      → write_records p e vault batch_id epoch records accounts next c ≡ ok c'
      → AllWritten c c'
  unfolding write_records
  write_records-AllWritten [] accounts next c c' h k =
      subst (λ (d : Chain). Written (c.accounts k) (d.accounts k)) (ok-injective h) (same refl)
  write_records-AllWritten (r ∷ records) [] next c c' h k = absurd (cc)
  write_records-AllWritten (r ∷ records) (key ∷ accounts) next c c' h0 k =
      on_bind (resolve_audit_index p vault batch_id key) _ h0 λ i e0 h1.
        on_bind (index_follows next i.0) _ h1 λ u e1 h2.
          on_bind (init_account e c key) _ h2 λ u' e2 h3.
            then-Written (save-AllWritten c key _ (init_account-eq-ok e c key e2).0 k)
              (write_records-AllWritten records accounts (next_index i.0) _ c' h3 k)

module _ (p : Platform) (e : Env) where
  -- When an audit succeeds, every account is as it was, or it is an audit record at an address
  -- that was free.
  pub record_audit-AllWritten :
      (signer key : Pubkey) (remaining : List Pubkey) (batch_id : ℕ) (hash : Bytes)
      (records : List AuditRecordData) (c c' : Chain)
      → record_audit p e signer key remaining batch_id hash records c ≡ ok c'
      → AllWritten c c'
  unfolding record_audit
  record_audit-AllWritten signer key remaining batch_id hash records c c' h0 =
      on_bind (settling_vault e signer key c) _ h0 λ v e0 h1.
        on_require (not (is_empty records) && leb (length records) max_atomic_audits_per_tx) _ _ h1
          λ g1 h2. on_bind (before_exit e v) _ h2 λ u e2 h3.
            on_bind (verify_settle_vault_pairing p e _ records) _ h3 λ u' e3 h4.
              on_require (length remaining == length records) _ _ h4 λ g4 h5.
                write_records-AllWritten p e key batch_id v.auditor_epoch records remaining none c
                  c' h5

Written-Evolves : (now : ℤ) {a b : Option Account} → Written a b → Evolves now a b
Written-Evolves now (same e) = Evolves.same e
Written-Evolves now (created x free new) = Evolves.created (audit_record x) free new tt

pub record_audit-ChainEvolves :
    (p : Platform) (e : Env) (signer key : Pubkey) (remaining : List Pubkey) (batch_id : ℕ)
    (hash : Bytes) (records : List AuditRecordData) (c c' : Chain)
    → record_audit p e signer key remaining batch_id hash records c ≡ ok c'
    → ChainEvolves e.clock c c'
record_audit-ChainEvolves p e signer key remaining batch_id hash records c c' h k =
    Written-Evolves e.clock
      (record_audit-AllWritten p e signer key remaining batch_id hash records c c' h k)
