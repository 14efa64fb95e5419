-- ===== src/Vault/Program/SettleCall.antt =====
-- A settlement: what it has checked and paid when it succeeds.
use privacy_x.Base.{
  ℕ, ◌+◌, ◌≤◌, ◌<◌, ◌≡◌, ◌≢◌, sym, ap, ◌∙◌, subst, true, ◌||◌, not, Bytes, bytes_eq, eq_of_bytes_eq,
  ok, on_bind, on_ok_or, on_require, ok-injective, ◌==◌, ==_iff, some, ◌≤ℤ◌, leb_ℤ→≤ℤ, arith,
  checked_add, checked_add-eq-some, ltb, ltb→lt, leb, leb→le, List, [], ◌∷◌, length, inl, inr, ◌⊎◌,
  Bool-cases, bytes_eq_of_eq, u64_mod, if◌then◌else◌,
}
use privacy_x.Vault.State.{
  Pubkey, VaultConfig, vault_config, Tokens, Chain, save, load_vault_config,
  load_vault_config-eq-ok, load_token_account, vault_status_active, vault_status_migrating,
  max_settlements_per_tx,
}
use privacy_x.Vault.Platform.{Platform, Env, SettlementEntry, TransferLaws, balance, balance_of_eq}
use privacy_x.Vault.Governance.{when-eq-ok}
use privacy_x.Vault.AscClaim.{ascii}
use privacy_x.Vault.Settlement.Pairing.{
  OtherHalf, chunk_bytes, verify_record_audit_pairing-OtherHalf,
}
use privacy_x.Vault.Settlement.{verify_record_audit_pairing, settling_vault, before_exit}
use privacy_x.Vault.SettleVault.{settle_vault, pay_entries, entry_transfer, is_empty}

-- What the entries add up to, and what they pay to one account.
abbrev pub total_amount : List SettlementEntry → ℕ
total_amount [] = 0
total_amount (x ∷ xs) = x.amount + total_amount xs

abbrev pub paid_to : Pubkey → List SettlementEntry → ℕ
paid_to k [] = 0
paid_to k (x ∷ xs) = (if bytes_eq x.provider_token_account k then x.amount else 0) + paid_to k xs

-- No entry names this account.
abbrev pub IsApart : Pubkey → List SettlementEntry → Type 0
IsApart k [] = Unit
IsApart k (x ∷ xs) = (x.provider_token_account ≢ k) × IsApart k xs

-- Every amount is positive, and the remaining accounts are those of the entries, in order.
abbrev pub ArePayable : List SettlementEntry → List Pubkey → Type 0
ArePayable [] accounts = Unit
ArePayable (x ∷ xs) [] = ⊥
ArePayable (x ∷ xs) (k ∷ ks) = (0 < x.amount) × (k ≡ x.provider_token_account) × ArePayable xs ks

module _ (p : Platform) (config : VaultConfig) (vault vault_token : Pubkey) where
  -- The loop returns the running total plus the sum of the entries, without overflow.
  pub pay_entries_total :
      (entries : List SettlementEntry) (accounts : List Pubkey) (t t' : Tokens) (total total' : ℕ)
      → pay_entries p config vault vault_token entries accounts t total ≡ ok (t', total')
      → (total' ≡ total + total_amount entries) × ArePayable entries accounts
  unfolding pay_entries
  pay_entries_total [] accounts t t' total total' h = (ground arith, tt)
  pay_entries_total (x ∷ xs) [] t t' total total' h = ground arith
  pay_entries_total (x ∷ xs) (k ∷ ks) t t' total total' h0 =
      on_require (ltb 0 x.amount) _ _ h0 λ g0 h1.
        on_require (bytes_eq k x.provider_token_account) _ _ h1 λ g1 h2.
          on_ok_or (p.token_transfer t (entry_transfer config vault vault_token k x.amount)) _ _ h2
            λ t1 e2 h3. on_ok_or (checked_add total x.amount) _ _ h3 λ n e3 h4.
              let (rest, payable) = pay_entries_total xs ks t1 t' n total' h4 in
              let (sum, fits) = checked_add-eq-some total x.amount e3 in
              (
                omega arith,
                (ltb→lt 0 x.amount g0, eq_of_bytes_eq k x.provider_token_account g1, payable),
              )

  -- When the loop over the settlements succeeds, under the token program's laws and with no entry
  -- naming the vault's token account, that account loses exactly the sum of the entries, and every
  -- other account gains exactly what the entries name for it.
  pub pay_entries_moves :
      TransferLaws p
      → (entries : List SettlementEntry) (accounts : List Pubkey) (t t' : Tokens) (total total' : ℕ)
      → pay_entries p config vault vault_token entries accounts t total ≡ ok (t', total')
      → IsApart vault_token entries
      → (balance t' vault_token + total_amount entries ≡ balance t vault_token)
        × ((k : Pubkey) → k ≢ vault_token → balance t' k ≡ balance t k + paid_to k entries)
  unfolding pay_entries
  pay_entries_moves laws [] accounts t t' total total' h apart =
      let same : t ≡ t' = ap (λ (r : Tokens × ℕ). r.0) (ok-injective h) in
      rw (← same) (omega arith, λ k ne. omega arith)
  pay_entries_moves laws (x ∷ xs) [] t t' total total' h apart = absurd (cc)
  pay_entries_moves laws (x ∷ xs) (k ∷ ks) t t' total total' h0 apart =
      on_require (ltb 0 x.amount) _ _ h0 λ g0 h1.
        on_require (bytes_eq k x.provider_token_account) _ _ h1 λ g1 h2.
          on_ok_or (p.token_transfer t (entry_transfer config vault vault_token k x.amount)) _ _ h2
            λ t1 e2 h3. on_ok_or (checked_add total x.amount) _ _ h3 λ n e3 h4.
              let key : k ≡ x.provider_token_account =
                eq_of_bytes_eq k x.provider_token_account g1 in
              let other : vault_token ≢ k = λ e. apart.0 (sym key ∙ sym e) in
              let debit =
                laws.debits t t1 (entry_transfer config vault vault_token k x.amount) e2 other in
              let credit =
                laws.credits t t1 (entry_transfer config vault vault_token k x.amount) e2 other in
              let funded =
                laws.funded t t1 (entry_transfer config vault vault_token k x.amount) e2 in
              let (rest, each) = pay_entries_moves laws xs ks t1 t' n total' h4 apart.1 in
              (
                omega arith,
                λ j ne. elim (Bool-cases (bytes_eq x.provider_token_account j)) [
                  | inl same ↦
                      let here : k ≡ j = key ∙ eq_of_bytes_eq x.provider_token_account j same in
                      let credited : balance t1 j ≡ balance t j + x.amount =
                        subst (λ i. balance t1 i ≡ balance t i + x.amount) here credit in
                      rw same (omega (arith, each j ne))
                  | inr differs ↦
                      let away : j ≢ k =
                        λ e. cc (bytes_eq_of_eq x.provider_token_account j (sym key ∙ sym e)) in
                      let kept = balance_of_eq t t1 j (laws.leaves_others t t1 _ j e2 ne away) in
                      rw differs (omega (arith, each j ne))
                ],
              )

-- A settlement that went through.
pub record Settled (p : Platform) (e : Env) (signer key vault_token : Pubkey)
    (remaining : List Pubkey) (batch_id : ℕ) (hash : Bytes) (entries : List SettlementEntry)
    (c c' : Chain) : Type 0 where
  pub config : VaultConfig
  pub tokens : Tokens
  pub config_at : c.accounts key ≡ some (vault_config config)
  pub signed : e.is_signer signer ≡ true
  pub by_vault_signer : config.vault_signer_pubkey ≡ signer
  pub status :
      (config.status ≡ vault_status_active)
      ⊎ ((config.status ≡ vault_status_migrating) × (e.clock ≤ℤ config.exit_deadline))
  pub from_vault : vault_token ≡ config.vault_token_account
  pub at_most : length entries ≤ max_settlements_per_tx
  pub audited :
      OtherHalf p e p.read_audit_records
        (chunk_bytes batch_id entries)
        (ascii "global:record_audit")
        (record { batch_id = batch_id; batch_chunk_hash = hash; vault = key })
  pub payable : ArePayable entries remaining
  pub paid :
      pay_entries p config key vault_token entries remaining c.tokens 0
      ≡ ok (tokens, total_amount entries)
  pub no_overflow : config.lifetime_settled + total_amount entries < u64_mod
  pub after :
      c'
      ≡ save
          (record c { tokens = tokens })
          key
          (vault_config
            (record config { lifetime_settled = config.lifetime_settled + total_amount entries }))

-- The signer, the vault and its status.
pub settling_vault-eq-ok :
    (e : Env) (signer key : Pubkey) (c : Chain) {v : VaultConfig}
    → settling_vault e signer key c ≡ ok v
    → (c.accounts key ≡ some (vault_config v))
      × (e.is_signer signer ≡ true)
      × (v.vault_signer_pubkey ≡ signer)
      × ((v.status ≡ vault_status_active) ⊎ (v.status ≡ vault_status_migrating))
unfolding settling_vault
settling_vault-eq-ok e signer key c {v} h0 = on_require (e.is_signer signer) _ _ h0 λ g0 h1.
    on_bind (load_vault_config c key) _ h1 λ w e1 h2.
      on_require (bytes_eq w.vault_signer_pubkey signer) _ _ h2 λ g2 h3.
        on_require (w.status == vault_status_active || w.status == vault_status_migrating) _ _ h3
          λ g3 h4.
            subst
              (λ (u : VaultConfig).
                (c.accounts key ≡ some (vault_config u))
                × (e.is_signer signer ≡ true)
                × (u.vault_signer_pubkey ≡ signer)
                × ((u.status ≡ vault_status_active) ⊎ (u.status ≡ vault_status_migrating)))
              (ok-injective h4)
              (
                load_vault_config-eq-ok c key e1,
                g0,
                eq_of_bytes_eq w.vault_signer_pubkey signer g2,
                ground (arith, g3),
              )

-- An active vault, or a migrating one before its exit deadline.
pub before_exit-in_time :
    (e : Env) (v : VaultConfig)
    → (v.status ≡ vault_status_active) ⊎ (v.status ≡ vault_status_migrating)
    → before_exit e v ≡ ok tt
    → (v.status ≡ vault_status_active)
      ⊎ ((v.status ≡ vault_status_migrating) × (e.clock ≤ℤ v.exit_deadline))
unfolding before_exit
before_exit-in_time e v (inl active) h = inl active
before_exit-in_time e v (inr migrating) h = inr (
  migrating,
  leb_ℤ→≤ℤ e.clock v.exit_deadline (
      when-eq-ok (v.status == vault_status_migrating) _ _ h
        ((==_iff v.status vault_status_migrating).1 migrating)),
)

module _ (p : Platform) (e : Env) (signer key vault_token : Pubkey) (remaining : List Pubkey)
    (batch_id : ℕ) (hash : Bytes) (entries : List SettlementEntry) (c c' : Chain) where
  pub settle_vault-Settled :
      settle_vault p e signer key vault_token remaining batch_id hash entries c ≡ ok c'
      → Settled p e signer key vault_token remaining batch_id hash entries c c'
  unfolding settle_vault
  settle_vault-Settled h0 = on_bind (settling_vault e signer key c) _ h0 λ v e0 h1.
      on_bind (load_token_account c vault_token) _ h1 λ vt e1 h2.
        on_require (bytes_eq vault_token v.vault_token_account) _ _ h2 λ g2 h3.
          on_require (leb (length entries) max_settlements_per_tx) _ _ h3 λ g3 h4.
            on_require (not (is_empty entries)) _ _ h4 λ g4 h5.
              on_bind (before_exit e v) _ h5 λ u e5 h6.
                on_bind
                  (verify_record_audit_pairing p e
                    (record { batch_id = batch_id; batch_chunk_hash = hash; vault = key }) entries)
                  _ h6
                  λ u' e6 h7. on_require (length remaining == length entries) _ _ h7 λ g7 h8.
                    on_bind (pay_entries p v key vault_token entries remaining c.tokens 0) _ h8
                      λ r e8 h9. on_ok_or (checked_add v.lifetime_settled r.1) _ _ h9 λ n e9 h10.
                        let (loaded, signed, by, status) = settling_vault-eq-ok e signer key c e0 in
                        let (total, payable) =
                          pay_entries_total p v key vault_token entries remaining c.tokens r.0 0 r.1
                            e8 in
                        let all : r.1 ≡ total_amount entries = omega arith in
                        let (sum, fits) = checked_add-eq-some v.lifetime_settled r.1 e9 in
                        record {
                          config = v;
                          tokens = r.0;
                          config_at = loaded;
                          signed = signed;
                          by_vault_signer = by;
                          status = before_exit-in_time e v status e5;
                          from_vault = eq_of_bytes_eq vault_token v.vault_token_account g2;
                          at_most = leb→le (length entries) max_settlements_per_tx g3;
                          audited = verify_record_audit_pairing-OtherHalf p e _ entries e6;
                          payable = payable;
                          paid = e8 ∙ ap (λ n'. ok (r.0, n')) all;
                          no_overflow = omega arith;
                          after = cc;
                        }
