-- ===== src/Vault/Program/Books.antt =====
-- The vault's books: its balance against its lifetime totals, through the calls that move its money.
use privacy_x.Base.{ℕ, ◌+◌, ◌≡◌, ◌≢◌, sym, ◌∙◌, subst, ok, some, List, arith}
use privacy_x.Vault.State.{
  Pubkey, VaultConfig, vault_config, used_withdraw_nonce, Chain, save, save_self,
}
use privacy_x.Vault.Platform.{Platform, Env, SettlementEntry, TransferLaws, balance}
use privacy_x.Vault.Funds.{DepositAccounts, WithdrawAccounts}
use privacy_x.Vault.Program.{Call, execute}
use privacy_x.Vault.Program.DepositCall.{Deposited, deposit-Deposited, deposit_transfer}
use privacy_x.Vault.Program.WithdrawCall.{Withdrawn, withdraw-Withdrawn, withdraw_transfer}
use privacy_x.Vault.Program.Permanent.{nonce_address, nonce_record}
use privacy_x.Vault.Program.SettleCall.{
  Settled, settle_vault-Settled, total_amount, IsApart, pay_entries_moves,
}

-- A deposit into the vault, a withdrawal from it or a settlement by it, whose other side is not the
-- vault's own token account.
abbrev pub IsTrade : (vault vault_token : Pubkey) → Call → Type 0
IsTrade k t (Call.deposit a amount) = (a.vault_config ≡ k) × (a.client_token_account ≢ t)
IsTrade k t (Call.withdraw a amount nonce expires_at) =
    (a.vault_config ≡ k) × (a.client_token_account ≢ t)
IsTrade k t (Call.settle_vault s v vault_token remaining id hash entries) =
    (v ≡ k) × IsApart t entries
IsTrade k t (Call.initialize_vault g m id s a h) = ⊥
IsTrade k t (Call.record_audit s v remaining id hash records) = ⊥
IsTrade k t (Call.asc_close_claim caller v channel request) = ⊥
IsTrade k t (Call.pause_vault g v) = ⊥
IsTrade k t (Call.announce_migration g v successor deadline) = ⊥
IsTrade k t (Call.retire_vault g v) = ⊥
IsTrade k t (Call.rotate_auditor g v key) = ⊥
IsTrade k t (Call.force_settle_init participant v kind r) = ⊥
IsTrade k t (Call.force_settle_challenge challenger v key r) = ⊥
IsTrade k t (Call.force_settle_finalize caller v key token r) = ⊥

-- The balance and the totals moved together.
pub record Booked (k : Pubkey) (v : VaultConfig) (c c' : Chain) : Type 0 where
  pub config' : VaultConfig
  pub config_at : c'.accounts k ≡ some (vault_config config')
  pub books :
      balance c'.tokens v.vault_token_account
        + config'.lifetime_withdrawn
        + config'.lifetime_settled
        + v.lifetime_deposited
      ≡ balance c.tokens v.vault_token_account
        + v.lifetime_withdrawn
        + v.lifetime_settled
        + config'.lifetime_deposited

module _ (p : Platform) (e : Env) (laws : TransferLaws p) (k : Pubkey) (c c' : Chain) where
  deposit-Booked :
      (a : DepositAccounts) (amount : ℕ)
      → a.vault_config ≡ k
      → (o : Deposited p e a amount c c') → a.client_token_account ≢ o.config.vault_token_account
      → Booked k o.config c c'
  unfolding save
  deposit-Booked a amount key o apart =
      let x = deposit_transfer a amount in
      let away : a.client_token_account ≢ a.vault_token_account = λ q. apart (q ∙ o.into_vault) in
      let credit : balance o.tokens o.config.vault_token_account
          ≡ balance c.tokens o.config.vault_token_account + amount =
        subst (λ t. balance o.tokens t ≡ balance c.tokens t + amount) o.into_vault
          (laws.credits c.tokens o.tokens x o.moved away) in
      subst (λ j. Booked j o.config c c') key
        (subst (Booked a.vault_config o.config c) (sym o.after) (record {
          config' = record o.config { lifetime_deposited = o.config.lifetime_deposited + amount };
          config_at = save_self (record c { tokens = o.tokens }) a.vault_config _;
          books = omega arith;
        }))

  withdraw-Booked :
      (a : WithdrawAccounts) (amount nonce : ℕ) (expires_at : _)
      → a.vault_config ≡ k
      → (o : Withdrawn p e a amount nonce expires_at c c')
      → a.client_token_account ≢ o.config.vault_token_account
      → Booked k o.config c c'
  unfolding save
  withdraw-Booked a amount nonce expires_at key o apart =
      let x = withdraw_transfer a o.config amount in
      let away : a.vault_token_account ≢ a.client_token_account =
        λ q. apart (sym q ∙ o.from_vault) in
      let debit : balance o.tokens o.config.vault_token_account + amount
          ≡ balance c.tokens o.config.vault_token_account =
        subst (λ t. balance o.tokens t + amount ≡ balance c.tokens t) o.from_vault
          (let d = laws.debits c.tokens o.tokens x o.moved away in
            let f = laws.funded c.tokens o.tokens x o.moved in omega arith) in
      subst (λ j. Booked j o.config c c') key
        (subst (Booked a.vault_config o.config c) (sym o.after) (record {
          config' = record o.config { lifetime_withdrawn = o.config.lifetime_withdrawn + amount };
          config_at =
              save_self
                (save (record c { tokens = o.tokens }) (nonce_address p a nonce)
                  (used_withdraw_nonce (nonce_record p a nonce)))
                a.vault_config _;
          books = omega arith;
        }))

  settle-Booked :
      (s v t : Pubkey) (remaining : List Pubkey) (id : ℕ) (hash : _)
      (entries : List SettlementEntry)
      → v ≡ k
      → (o : Settled p e s v t remaining id hash entries c c')
      → IsApart o.config.vault_token_account entries
      → Booked k o.config c c'
  unfolding save
  settle-Booked s v t remaining id hash entries key o apart =
      let apart' : IsApart t entries = subst (λ j. IsApart j entries) (sym o.from_vault) apart in
      let moves =
        pay_entries_moves p o.config v t laws entries remaining c.tokens o.tokens 0 _ o.paid
          apart' in
      let debit : balance o.tokens o.config.vault_token_account + total_amount entries
          ≡ balance c.tokens o.config.vault_token_account =
        subst (λ j. balance o.tokens j + total_amount entries ≡ balance c.tokens j) o.from_vault
          moves.0 in
      subst (λ j. Booked j o.config c c') key
        (subst (Booked v o.config c) (sym o.after) (record {
          config' = record o.config {
            lifetime_settled = o.config.lifetime_settled + total_amount entries;
          };
          config_at = save_self (record c { tokens = o.tokens }) v _;
          books = omega arith;
        }))

-- A deposit, a withdrawal or a settlement that succeeds keeps the vault's books, under the token
-- program's laws and with the vault's own token account not on the other side: its balance plus what
-- it has withdrawn and settled in its lifetime grows by exactly what its deposits grow.
pub trade-Booked :
    (p : Platform) (e : Env) (x : Call) (k : Pubkey) (v : VaultConfig) (c c' : Chain)
    → TransferLaws p
    → c.accounts k ≡ some (vault_config v)
    → IsTrade k v.vault_token_account x
    → execute p e x c ≡ ok c'
    → Booked k v c c'
unfolding execute
trade-Booked p e (Call.deposit a amount) k v c c' laws at trade h =
    let o = deposit-Deposited p e a amount c c' h in
    let there = o.config_at in
    let key = trade.0 in
    let eq : o.config ≡ v = cc in
    subst (λ u. Booked k u c c') eq
      (deposit-Booked p e laws k c c' a amount key o (
        subst (λ (u : VaultConfig). a.client_token_account ≢ u.vault_token_account) (sym eq)
          trade.1))
trade-Booked p e (Call.withdraw a amount nonce expires_at) k v c c' laws at trade h =
    let o = withdraw-Withdrawn p e a amount nonce expires_at c c' h in
    let there = o.config_at in
    let key = trade.0 in
    let eq : o.config ≡ v = cc in
    subst (λ u. Booked k u c c') eq
      (withdraw-Booked p e laws k c c' a amount nonce expires_at key o (
        subst (λ (u : VaultConfig). a.client_token_account ≢ u.vault_token_account) (sym eq)
          trade.1))
trade-Booked p e (Call.settle_vault s j t remaining id hash entries) k v c c' laws at trade h =
    let o = settle_vault-Settled p e s j t remaining id hash entries c c' h in
    let there = o.config_at in
    let key = trade.0 in
    let eq : o.config ≡ v = cc in
    subst (λ u. Booked k u c c') eq
      (settle-Booked p e laws k c c' s j t remaining id hash entries key o
        (subst (λ (u : VaultConfig). IsApart u.vault_token_account entries) (sym eq) trade.1))
trade-Booked p e (Call.initialize_vault g m id s a h) k v c c' laws at trade eq = absurd trade
trade-Booked p e (Call.record_audit s j remaining id hash records) k v c c' laws at trade eq =
    absurd trade
trade-Booked p e (Call.asc_close_claim caller j channel request) k v c c' laws at trade eq =
    absurd trade
trade-Booked p e (Call.pause_vault g j) k v c c' laws at trade eq = absurd trade
trade-Booked p e (Call.announce_migration g j s d) k v c c' laws at trade eq = absurd trade
trade-Booked p e (Call.retire_vault g j) k v c c' laws at trade eq = absurd trade
trade-Booked p e (Call.rotate_auditor g j key) k v c c' laws at trade eq = absurd trade
trade-Booked p e (Call.force_settle_init a j kind r) k v c c' laws at trade eq = absurd trade
trade-Booked p e (Call.force_settle_challenge a j q r) k v c c' laws at trade eq = absurd trade
trade-Booked p e (Call.force_settle_finalize a j q t r) k v c c' laws at trade eq = absurd trade
