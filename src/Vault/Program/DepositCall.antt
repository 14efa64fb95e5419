-- ===== src/Vault/Program/DepositCall.antt =====
-- A deposit: what it has checked and done when it succeeds.
use privacy_x.Base.{
  ℕ, ◌+◌, ◌<◌, ◌≡◌, bytes_eq, eq_of_bytes_eq, ok, on_bind, on_ok_or, on_require, ◌==◌, some, true,
  arith, checked_add, checked_add-eq-some, ltb, ltb→lt, [], u64_mod,
}
use privacy_x.Vault.State.{
  VaultConfig, vault_config, TokenAccount, Tokens, Chain, save, load_vault_config,
  load_vault_config-eq-ok, load_token_account, load_token_account-eq-ok, vault_status_active,
}
use privacy_x.Vault.Platform.{Platform, Env, TokenTransfer}
use privacy_x.Vault.Funds.{deposit, DepositAccounts}

abbrev pub deposit_transfer : DepositAccounts → ℕ → TokenTransfer
deposit_transfer a amount = record {
  from = a.client_token_account;
  to = a.vault_token_account;
  authority = a.client;
  signer_seeds = [];
  amount = amount;
}

-- A deposit that went through.
pub record Deposited (p : Platform) (e : Env) (a : DepositAccounts) (amount : ℕ) (c c' : Chain)
    : Type 0 where
  pub config : VaultConfig
  pub tokens : Tokens
  pub client_token : TokenAccount
  pub config_at : c.accounts a.vault_config ≡ some (vault_config config)
  pub active : config.status ≡ vault_status_active
  pub signed : e.is_signer a.client ≡ true
  pub positive : 0 < amount
  pub client_token_at : c.tokens a.client_token_account ≡ some client_token
  pub right_mint : client_token.mint ≡ config.usdc_mint
  pub owned : client_token.owner ≡ a.client
  pub into_vault : a.vault_token_account ≡ config.vault_token_account
  pub moved : p.token_transfer c.tokens (deposit_transfer a amount) ≡ some tokens
  pub no_overflow : config.lifetime_deposited + amount < u64_mod
  pub after :
      c'
      ≡ save
          (record c { tokens = tokens })
          a.vault_config
          (vault_config (record config { lifetime_deposited = config.lifetime_deposited + amount }))

-- A deposit that succeeds was signed by the client, into an active vault, of a positive amount,
-- out of an account of the client's with the vault's mint into the vault's token account; it
-- writes back only the vault, with its lifetime total raised by the amount, without overflow.
pub deposit-Deposited :
    (p : Platform) (e : Env) (a : DepositAccounts) (amount : ℕ) (c c' : Chain)
    → deposit p e a amount c ≡ ok c'
    → Deposited p e a amount c c'
unfolding deposit
deposit-Deposited p e a amount c c' h0 = on_require (e.is_signer a.client) _ _ h0 λ g0 h1.
    on_bind (load_vault_config c a.vault_config) _ h1 λ v e1 h2.
      on_bind (load_token_account c a.client_token_account) _ h2 λ ct e2 h3.
        on_bind (load_token_account c a.vault_token_account) _ h3 λ vt e3 h4.
          on_require (v.status == vault_status_active) _ _ h4 λ g4 h5.
            on_require (bytes_eq ct.mint v.usdc_mint) _ _ h5 λ g5 h6.
              on_require (bytes_eq ct.owner a.client) _ _ h6 λ g6 h7.
                on_require (bytes_eq a.vault_token_account v.vault_token_account) _ _ h7 λ g7 h8.
                  on_require (ltb 0 amount) _ _ h8 λ g8 h9.
                    on_ok_or (p.token_transfer c.tokens (deposit_transfer a amount)) _ _ h9
                      λ t e9 h10.
                        on_ok_or (checked_add v.lifetime_deposited amount) _ _ h10 λ n e10 h11.
                          let (sum, fits) = checked_add-eq-some v.lifetime_deposited amount e10 in
                          record {
                            config = v;
                            tokens = t;
                            client_token = ct;
                            config_at = load_vault_config-eq-ok c a.vault_config e1;
                            active = ground arith;
                            signed = g0;
                            positive = ltb→lt 0 amount g8;
                            client_token_at = load_token_account-eq-ok c a.client_token_account e2;
                            right_mint = eq_of_bytes_eq ct.mint v.usdc_mint g5;
                            owned = eq_of_bytes_eq ct.owner a.client g6;
                            into_vault =
                                eq_of_bytes_eq a.vault_token_account v.vault_token_account g7;
                            moved = e9;
                            no_overflow = fits;
                            after = cc;
                          }
