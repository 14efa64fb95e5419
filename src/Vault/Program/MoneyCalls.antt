-- ===== src/Vault/Program/MoneyCalls.antt =====
-- The calls that set up a vault or move its tokens: the accounts change as they may.
use privacy_x.Base.{
  ℕ, ◌≡◌, refl, sym, ap, subst, Bytes, ok, on_bind, on_require, ok-injective, Option, ℤ, List,
  arith,
}
use privacy_x.Vault.State.{Pubkey, Account, Chain}
use privacy_x.Vault.Platform.{Platform, Env, SettlementEntry, init_account, init_account-eq-ok}
use privacy_x.Vault.Funds.{
  initialize_vault, deposit, withdraw, DepositAccounts, WithdrawAccounts, vault_config_seeds,
  withdraw_nonce_seeds,
}
use privacy_x.Vault.SettleVault.{settle_vault}
use privacy_x.Vault.Program.Evolution.{
  Evolves, ChainEvolves, StatusStep, save-Evolves, save_two-Evolves, saved,
}
use privacy_x.Vault.Program.DepositCall.{deposit-Deposited}
use privacy_x.Vault.Program.WithdrawCall.{withdraw-Withdrawn}
use privacy_x.Vault.Program.SettleCall.{settle_vault-Settled}

pub initialize_vault-ChainEvolves :
    (p : Platform) (e : Env) (g mint : Pubkey) (id : ℕ) (signer : Pubkey) (auditor policy : Bytes)
    (c c' : Chain)
    → initialize_vault p e g mint id signer auditor policy c ≡ ok c'
    → ChainEvolves e.clock c c'
unfolding initialize_vault
initialize_vault-ChainEvolves p e g mint id signer auditor policy c c' h0 =
    let key = (p.find_program_address (vault_config_seeds g id)).0 in
    on_require (e.is_signer g) _ _ h0 λ g0 h1. on_bind (init_account e c key) _ h1 λ u e1 h2.
      on_require (e.is_mint mint) _ _ h2 λ g2 h3. on_bind (init_account e _ _) _ h3 λ u' e3 h4. λ k.
        subst (λ (f : Pubkey → Option Account). Evolves e.clock (c.accounts k) (f k))
          (ap (λ (d : Chain). d.accounts) (ok-injective h4))
          (save-Evolves e.clock c key _
            (Evolves.created _ (init_account-eq-ok e c key e1).0 refl (refl, refl)) k)

pub deposit-ChainEvolves :
    (p : Platform) (e : Env) (a : DepositAccounts) (amount : ℕ) (c c' : Chain)
    → deposit p e a amount c ≡ ok c'
    → ChainEvolves e.clock c c'
deposit-ChainEvolves p e a amount c c' h =
    let o = deposit-Deposited p e a amount c c' h in
    subst (ChainEvolves e.clock c) (sym o.after) (
      saved e.clock (record c { tokens = o.tokens }) a.vault_config o.config _ o.config_at
        (record { same = ground arith; grows = omega arith; status = StatusStep.kept refl refl }))

pub withdraw-ChainEvolves :
    (p : Platform) (e : Env) (a : WithdrawAccounts) (amount nonce : ℕ) (expires_at : ℤ)
    (c c' : Chain)
    → withdraw p e a amount nonce expires_at c ≡ ok c'
    → ChainEvolves e.clock c c'
withdraw-ChainEvolves p e a amount nonce expires_at c c' h =
    let o = withdraw-Withdrawn p e a amount nonce expires_at c c' h in
    subst (ChainEvolves e.clock c) (sym o.after) (
      save_two-Evolves e.clock (record c { tokens = o.tokens })
        (p.find_program_address (withdraw_nonce_seeds a.vault_config a.client nonce)).0
        a.vault_config _ _ o.nonce_free tt
        (Evolves.vault o.config _ o.config_at refl (record {
          same = ground arith;
          grows = omega arith;
          status = StatusStep.kept refl refl;
        })))

pub settle_vault-ChainEvolves :
    (p : Platform) (e : Env) (signer key vault_token : Pubkey) (remaining : List Pubkey)
    (batch_id : ℕ) (hash : Bytes) (entries : List SettlementEntry) (c c' : Chain)
    → settle_vault p e signer key vault_token remaining batch_id hash entries c ≡ ok c'
    → ChainEvolves e.clock c c'
settle_vault-ChainEvolves p e signer key vault_token remaining batch_id hash entries c c' h =
    let o =
      settle_vault-Settled p e signer key vault_token remaining batch_id hash entries c c' h in
    subst (ChainEvolves e.clock c) (sym o.after) (
      saved e.clock (record c { tokens = o.tokens }) key o.config _ o.config_at
        (record { same = ground arith; grows = omega arith; status = StatusStep.kept refl refl }))
