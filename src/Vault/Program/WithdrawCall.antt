-- ===== src/Vault/Program/WithdrawCall.antt =====
-- A withdrawal: what it has checked and done when it succeeds.
use privacy_x.Base.{
  ℕ, ◌+◌, ◌<◌, ◌≡◌, subst, ◌||◌, bytes_eq, eq_of_bytes_eq, ok, on_bind, on_ok_or, on_require, ◌==◌,
  some, none, true, ℤ, leb_ℤ, ◌≤ℤ◌, leb_ℤ→≤ℤ, ok-injective, ==_iff, ◌∙◌, arith, checked_add,
  checked_add-eq-some, ltb, ltb→lt, inl, inr, ◌⊎◌, u64_mod, Bytes, concat, [], ◌∷◌, u64_bytes,
  i64_bytes,
}
use privacy_x.Vault.State.{
  VaultConfig, vault_config, used_withdraw_nonce, TokenAccount, Tokens, Chain, save,
  load_vault_config, load_vault_config-eq-ok, load_token_account, load_token_account-eq-ok,
  vault_status_active, vault_status_migrating,
}
use privacy_x.Vault.Platform.{Platform, Env, TokenTransfer, init_account, init_account-eq-ok}
use privacy_x.Vault.Governance.{when, when-eq-ok}
use privacy_x.Vault.Ed25519.{
  VerifiedEd25519Signature, verify_ed25519_signature, verify_ed25519_signature_details,
  verify_ed25519_signature_details_relative,
}
use privacy_x.Vault.Ed25519.Embedded.{SignedInstruction, verify_ed25519-SignedInstruction}
use privacy_x.Vault.Funds.{
  withdraw, withdraw_accounts, withdraw_checks, withdraw_message, withdraw_nonce_seeds,
  vault_signer_seeds, WithdrawAccounts,
}

abbrev pub withdraw_transfer : WithdrawAccounts → VaultConfig → ℕ → TokenTransfer
withdraw_transfer a v amount = record {
  from = a.vault_token_account;
  to = a.client_token_account;
  authority = a.vault_config;
  signer_seeds = vault_signer_seeds v;
  amount = amount;
}

-- A withdrawal that went through.
pub record Withdrawn (p : Platform) (e : Env) (a : WithdrawAccounts) (amount nonce : ℕ)
    (expires_at : ℤ) (c c' : Chain) : Type 0 where
  pub config : VaultConfig
  pub tokens : Tokens
  pub client_token : TokenAccount
  pub config_at : c.accounts a.vault_config ≡ some (vault_config config)
  pub status :
      (config.status ≡ vault_status_active)
      ⊎ ((config.status ≡ vault_status_migrating) × (e.clock ≤ℤ config.exit_deadline))
  pub signed_by_client : e.is_signer a.client ≡ true
  pub positive : 0 < amount
  pub not_expired : e.clock ≤ℤ expires_at
  pub authorization : VerifiedEd25519Signature
  pub authorized : SignedInstruction p e 1 config.vault_signer_pubkey authorization
  pub signed_message :
      authorization.message
      ≡ concat (
          a.client
          ∷ a.client_token_account
          ∷ u64_bytes amount
          ∷ u64_bytes nonce
          ∷ i64_bytes expires_at
          ∷ a.vault_config
          ∷ [])
  pub client_token_at : c.tokens a.client_token_account ≡ some client_token
  pub right_mint : client_token.mint ≡ config.usdc_mint
  pub owned : client_token.owner ≡ a.client
  pub from_vault : a.vault_token_account ≡ config.vault_token_account
  pub moved : p.token_transfer c.tokens (withdraw_transfer a config amount) ≡ some tokens
  pub no_overflow : config.lifetime_withdrawn + amount < u64_mod
  pub nonce_free :
      c.accounts (p.find_program_address (withdraw_nonce_seeds a.vault_config a.client nonce)).0
      ≡ none
  pub after :
      c'
      ≡ save
          (save
            (record c { tokens = tokens })
            (p.find_program_address (withdraw_nonce_seeds a.vault_config a.client nonce)).0
            (used_withdraw_nonce (record {
              bump =
                  (p.find_program_address (withdraw_nonce_seeds a.vault_config a.client nonce)).1;
              vault = a.vault_config;
              client = a.client;
              withdraw_nonce = nonce;
            })))
          a.vault_config
          (vault_config (record config { lifetime_withdrawn = config.lifetime_withdrawn + amount }))

-- The account constraints of a withdrawal.
record Accepted (p : Platform) (e : Env) (a : WithdrawAccounts) (nonce : ℕ) (c : Chain)
    (v : VaultConfig) : Type 0 where
  client_token : TokenAccount
  config_at : c.accounts a.vault_config ≡ some (vault_config v)
  signed : e.is_signer a.client ≡ true
  client_token_at : c.tokens a.client_token_account ≡ some client_token
  status : (v.status ≡ vault_status_active) ⊎ (v.status ≡ vault_status_migrating)
  right_mint : client_token.mint ≡ v.usdc_mint
  owned : client_token.owner ≡ a.client
  from_vault : a.vault_token_account ≡ v.vault_token_account
  free :
      c.accounts (p.find_program_address (withdraw_nonce_seeds a.vault_config a.client nonce)).0
      ≡ none

accepted :
    (p : Platform) (e : Env) (a : WithdrawAccounts) (nonce : ℕ) (c : Chain) {v : VaultConfig}
    → withdraw_accounts p e a nonce c ≡ ok v
    → Accepted p e a nonce c v
unfolding withdraw_accounts
accepted p e a nonce c {v} h0 =
    let pda = p.find_program_address (withdraw_nonce_seeds a.vault_config a.client nonce) in
    on_require (e.is_signer a.client) _ _ h0 λ g0 h1.
      on_bind (load_vault_config c a.vault_config) _ h1 λ w e1 h2.
        on_bind (load_token_account c a.vault_token_account) _ h2 λ vt e2 h3.
          on_bind (load_token_account c a.client_token_account) _ h3 λ ct e3 h4.
            on_bind (init_account e c pda.0) _ h4 λ u e4 h5.
              on_require (w.status == vault_status_active || w.status == vault_status_migrating) _ _
                h5
                λ g5 h6.
                  on_require (bytes_eq a.vault_token_account w.vault_token_account) _ _ h6 λ g6 h7.
                    on_require (bytes_eq ct.mint w.usdc_mint) _ _ h7 λ g7 h8.
                      on_require (bytes_eq ct.owner a.client) _ _ h8 λ g8 h9.
                        subst (Accepted p e a nonce c) (ok-injective h9) (record {
                          client_token = ct;
                          config_at = load_vault_config-eq-ok c a.vault_config e1;
                          signed = g0;
                          client_token_at = load_token_account-eq-ok c a.client_token_account e3;
                          status = ground (arith, g5);
                          right_mint = eq_of_bytes_eq ct.mint w.usdc_mint g7;
                          owned = eq_of_bytes_eq ct.owner a.client g8;
                          from_vault =
                              eq_of_bytes_eq a.vault_token_account w.vault_token_account g6;
                          free = (init_account-eq-ok e c pda.0 e4).0;
                        })

-- The signature that the call rests on, and its message.
signed_by :
    (p : Platform) (e : Env) (key : Bytes) {m : Bytes}
    → verify_ed25519_signature p e key ≡ ok m
    → (s : VerifiedEd25519Signature) × SignedInstruction p e 1 key s × (s.message ≡ m)
unfolding verify_ed25519_signature verify_ed25519_signature_details
signed_by p e key h =
    on_bind (verify_ed25519_signature_details_relative p e 1 key) _ h
      λ s e1 h1. (s, verify_ed25519-SignedInstruction p e 1 key s e1, ok-injective h1)

-- The checks of a withdrawal.
checked :
    (p : Platform) (e : Env) (a : WithdrawAccounts) (v : VaultConfig) (amount nonce : ℕ)
    (expires_at : ℤ)
    → withdraw_checks p e a v amount nonce expires_at ≡ ok tt
    → (0 < amount)
      × (v.status ≡ vault_status_migrating → e.clock ≤ℤ v.exit_deadline)
      × (e.clock ≤ℤ expires_at)
      × (s : VerifiedEd25519Signature) × SignedInstruction p e 1 v.vault_signer_pubkey s
      × (s.message
          ≡ concat (
              a.client
              ∷ a.client_token_account
              ∷ u64_bytes amount
              ∷ u64_bytes nonce
              ∷ i64_bytes expires_at
              ∷ a.vault_config
              ∷ []))
unfolding withdraw_checks withdraw_message
checked p e a v amount nonce expires_at h0 = on_require (ltb 0 amount) _ _ h0 λ g0 h1.
    on_bind (when (v.status == vault_status_migrating) _) _ h1 λ u e1 h2.
      on_require (leb_ℤ e.clock expires_at) _ _ h2 λ g2 h3.
        on_bind (verify_ed25519_signature p e v.vault_signer_pubkey) _ h3 λ m e3 h4.
          on_require (bytes_eq m (withdraw_message a amount nonce expires_at)) _ _ h4 λ g4 h5.
            let (s, by, message) = signed_by p e v.vault_signer_pubkey e3 in
            (
              ltb→lt 0 amount g0,
              (λ migrating. leb_ℤ→≤ℤ e.clock v.exit_deadline (
                  when-eq-ok (v.status == vault_status_migrating) _ _ e1
                    ((==_iff v.status vault_status_migrating).1 migrating))),
              leb_ℤ→≤ℤ e.clock expires_at g2,
              s,
              by,
              message ∙ eq_of_bytes_eq m (withdraw_message a amount nonce expires_at) g4,
            )

-- An active vault, or a migrating one before its exit deadline.
in_time :
    (v : VaultConfig) (now : ℤ)
    → (v.status ≡ vault_status_active) ⊎ (v.status ≡ vault_status_migrating)
    → (v.status ≡ vault_status_migrating → now ≤ℤ v.exit_deadline)
    → (v.status ≡ vault_status_active)
      ⊎ ((v.status ≡ vault_status_migrating) × (now ≤ℤ v.exit_deadline))
in_time v now (inl active) h = inl active
in_time v now (inr migrating) h = inr (migrating, h migrating)

-- A withdrawal that succeeds had the client's signature; followed, in the same transaction, directly
-- on an Ed25519 precompile instruction with one signature under the vault signer's key, whose
-- message is exactly the bytes of its client, recipient, amount, nonce, expiry and vault; was in time, of a positive amount, out of
-- the vault's token account to an account of the client's with the vault's mint; used a nonce
-- whose account was free; and writes back only the nonce's account and the vault, with its
-- lifetime total raised by the amount, without overflow.
pub withdraw-Withdrawn :
    (p : Platform) (e : Env) (a : WithdrawAccounts) (amount nonce : ℕ) (expires_at : ℤ)
    (c c' : Chain)
    → withdraw p e a amount nonce expires_at c ≡ ok c'
    → Withdrawn p e a amount nonce expires_at c c'
unfolding withdraw
withdraw-Withdrawn p e a amount nonce expires_at c c' h0 =
    on_bind (withdraw_accounts p e a nonce c) _ h0 λ v e0 h1.
      on_bind (withdraw_checks p e a v amount nonce expires_at) _ h1 λ u e1 h2.
        on_ok_or (p.token_transfer c.tokens (withdraw_transfer a v amount)) _ _ h2 λ t e2 h3.
          on_ok_or (checked_add v.lifetime_withdrawn amount) _ _ h3 λ n e3 h4.
            let acc : Accepted p e a nonce c v = accepted p e a nonce c e0 in
            let (sum, fits) = checked_add-eq-some v.lifetime_withdrawn amount e3 in
            let chk = checked p e a v amount nonce expires_at e1 in
            record {
              config = v;
              tokens = t;
              client_token = acc.client_token;
              config_at = acc.config_at;
              status = in_time v e.clock acc.status chk.1;
              signed_by_client = acc.signed;
              positive = chk.0;
              not_expired = chk.2;
              authorization = chk.3;
              authorized = chk.4;
              signed_message = chk.5;
              client_token_at = acc.client_token_at;
              right_mint = acc.right_mint;
              owned = acc.owned;
              from_vault = acc.from_vault;
              moved = e2;
              no_overflow = fits;
              nonce_free = acc.free;
              after = cc;
            }
