-- ===== src/Vault/ForceSettle/Payout.antt =====
-- What a finalization pays, and what it leaves due.
use privacy_x.Base.{
  ℕ, ◌+◌, ◌<◌, ◌≡◌, ◌↔◌, sym, subst, true, false, not, not-eq-true, bytes_eq, eq_of_bytes_eq, ok,
  on_bind, on_ok_or, on_require, ok-injective, ◌==◌, some, ℤ, ◌<ℤ◌, ltb_ℤ, ltb_ℤ→<ℤ, leb, arith,
  checked_add, Bool-cases, inl, inr, if◌then◌else◌,
}
use privacy_x.Vault.State.{
  Pubkey, VaultConfig, vault_config, ForceSettleRequest, force_settle_request, Tokens, Chain, save,
  load_vault_config, load_vault_config-eq-ok, load_force_settle_request,
  load_force_settle_request-eq-ok, load_token_account,
}
use privacy_x.Vault.Platform.{Platform, Env, TokenTransfer}
use privacy_x.Vault.Funds.{vault_signer_seeds}
use privacy_x.Vault.ForceSettle.{
  claimable_amount, finalize_nothing, finalize_paid, pay_request, force_settle_finalize,
}

-- What a request still has to pay.
abbrev pub due : ForceSettleRequest → ℕ
due r = r.free_balance_due + r.locked_balance_due

abbrev pub payout : VaultConfig → (vault vault_token recipient : Pubkey) → ℕ → TokenTransfer
payout config vault vault_token recipient amount = record {
  from = vault_token;
  to = recipient;
  authority = vault;
  signer_seeds = vault_signer_seeds config;
  amount = amount;
}

-- The two ways in which a finalization succeeds.
pub data Outcome (p : Platform) (now : ℤ) (config : VaultConfig) (r : ForceSettleRequest)
    (vault key vault_token recipient : Pubkey) (c c' : Chain) : Type 0 where
  nothing :
      claimable_amount now r ≡ ok 0
      → c' ≡ save c key (force_settle_request (finalize_nothing r))
      → Outcome p now config r vault key vault_token recipient c c'
  paid :
      (n : ℕ) (t : Tokens)
      → 0 < n
      → claimable_amount now r ≡ ok n
      → p.token_transfer c.tokens (payout config vault vault_token recipient n) ≡ some t
      → c' ≡ save (record c { tokens = t }) key (force_settle_request (finalize_paid now r))
      → Outcome p now config r vault key vault_token recipient c c'

pub record Finalized (p : Platform) (e : Env) (vault key vault_token recipient : Pubkey)
    (c c' : Chain) : Type 0 where
  pub config : VaultConfig
  pub request : ForceSettleRequest
  pub config_at : c.accounts vault ≡ some (vault_config config)
  pub request_at : c.accounts key ≡ some (force_settle_request request)
  pub of_vault : request.vault ≡ vault
  pub unresolved : request.is_resolved ≡ false
  pub window_over : request.dispute_deadline <ℤ e.clock
  pub from_vault : vault_token ≡ config.vault_token_account
  pub to_recipient : recipient ≡ request.recipient_ata
  pub outcome : Outcome p e.clock config request vault key vault_token recipient c c'

module _ (p : Platform) (e : Env) (vault key vault_token recipient : Pubkey) (c c' : Chain) where
  Outcome-cases :
      (config : VaultConfig) (r : ForceSettleRequest) (n available : ℕ)
      → claimable_amount e.clock r ≡ ok n
      → (if n == 0
          then ok (save c key (force_settle_request (finalize_nothing r)))
          else pay_request p e vault key vault_token recipient n available config r c)
        ≡ ok c'
      → Outcome p e.clock config r vault key vault_token recipient c c'
  unfolding pay_request
  Outcome-cases config r n available claim h0 = elim (Bool-cases (n == 0)) [
    | inl z ↦
        nothing (subst (λ k. claimable_amount e.clock r ≡ ok k) (zero_of z) claim)
          (sym (ok-injective (rw z at h0)))
    | inr nz ↦ on_require (leb n available) _ _ (rw nz at h0) λ g0 h1.
        on_ok_or (p.token_transfer c.tokens (payout config vault vault_token recipient n)) _ _ h1
          λ t e1 h2. paid n t (ground arith) claim e1 (sym (ok-injective h2))
  ]
    where
      zero_of : n == 0 ≡ true → n ≡ 0
      zero_of z = ground arith

  pub force_settle_finalize-Finalized :
      (caller : Pubkey)
      → force_settle_finalize p e caller vault key vault_token recipient c ≡ ok c'
      → Finalized p e vault key vault_token recipient c c'
  unfolding force_settle_finalize
  force_settle_finalize-Finalized caller h0 = on_require (e.is_signer caller) _ _ h0 λ g0 h1.
      on_bind (load_vault_config c vault) _ h1 λ config e1 h2.
        on_bind (load_force_settle_request c key) _ h2 λ r e2 h3.
          on_bind (load_token_account c vault_token) _ h3 λ vt e3 h4.
            on_bind (load_token_account c recipient) _ h4 λ rt e4 h5.
              on_require (bytes_eq r.vault vault) _ _ h5 λ g5 h6.
                on_require (not r.is_resolved) _ _ h6 λ g6 h7.
                  on_require (bytes_eq vault_token config.vault_token_account) _ _ h7 λ g7 h8.
                    on_require (bytes_eq recipient r.recipient_ata) _ _ h8 λ g8 h9.
                      on_require (ltb_ℤ r.dispute_deadline e.clock) _ _ h9 λ g9 h10.
                        on_bind (claimable_amount e.clock r) _ h10 λ n e10 h11. record {
                          config = config;
                          request = r;
                          config_at = load_vault_config-eq-ok c vault e1;
                          request_at = load_force_settle_request-eq-ok c key e2;
                          of_vault = eq_of_bytes_eq r.vault vault g5;
                          unresolved = not-eq-true r.is_resolved g6;
                          window_over = ltb_ℤ→<ℤ r.dispute_deadline e.clock g9;
                          from_vault = eq_of_bytes_eq vault_token config.vault_token_account g7;
                          to_recipient = eq_of_bytes_eq recipient r.recipient_ata g8;
                          outcome = Outcome-cases config r n vt.amount e10 h11;
                        }

-- What is claimed and what stays due add up to what was due.
pub claimable_conserves :
    (now : ℤ) (r : ForceSettleRequest) (n : ℕ)
    → claimable_amount now r ≡ ok n
    → due (finalize_paid now r) + n ≡ due r
unfolding claimable_amount finalize_paid checked_add
claimable_conserves now r n h = ground arith

pub due-finalize_nothing : (r : ForceSettleRequest) → due (finalize_nothing r) ≡ due r
unfolding finalize_nothing
due-finalize_nothing r = ground arith

-- A request is resolved exactly when nothing is due any more.
pub resolved-iff-paid :
    (now : ℤ) (r : ForceSettleRequest)
    → r.is_resolved ≡ false
    → ((finalize_paid now r).is_resolved ≡ true) ↔ (due (finalize_paid now r) ≡ 0)
unfolding finalize_paid
resolved-iff-paid now r h = ground arith
