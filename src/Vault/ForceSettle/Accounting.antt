-- ===== src/Vault/ForceSettle/Accounting.antt =====
-- The money of a finalization: the accounts that it moves, and when it pays in full.
use privacy_x.Base.{
  ◌+◌, ◌≤◌, ◌<◌, ◌≡◌, ◌≢◌, refl, sym, subst, true, false, bytes_eq, bytes_eq_refl, ok, some, ℤ,
  ◌≤ℤ◌, ◌<ℤ◌, ltb_ℤ, leb, ◌==◌, arith, checked_add, u64_mod,
}
use privacy_x.Vault.State.{
  Pubkey, VaultConfig, vault_config, ForceSettleRequest, force_settle_request, TokenAccount, Tokens,
  Chain, save, save_self, load_vault_config, load_force_settle_request, load_token_account,
}
use privacy_x.Vault.Platform.{Platform, Env, TransferLaws, balance}
use privacy_x.Vault.ForceSettle.{
  claimable_amount, finalize_nothing, finalize_paid, pay_request, force_settle_finalize,
}
use privacy_x.Vault.ForceSettle.Payout.{
  due, payout, Outcome, nothing, paid, force_settle_finalize-Finalized, claimable_conserves,
  due-finalize_nothing,
}

-- What a finalization took from the vault's account went to the recipient's and is no longer due.
pub record Accounted (r : ForceSettleRequest) (key vault_token recipient : Pubkey) (c c' : Chain)
    : Type 0 where
  pub request' : ForceSettleRequest
  pub request_at : c'.accounts key ≡ some (force_settle_request request')
  pub recipient_gains :
      balance c'.tokens recipient + due request' ≡ balance c.tokens recipient + due r
  pub vault_pays :
      balance c'.tokens vault_token + due r ≡ balance c.tokens vault_token + due request'
  pub others_keep : (k : Pubkey) → k ≢ vault_token → k ≢ recipient → c'.tokens k ≡ c.tokens k

module _ (p : Platform) (e : Env) (vault key vault_token recipient : Pubkey) (c c' : Chain) where
  Outcome-Accounted :
      TransferLaws p
      → vault_token ≢ recipient
      → (config : VaultConfig) (r : ForceSettleRequest)
      → Outcome p e.clock config r vault key vault_token recipient c c'
      → Accounted r key vault_token recipient c c'
  unfolding save
  Outcome-Accounted laws apart config r (nothing claim after) =
      let stays = due-finalize_nothing r in
      subst (Accounted r key vault_token recipient c) (sym after) (record {
        request' = finalize_nothing r;
        request_at = save_self c key _;
        recipient_gains = omega arith;
        vault_pays = omega arith;
        others_keep = λ k a b. refl;
      })
  Outcome-Accounted laws apart config r (paid n t positive claim moved after) =
      let x = payout config vault vault_token recipient n in
      let left = claimable_conserves e.clock r n claim in
      let debit = laws.debits c.tokens t x moved apart in
      let credit = laws.credits c.tokens t x moved apart in
      let funded = laws.funded c.tokens t x moved in
      subst (Accounted r key vault_token recipient c) (sym after) (record {
        request' = finalize_paid e.clock r;
        request_at = save_self (record c { tokens = t }) key _;
        recipient_gains = omega arith;
        vault_pays = omega arith;
        others_keep = λ k a b. laws.leaves_others c.tokens t x k moved a b;
      })

  -- When a finalization succeeds, under the token program's laws and with the recipient's account
  -- other than the vault's: what the recipient's balance gains is exactly what the request no longer
  -- has due and what the vault's balance loses, and no other token account changes.
  pub force_settle_finalize-Accounted :
      TransferLaws p
      → vault_token ≢ recipient
      → (caller : Pubkey) (r : ForceSettleRequest) → c.accounts key ≡ some (force_settle_request r)
      → force_settle_finalize p e caller vault key vault_token recipient c ≡ ok c'
      → Accounted r key vault_token recipient c c'
  force_settle_finalize-Accounted laws apart caller r at h =
      let o = force_settle_finalize-Finalized p e vault key vault_token recipient c c' caller h in
      let found = o.request_at in
      let eq : o.request ≡ r = cc in
      subst (λ (q : ForceSettleRequest). Accounted q key vault_token recipient c c') eq
        (Outcome-Accounted laws apart o.config o.request o.outcome)

-- What anyone needs for a finalization to go through.
pub record Ready (e : Env) (caller vault key : Pubkey) (config : VaultConfig)
    (r : ForceSettleRequest) (vault_account recipient_account : TokenAccount) (c : Chain)
    : Type 0 where
  pub signed : e.is_signer caller ≡ true
  pub config_at : c.accounts vault ≡ some (vault_config config)
  pub request_at : c.accounts key ≡ some (force_settle_request r)
  pub vault_token_at : c.tokens config.vault_token_account ≡ some vault_account
  pub recipient_at : c.tokens r.recipient_ata ≡ some recipient_account
  pub of_vault : r.vault ≡ vault
  pub unresolved : r.is_resolved ≡ false
  pub window_over : r.dispute_deadline <ℤ e.clock
  pub locks_over : r.max_lock_expires_at ≤ℤ e.clock
  pub solvent : due r ≤ vault_account.amount
  pub fits : due r < u64_mod

claimable_in_full :
    (now : ℤ) (r : ForceSettleRequest)
    → r.max_lock_expires_at ≤ℤ now
    → due r < u64_mod
    → claimable_amount now r ≡ ok (due r)
unfolding claimable_amount checked_add
claimable_in_full now r over fits = ground arith

pub finalize_paid-in_full :
    (now : ℤ) (r : ForceSettleRequest)
    → r.max_lock_expires_at ≤ℤ now
    → ((finalize_paid now r).is_resolved ≡ true) × (due (finalize_paid now r) ≡ 0)
unfolding finalize_paid
finalize_paid-in_full now r over = ground arith

module _ (p : Platform) (e : Env) (caller vault key : Pubkey) (config : VaultConfig)
    (r : ForceSettleRequest) (va ra : TokenAccount) (c : Chain) (t : Tokens) where
  -- Any signer can finalize an open request after the dispute deadline and the locks' expiry: when
  -- the vault's account holds what is due, something is due, and the token program makes the
  -- transfer, the call succeeds, pays all that is due, and the request is resolved with nothing due.
  pub force_settle_finalize-in_full :
      Ready e caller vault key config r va ra c
      → 0 < due r
      → p.token_transfer c.tokens
          (payout config vault config.vault_token_account r.recipient_ata (due r))
        ≡ some t
      → (force_settle_finalize p e caller vault key config.vault_token_account r.recipient_ata c
          ≡ ok
              (save (record c { tokens = t }) key (force_settle_request (finalize_paid e.clock r))))
        × ((finalize_paid e.clock r).is_resolved ≡ true)
        × (due (finalize_paid e.clock r) ≡ 0)
  unfolding force_settle_finalize pay_request load_vault_config load_force_settle_request
      load_token_account claimable_amount save
  force_settle_finalize-in_full ready some_due moved =
      let claim = claimable_in_full e.clock r ready.locks_over ready.fits in
      let same_vault : bytes_eq r.vault vault ≡ true =
        subst (λ v. bytes_eq r.vault v ≡ true) ready.of_vault (bytes_eq_refl r.vault) in
      let over : ltb_ℤ r.dispute_deadline e.clock ≡ true =
        let w = ready.window_over in ground arith in
      let pays : due r == 0 ≡ false = ground arith in
      let enough : leb (due r) va.amount ≡ true = let s = ready.solvent in ground arith in
      let full = finalize_paid-in_full e.clock r ready.locks_over in
      (
        rw
            (
              ready.signed,
              ready.config_at,
              ready.request_at,
              ready.vault_token_at,
              ready.recipient_at,
              same_vault,
              ready.unresolved,
              bytes_eq_refl config.vault_token_account,
              bytes_eq_refl r.recipient_ata,
              over,
              claim,
              pays,
              enough,
              moved,
            )
            refl,
        full.0,
        full.1,
      )
