-- ===== src/Vault/Program/RequestCalls.antt =====
-- The force-settle calls and the close claim: the accounts change as they may.
use privacy_x.Base.{
  ℕ, ◌≡◌, refl, sym, subst, Bytes, ok, on_bind, on_ok_or, on_require, ok-injective, slice,
}
use privacy_x.Vault.State.{Pubkey, Chain, load_vault_config}
use privacy_x.Vault.Platform.{Platform, Env, init_account, init_account-eq-ok}
use privacy_x.Vault.ForceSettle.{
  ReceiptArgs, force_settle_init, force_settle_challenge, force_settle_finalize, finalize_nothing,
  finalize_paid,
}
use privacy_x.Vault.ForceSettle.Checks.{
  force_settle_init-Opened, force_settle_challenge-Challenged, replaced,
}
use privacy_x.Vault.ForceSettle.Payout.{force_settle_finalize-Finalized, nothing, paid}
use privacy_x.Vault.CloseClaim.{
  asc_close_claim, asc_close_claim_seeds, check_voucher, check_payment,
}
use privacy_x.Vault.Program.Evolution.{Evolves, ChainEvolves, save-Evolves, RequestStep}

pub force_settle_init-ChainEvolves :
    (p : Platform) (e : Env) (participant vault : Pubkey) (kind : ℕ) (r : ReceiptArgs)
    (c c' : Chain)
    → force_settle_init p e participant vault kind r c ≡ ok c'
    → ChainEvolves e.clock c c'
force_settle_init-ChainEvolves p e participant vault kind r c c' h =
    let o = force_settle_init-Opened p e participant vault kind r c c' h in
    subst (ChainEvolves e.clock c) (sym o.after)
      (save-Evolves e.clock c _ _ (Evolves.created _ o.free refl (refl, o.deadline_is)))

pub force_settle_challenge-ChainEvolves :
    (p : Platform) (e : Env) (challenger vault key : Pubkey) (r : ReceiptArgs) (c c' : Chain)
    → force_settle_challenge p e challenger vault key r c ≡ ok c'
    → ChainEvolves e.clock c c'
force_settle_challenge-ChainEvolves p e challenger vault key r c c' h =
    let o = force_settle_challenge-Challenged p e challenger vault key r c c' h in
    subst (ChainEvolves e.clock c) (sym o.after) (
      save-Evolves e.clock c key _ (
        Evolves.request o.request (replaced o.request r) o.request_at refl (
          RequestStep.challenged o.unresolved o.in_window o.newer
            (record {
              bump = refl;
              vault = refl;
              participant = refl;
              participant_kind = refl;
              initiated_at = refl;
              dispute_deadline = refl;
            })
            o.unresolved)))

pub force_settle_finalize-ChainEvolves :
    (p : Platform) (e : Env) (caller vault key vault_token recipient : Pubkey) (c c' : Chain)
    → force_settle_finalize p e caller vault key vault_token recipient c ≡ ok c'
    → ChainEvolves e.clock c c'
force_settle_finalize-ChainEvolves p e caller vault key vault_token recipient c c' h =
    let o = force_settle_finalize-Finalized p e vault key vault_token recipient c c' caller h in
    elim o.outcome [
      | nothing claim after ↦ subst (ChainEvolves e.clock c) (sym after) (
          save-Evolves e.clock c key _ (
            Evolves.request o.request (finalize_nothing o.request) o.request_at refl
              (RequestStep.nothing o.unresolved o.window_over refl)))
      | paid n t positive claim moved after ↦ subst (ChainEvolves e.clock c) (sym after) (
          save-Evolves e.clock (record c { tokens = t }) key _
            (Evolves.request o.request (finalize_paid e.clock o.request) o.request_at refl
              (RequestStep.paid o.unresolved o.window_over refl)))
    ]

pub asc_close_claim-ChainEvolves :
    (p : Platform) (e : Env) (caller vault : Pubkey) (channel request : Bytes) (c c' : Chain)
    → asc_close_claim p e caller vault channel request c ≡ ok c'
    → ChainEvolves e.clock c c'
unfolding asc_close_claim
asc_close_claim-ChainEvolves p e caller vault channel request c c' h0 =
    let key = (p.find_program_address (asc_close_claim_seeds vault channel request)).0 in
    on_require (e.is_signer caller) _ _ h0 λ g0 h1.
      on_bind (load_vault_config c vault) _ h1 λ config e1 h2.
        on_bind (init_account e c key) _ h2 λ u e2 h3.
          on_bind (check_voucher p e config vault channel request) _ h3 λ voucher e3 h4.
            on_bind (check_payment p e voucher channel request) _ h4 λ payment e4 h5.
              on_ok_or (slice payment.signature 0 32) _ _ h5 λ r e5 h6.
                on_ok_or (slice payment.signature 32 64) _ _ h6 λ s e6 h7.
                  subst (ChainEvolves e.clock c) (ok-injective h7) (
                    save-Evolves e.clock c key _
                      (Evolves.created _ (init_account-eq-ok e c key e2).0 refl tt))
