-- ===== src/Vault/Program/Permanent.antt =====
-- The accounts that are written once (used withdraw nonces, audit records, close claims), and the
-- requests, which are opened once.
use privacy_x.Base.{
  ℕ, ◌≡◌, ◌≢◌, sym, ◌∙◌, subst, bytes_eq, ok, Option, some, ℤ, Bool-cases, inl, inr, eq_of_bytes_eq,
  true,
}
use privacy_x.Vault.State.{
  Pubkey, ForceSettleRequest, UsedWithdrawNonce, Account, vault_config, force_settle_request,
  asc_close_claim, audit_record, used_withdraw_nonce, Chain, save_at, save_self,
}
use privacy_x.Vault.Platform.{Platform, Env}
use privacy_x.Vault.Funds.{withdraw, WithdrawAccounts, withdraw_nonce_seeds}
use privacy_x.Vault.Program.{World, Reach, here, next}
use privacy_x.Vault.Program.Evolution.{Evolves}
use privacy_x.Vault.Program.WithdrawCall.{Withdrawn, withdraw-Withdrawn}
use privacy_x.Vault.Program.Frame.{Step-ChainEvolves}
use privacy_x.Vault.Program.Requests.{Reach-request}
use privacy_x.Vault.ForceSettle.{ReceiptArgs, force_settle_init, force_settle_seeds}
use privacy_x.Vault.ForceSettle.Checks.{force_settle_init-Opened}

abbrev pub IsPermanent : Account → Type 0
IsPermanent (vault_config v) = ⊥
IsPermanent (force_settle_request r) = ⊥
IsPermanent (asc_close_claim c) = Unit
IsPermanent (audit_record a) = Unit
IsPermanent (used_withdraw_nonce n) = Unit

Evolves-keeps :
    (now : ℤ) (a b : Option Account) (x : Account)
    → IsPermanent x
    → a ≡ some x
    → Evolves now a b
    → b ≡ some x
Evolves-keeps now a b x perm at (Evolves.same e) = e ∙ at
Evolves-keeps now a b x perm at (Evolves.created y free new fresh) = cc
Evolves-keeps now a b (vault_config v) perm at (Evolves.vault u u' old new step) = absurd perm
Evolves-keeps now a b (force_settle_request r) perm at (Evolves.vault u u' old new step) =
    absurd perm
Evolves-keeps now a b (asc_close_claim c) perm at (Evolves.vault u u' old new step) = cc
Evolves-keeps now a b (audit_record c) perm at (Evolves.vault u u' old new step) = cc
Evolves-keeps now a b (used_withdraw_nonce c) perm at (Evolves.vault u u' old new step) = cc
Evolves-keeps now a b (vault_config v) perm at (Evolves.request u u' old new step) = absurd perm
Evolves-keeps now a b (force_settle_request r) perm at (Evolves.request u u' old new step) =
    absurd perm
Evolves-keeps now a b (asc_close_claim c) perm at (Evolves.request u u' old new step) = cc
Evolves-keeps now a b (audit_record c) perm at (Evolves.request u u' old new step) = cc
Evolves-keeps now a b (used_withdraw_nonce c) perm at (Evolves.request u u' old new step) = cc

-- A used withdraw nonce, an audit record or a close claim is never changed or removed.
pub Reach-permanent :
    (p : Platform) (w v : World) (k : Pubkey) (x : Account)
    → IsPermanent x
    → w.chain.accounts k ≡ some x
    → Reach p w v
    → v.chain.accounts k ≡ some x
Reach-permanent p w v k x perm at here = at
Reach-permanent p w v k x perm at (next {u} before step) =
    Evolves-keeps v.now _ _ x perm (Reach-permanent p w u k x perm at before)
      (Step-ChainEvolves p u v step k)

-- The account of the nonce of a withdrawal.
abbrev pub nonce_address : Platform → WithdrawAccounts → ℕ → Pubkey
nonce_address p a nonce =
    (p.find_program_address (withdraw_nonce_seeds a.vault_config a.client nonce)).0

abbrev pub nonce_record : Platform → WithdrawAccounts → ℕ → UsedWithdrawNonce
nonce_record p a nonce = record {
  bump = (p.find_program_address (withdraw_nonce_seeds a.vault_config a.client nonce)).1;
  vault = a.vault_config;
  client = a.client;
  withdraw_nonce = nonce;
}

nonce_recorded :
    (p : Platform) (e : Env) (a : WithdrawAccounts) (amount nonce : ℕ) (expires_at : ℤ)
    (c c' : Chain)
    → withdraw p e a amount nonce expires_at c ≡ ok c'
    → c'.accounts (nonce_address p a nonce) ≡ some (used_withdraw_nonce (nonce_record p a nonce))
nonce_recorded p e a amount nonce expires_at c c' h =
    let o = withdraw-Withdrawn p e a amount nonce expires_at c c' h in
    subst
      (λ (d : Chain).
        d.accounts (nonce_address p a nonce) ≡ some (used_withdraw_nonce (nonce_record p a nonce)))
      (sym o.after)
      (elim (Bool-cases (bytes_eq a.vault_config (nonce_address p a nonce))) [
        | inl same ↦ absurd (apart o same)
        | inr differs ↦ rw (save_at, differs) (save_self _ _ _)
      ])
  where
    apart :
        Withdrawn p e a amount nonce expires_at c c'
        → bytes_eq a.vault_config (nonce_address p a nonce) ≡ true
        → ⊥
    apart o same =
        let there = eq_of_bytes_eq a.vault_config (nonce_address p a nonce) same in
        let free = o.nonce_free in
        let taken = subst (λ k. c.accounts k ≡ some (vault_config o.config)) there o.config_at in cc

-- After a withdrawal with a nonce has gone through, whatever calls and token moves follow, at
-- whatever times, no withdrawal of the same client from the same vault with that nonce goes through.
pub withdraw_once :
    (p : Platform) (e e' : Env) (a a' : WithdrawAccounts) (amount amount' nonce : ℕ)
    (expires_at expires_at' : ℤ) (c c' c'' : Chain) (v : World)
    → withdraw p e a amount nonce expires_at c ≡ ok c'
    → Reach p (record { chain = c'; now = e.clock }) v
    → a'.vault_config ≡ a.vault_config
    → a'.client ≡ a.client
    → withdraw p e' a' amount' nonce expires_at' v.chain ≢ ok c''
withdraw_once p e e' a a' amount amount' nonce expires_at expires_at' c c' c'' v first run vault
      client again =
    let at = nonce_recorded p e a amount nonce expires_at c c' first in
    let still =
      Reach-permanent p (record { chain = c'; now = e.clock }) v (nonce_address p a nonce)
        (used_withdraw_nonce (nonce_record p a nonce)) tt at run in
    let o = withdraw-Withdrawn p e' a' amount' nonce expires_at' v.chain c'' again in
    let free = o.nonce_free in cc

-- The address of a participant's request.
abbrev pub request_address : Platform → (vault participant : Pubkey) → ℕ → Pubkey
request_address p vault participant kind =
    (p.find_program_address (force_settle_seeds vault participant kind)).0

request_opened :
    (p : Platform) (e : Env) (participant vault : Pubkey) (kind : ℕ) (r : ReceiptArgs)
    (c c' : Chain)
    → force_settle_init p e participant vault kind r c ≡ ok c'
    → (q : ForceSettleRequest) × (c'.accounts (request_address p vault participant kind)
        ≡ some (force_settle_request q))
request_opened p e participant vault kind r c c' h =
    let o = force_settle_init-Opened p e participant vault kind r c c' h in
    subst
      (λ (d : Chain).
        (q : ForceSettleRequest) × (d.accounts (request_address p vault participant kind)
          ≡ some (force_settle_request q)))
      (sym o.after) (_, save_self c (request_address p vault participant kind) _)

-- After a force-settle request has been opened, whatever calls and token moves follow, resolved or
-- not, no second request of the same participant and kind at the same vault can be opened.
pub force_settle_once :
    (p : Platform) (e e' : Env) (participant vault : Pubkey) (kind : ℕ) (r r' : ReceiptArgs)
    (c c' c'' : Chain) (v : World)
    → force_settle_init p e participant vault kind r c ≡ ok c'
    → Reach p (record { chain = c'; now = e.clock }) v
    → force_settle_init p e' participant vault kind r' v.chain ≢ ok c''
force_settle_once p e e' participant vault kind r r' c c' c'' v first run again =
    let (q, at) = request_opened p e participant vault kind r c c' first in
    let (q', still, hist) =
      Reach-request p (record { chain = c'; now = e.clock }) v
        (request_address p vault participant kind) q at run in
    let free = (force_settle_init-Opened p e' participant vault kind r' v.chain c'' again).free in
    cc
