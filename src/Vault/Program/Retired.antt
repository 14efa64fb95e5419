-- ===== src/Vault/Program/Retired.antt =====
-- What a retired vault no longer does.
use privacy_x.Base.{ℕ, ◌≡◌, ◌≢◌, ◌∙◌, Bytes, ok, some, ℤ, List, arith, ◌⊎◌, on_bind}
use privacy_x.Vault.State.{
  Pubkey, VaultConfig, vault_config, Chain, vault_status_active, vault_status_migrating,
  vault_status_retired,
}
use privacy_x.Vault.Platform.{Platform, Env, AuditRecordData}
use privacy_x.Vault.Settlement.{settling_vault}
use privacy_x.Vault.RecordAudit.{record_audit}
use privacy_x.Vault.Program.{Call, execute, World, Reach}
use privacy_x.Vault.Program.DepositCall.{deposit-Deposited}
use privacy_x.Vault.Program.WithdrawCall.{withdraw-Withdrawn}
use privacy_x.Vault.Program.SettleCall.{settle_vault-Settled, settling_vault-eq-ok}
use privacy_x.Vault.Program.Lifecycle.{Reach-vault, StatusLater, stays, left_active, retired}

-- A call that moves a vault's money, or publishes an audit of it.
abbrev pub MovesMoney : Pubkey → Call → Type 0
MovesMoney k (Call.deposit a amount) = a.vault_config ≡ k
MovesMoney k (Call.withdraw a amount nonce expires_at) = a.vault_config ≡ k
MovesMoney k (Call.settle_vault s v t remaining id hash entries) = v ≡ k
MovesMoney k (Call.record_audit s v remaining id hash records) = v ≡ k
MovesMoney k (Call.initialize_vault g m id s a h) = ⊥
MovesMoney k (Call.asc_close_claim caller v channel request) = ⊥
MovesMoney k (Call.pause_vault g v) = ⊥
MovesMoney k (Call.announce_migration g v successor deadline) = ⊥
MovesMoney k (Call.retire_vault g v) = ⊥
MovesMoney k (Call.rotate_auditor g v key) = ⊥
MovesMoney k (Call.force_settle_init participant v kind r) = ⊥
MovesMoney k (Call.force_settle_challenge challenger v key r) = ⊥
MovesMoney k (Call.force_settle_finalize caller v key t r) = ⊥

audit_status :
    (p : Platform) (e : Env) (s v : Pubkey) (remaining : List Pubkey) (id : ℕ) (hash : Bytes)
    (records : List AuditRecordData) (c c' : Chain)
    → record_audit p e s v remaining id hash records c ≡ ok c'
    → (config : VaultConfig) × (c.accounts v ≡ some (vault_config config))
      × ((config.status ≡ vault_status_active) ⊎ (config.status ≡ vault_status_migrating))
unfolding record_audit
audit_status p e s v remaining id hash records c c' h0 =
    on_bind (settling_vault e s v c) _ h0 λ config e0 h1.
      let (loaded, signed, by, status) = settling_vault-eq-ok e s v c e0 in (config, loaded, status)

-- A call that moves a vault's money finds it active or migrating.
money_status :
    (p : Platform) (e : Env) (x : Call) (k : Pubkey) (c c' : Chain) (config : VaultConfig)
    → MovesMoney k x
    → c.accounts k ≡ some (vault_config config)
    → execute p e x c ≡ ok c'
    → config.status ≢ vault_status_retired
unfolding execute
money_status p e (Call.deposit a amount) k c c' config key at h done =
    let o = deposit-Deposited p e a amount c c' h in
    let at' = o.config_at in let st = o.active in let eq : o.config ≡ config = cc in ground arith
money_status p e (Call.withdraw a amount nonce expires_at) k c c' config key at h done =
    let o = withdraw-Withdrawn p e a amount nonce expires_at c c' h in
    let at' = o.config_at in let st = o.status in let eq : o.config ≡ config = cc in ground arith
money_status p e (Call.settle_vault s v t remaining id hash entries) k c c' config key at h done =
    let o = settle_vault-Settled p e s v t remaining id hash entries c c' h in
    let at' = o.config_at in let st = o.status in let eq : o.config ≡ config = cc in ground arith
money_status p e (Call.record_audit s v remaining id hash records) k c c' config key at h done =
    let (found, at', st) = audit_status p e s v remaining id hash records c c' h in
    let eq : found ≡ config = cc in ground arith
money_status p e (Call.initialize_vault g m id s a h) k c c' config key at eq done = absurd key
money_status p e (Call.asc_close_claim caller v channel request) k c c' config key at eq done =
    absurd key
money_status p e (Call.pause_vault g v) k c c' config key at eq done = absurd key
money_status p e (Call.announce_migration g v s d) k c c' config key at eq done = absurd key
money_status p e (Call.retire_vault g v) k c c' config key at eq done = absurd key
money_status p e (Call.rotate_auditor g v a) k c c' config key at eq done = absurd key
money_status p e (Call.force_settle_init a v kind r) k c c' config key at eq done = absurd key
money_status p e (Call.force_settle_challenge a v q r) k c c' config key at eq done = absurd key
money_status p e (Call.force_settle_finalize a v q t r) k c c' config key at eq done = absurd key

still_retired :
    (now : ℤ) (v v' : VaultConfig)
    → v.status ≡ vault_status_retired
    → StatusLater now v v'
    → v'.status ≡ vault_status_retired
still_retired now v v' h (stays s d) = s ∙ h
still_retired now v v' h (left_active a l) = absurd (ground arith)
still_retired now v v' h (retired r t) = r

-- Once a vault is retired, in every later state of the chain, no deposit into it, no withdrawal from
-- it, no settlement by it and no audit of it goes through.
pub retired_moves_nothing :
    (p : Platform) (w v : World) (k : Pubkey) (config : VaultConfig) (e : Env) (x : Call)
    (c : Chain)
    → w.chain.accounts k ≡ some (vault_config config)
    → config.status ≡ vault_status_retired
    → Reach p w v
    → MovesMoney k x
    → execute p e x v.chain ≢ ok c
retired_moves_nothing p w v k config e x c at done run moves h =
    let (later, at', hist) = Reach-vault p w v k config at run in
    money_status p e x k v.chain c later moves at' h
      (still_retired v.now config later done hist.status)
