-- ===== src/Vault/Program/Frame.antt =====
-- Every call of the program changes the accounts as they may; what follows along a run.
use privacy_x.Base.{◌≡◌, refl, ok}
use privacy_x.Vault.State.{Chain}
use privacy_x.Vault.Platform.{Platform, Env}
use privacy_x.Vault.Program.{Call, execute, World, Step}
use privacy_x.Vault.Program.Evolution.{Evolves, ChainEvolves}
use privacy_x.Vault.Program.GovernanceCalls
use privacy_x.Vault.Program.MoneyCalls
use privacy_x.Vault.Program.RequestCalls
use privacy_x.Vault.Program.AuditCalls

-- Whatever call succeeds, each account of the program is unchanged, or freshly created at a free
-- address, or a vault or a request that made a legal step.
pub execute-ChainEvolves :
    (p : Platform) (e : Env) (x : Call) (c c' : Chain)
    → execute p e x c ≡ ok c'
    → ChainEvolves e.clock c c'
unfolding execute
execute-ChainEvolves p e (Call.initialize_vault g m id s a h) c c' eq =
    MoneyCalls.initialize_vault-ChainEvolves p e g m id s a h c c' eq
execute-ChainEvolves p e (Call.deposit a amount) c c' eq =
    MoneyCalls.deposit-ChainEvolves p e a amount c c' eq
execute-ChainEvolves p e (Call.withdraw a amount nonce expires_at) c c' eq =
    MoneyCalls.withdraw-ChainEvolves p e a amount nonce expires_at c c' eq
execute-ChainEvolves p e (Call.settle_vault s v t remaining id hash entries) c c' eq =
    MoneyCalls.settle_vault-ChainEvolves p e s v t remaining id hash entries c c' eq
execute-ChainEvolves p e (Call.record_audit s v remaining id hash records) c c' eq =
    AuditCalls.record_audit-ChainEvolves p e s v remaining id hash records c c' eq
execute-ChainEvolves p e (Call.asc_close_claim caller v channel request) c c' eq =
    RequestCalls.asc_close_claim-ChainEvolves p e caller v channel request c c' eq
execute-ChainEvolves p e (Call.pause_vault g v) c c' eq =
    GovernanceCalls.pause_vault-ChainEvolves e g v c c' eq
execute-ChainEvolves p e (Call.announce_migration g v successor deadline) c c' eq =
    GovernanceCalls.announce_migration-ChainEvolves e g v c c' successor deadline eq
execute-ChainEvolves p e (Call.retire_vault g v) c c' eq =
    GovernanceCalls.retire_vault-ChainEvolves e g v c c' eq
execute-ChainEvolves p e (Call.rotate_auditor g v key) c c' eq =
    GovernanceCalls.rotate_auditor-ChainEvolves e g v c c' key eq
execute-ChainEvolves p e (Call.force_settle_init participant v kind r) c c' eq =
    RequestCalls.force_settle_init-ChainEvolves p e participant v kind r c c' eq
execute-ChainEvolves p e (Call.force_settle_challenge challenger v key r) c c' eq =
    RequestCalls.force_settle_challenge-ChainEvolves p e challenger v key r c c' eq
execute-ChainEvolves p e (Call.force_settle_finalize caller v key t r) c c' eq =
    RequestCalls.force_settle_finalize-ChainEvolves p e caller v key t r c c' eq

-- A step of the world is one evolution at its later time.
pub Step-ChainEvolves :
    (p : Platform) (w v : World) → Step p w v → ChainEvolves v.now w.chain v.chain
Step-ChainEvolves p w v (Step.call e x c later eq) = execute-ChainEvolves p e x w.chain c eq
Step-ChainEvolves p w v (Step.tokens_move t) = λ k. Evolves.same refl
