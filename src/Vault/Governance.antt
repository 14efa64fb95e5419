-- ===== src/Vault/Governance.antt =====
-- The instructions of the vault's governance: pause_vault.rs, announce_migration.rs,
-- retire_vault.rs and rotate_auditor.rs of programs/subly402_vault/src/instructions.
use privacy_x.Base.{
  Bool, true, false, ◌≡◌, refl, ◌||◌, Bytes, bytes_eq, Result, ok, ok_or, require, ◌>>=◌, ◌>>◌,
  ◌==◌, checked_add_u32, ℤ, leb_ℤ, ltb_ℤ, if◌then◌else◌,
}
use privacy_x.Vault.Error.{
  ProgramError, custom, account_not_signer, constraint_raw, vault_already_paused, vault_inactive,
  invalid_status_transition, exit_deadline_not_reached, exit_deadline_exceeded, arithmetic_overflow,
}
use privacy_x.Vault.State.{
  Pubkey, VaultConfig, vault_config, Chain, load_vault_config, save, vault_status_active,
  vault_status_paused, vault_status_migrating, vault_status_retired,
}
use privacy_x.Vault.Platform.{Env}

-- `governance: Signer` and `constraint = vault_config.governance == governance.key()`.
unfoldable pub governed : Env → Pubkey → Pubkey → Chain → Result ProgramError VaultConfig
governed e governance key chain = do
  require (e.is_signer governance) account_not_signer
  vault ← load_vault_config chain key
  require (bytes_eq vault.governance governance) constraint_raw
  ok vault

-- A check that is made only under a condition: `if test { require!(...) }`.
abbrev pub when : Bool → Result ProgramError (Unit {0}) → Result ProgramError (Unit {0})
when test check = if test then check else ok tt

module _ (e : Env) (governance key : Pubkey) (chain : Chain) where
  unfoldable pub pause_vault : Result ProgramError Chain
  pause_vault = do
    vault ← governed e governance key chain
    require (vault.status == vault_status_active) (custom vault_already_paused)
    ok (save chain key (vault_config (record vault { status = vault_status_paused })))

  unfoldable pub announce_migration : Pubkey → ℤ → Result ProgramError Chain
  announce_migration successor_vault exit_deadline = do
    vault ← governed e governance key chain
    require (vault.status == vault_status_active) (custom vault_inactive)
    require (ltb_ℤ e.clock exit_deadline) (custom exit_deadline_exceeded)
    ok (
        save chain key (
          vault_config (record vault {
            status = vault_status_migrating;
            successor_vault = successor_vault;
            exit_deadline = exit_deadline;
          })))

  unfoldable pub retire_vault : Result ProgramError Chain
  retire_vault = do
    vault ← governed e governance key chain
    require (vault.status == vault_status_paused || vault.status == vault_status_migrating)
        (custom invalid_status_transition)
    when (vault.status == vault_status_migrating)
        (require (leb_ℤ vault.exit_deadline e.clock) (custom exit_deadline_not_reached))
    ok (save chain key (vault_config (record vault { status = vault_status_retired })))

  unfoldable pub rotate_auditor : Bytes → Result ProgramError Chain
  rotate_auditor new_auditor_master_pubkey = do
    vault ← governed e governance key chain
    auditor_epoch ← ok_or (checked_add_u32 vault.auditor_epoch 1) (custom arithmetic_overflow)
    ok (
        save chain key (
          vault_config (record vault {
            auditor_master_pubkey = new_auditor_master_pubkey;
            auditor_epoch = auditor_epoch;
          })))

pub when-eq-ok :
    (test check : Bool) (x : ProgramError)
    → when test (require check x) ≡ ok tt
    → test ≡ true
    → check ≡ true
when-eq-ok true true x h t = refl
when-eq-ok true false x h t = cc
when-eq-ok false check x h t = cc
