-- ===== src/Vault/Program/GovernanceCalls.antt =====
-- The governance calls: what each does when it succeeds, and that it changes the accounts as it may.
use privacy_x.Base.{
  ◌+◌, ◌≡◌, refl, sym, subst, Bytes, ok, >>=-eq-ok, some, ℤ, arith, checked_add_u32, inl, inr,
  eq_of_bytes_eq, true, ◌⊎◌, ◌<ℤ◌, ◌≤ℤ◌,
}
use privacy_x.Vault.State.{
  Pubkey, VaultConfig, vault_config, Chain, save, load_vault_config, vault_status_active,
  vault_status_paused, vault_status_migrating, vault_status_retired,
}
use privacy_x.Vault.Platform.{Env}
use privacy_x.Vault.Governance.{
  governed, pause_vault, announce_migration, retire_vault, rotate_auditor,
}
use privacy_x.Vault.Program.Evolution.{ChainEvolves, StatusStep, saved}

governed-eq-ok :
    (e : Env) (g key : Pubkey) (c : Chain) {v : VaultConfig}
    → governed e g key c ≡ ok v
    → (c.accounts key ≡ some (vault_config v)) × (v.governance ≡ g) × (e.is_signer g ≡ true)
unfolding governed load_vault_config
governed-eq-ok e g key c {v} h = ground (arith, eq_of_bytes_eq v.governance g)

module _ (e : Env) (g key : Pubkey) (c c' : Chain) where
  -- What each governance call does when it succeeds.
  pub pause_vault-eq-ok :
      pause_vault e g key c ≡ ok c'
      → (v : VaultConfig) × (c.accounts key ≡ some (vault_config v))
        × (v.status ≡ vault_status_active)
        × (c' ≡ save c key (vault_config (record v { status = vault_status_paused })))
  unfolding pause_vault
  pause_vault-eq-ok h =
      let (v, ev, h1) = >>=-eq-ok (governed e g key c) _ h in
      (v, (governed-eq-ok e g key c ev).0, ground arith, ground arith)

  pub announce_migration-eq-ok :
      (successor : Pubkey) (deadline : ℤ)
      → announce_migration e g key c successor deadline ≡ ok c'
      → (v : VaultConfig) × (c.accounts key ≡ some (vault_config v))
        × (v.status ≡ vault_status_active)
        × (e.clock <ℤ deadline)
        × (c'
            ≡ save c key (
                vault_config (record v {
                  status = vault_status_migrating;
                  successor_vault = successor;
                  exit_deadline = deadline;
                })))
  unfolding announce_migration
  announce_migration-eq-ok successor deadline h =
      let (v, ev, h1) = >>=-eq-ok (governed e g key c) _ h in
      (v, (governed-eq-ok e g key c ev).0, ground arith, ground arith, ground arith)

  pub retire_vault-eq-ok :
      retire_vault e g key c ≡ ok c'
      → (v : VaultConfig) × (c.accounts key ≡ some (vault_config v))
        × ((v.status ≡ vault_status_paused)
            ⊎ ((v.status ≡ vault_status_migrating) × (v.exit_deadline ≤ℤ e.clock)))
        × (c' ≡ save c key (vault_config (record v { status = vault_status_retired })))
  unfolding retire_vault
  retire_vault-eq-ok h =
      let (v, ev, h1) = >>=-eq-ok (governed e g key c) _ h in
      (v, (governed-eq-ok e g key c ev).0, ground arith, ground arith)

  pub rotate_auditor-eq-ok :
      (auditor : Bytes)
      → rotate_auditor e g key c auditor ≡ ok c'
      → (v : VaultConfig) × (c.accounts key ≡ some (vault_config v))
        × (c'
            ≡ save c key (
                vault_config (record v {
                  auditor_master_pubkey = auditor;
                  auditor_epoch = v.auditor_epoch + 1;
                })))
  unfolding rotate_auditor checked_add_u32
  rotate_auditor-eq-ok auditor h =
      let (v, ev, h1) = >>=-eq-ok (governed e g key c) _ h in
      (v, (governed-eq-ok e g key c ev).0, ground arith)

  pause_step :
      (v : VaultConfig)
      → c.accounts key ≡ some (vault_config v)
      → v.status ≡ vault_status_active
      → ChainEvolves e.clock c
          (save c key (vault_config (record v { status = vault_status_paused })))
  pause_step v at st =
      saved e.clock c key v _ at
        (record { same = ground arith; grows = omega arith; status = StatusStep.pause st refl })

  announce_step :
      (v : VaultConfig) (successor : Pubkey) (deadline : ℤ)
      → c.accounts key ≡ some (vault_config v)
      → v.status ≡ vault_status_active
      → e.clock <ℤ deadline
      → ChainEvolves e.clock c (
          save c key (
            vault_config (record v {
              status = vault_status_migrating;
              successor_vault = successor;
              exit_deadline = deadline;
            })))
  announce_step v successor deadline at st later = saved e.clock c key v _ at (record {
    same = ground arith;
    grows = omega arith;
    status = StatusStep.migrate st refl later;
  })

  retired :
      (v : VaultConfig)
      → (v.status ≡ vault_status_paused)
        ⊎ ((v.status ≡ vault_status_migrating) × (v.exit_deadline ≤ℤ e.clock))
      → StatusStep e.clock v (record v { status = vault_status_retired })
  retired v (inl paused) = StatusStep.retire_paused paused refl
  retired v (inr (migrating, over)) = StatusStep.retire_migrating migrating refl over

  retire_step :
      (v : VaultConfig)
      → c.accounts key ≡ some (vault_config v)
      → (v.status ≡ vault_status_paused)
        ⊎ ((v.status ≡ vault_status_migrating) × (v.exit_deadline ≤ℤ e.clock))
      → ChainEvolves e.clock c
          (save c key (vault_config (record v { status = vault_status_retired })))
  retire_step v at st =
      saved e.clock c key v _ at
        (record { same = ground arith; grows = omega arith; status = retired v st })

  rotate_step :
      (v : VaultConfig) (auditor : Bytes)
      → c.accounts key ≡ some (vault_config v)
      → ChainEvolves e.clock c (
          save c key (
            vault_config
              (record v { auditor_master_pubkey = auditor; auditor_epoch = v.auditor_epoch + 1 })))
  rotate_step v auditor at =
      saved e.clock c key v _ at
        (record { same = ground arith; grows = omega arith; status = StatusStep.kept refl refl })

  pub pause_vault-ChainEvolves : pause_vault e g key c ≡ ok c' → ChainEvolves e.clock c c'
  pause_vault-ChainEvolves h =
      let (v, at, st, eq) = pause_vault-eq-ok h in
      subst (ChainEvolves e.clock c) (sym eq) (pause_step v at st)

  pub announce_migration-ChainEvolves :
      (successor : Pubkey) (deadline : ℤ)
      → announce_migration e g key c successor deadline ≡ ok c'
      → ChainEvolves e.clock c c'
  announce_migration-ChainEvolves successor deadline h =
      let (v, at, st, later, eq) = announce_migration-eq-ok successor deadline h in
      subst (ChainEvolves e.clock c) (sym eq) (announce_step v successor deadline at st later)

  pub retire_vault-ChainEvolves : retire_vault e g key c ≡ ok c' → ChainEvolves e.clock c c'
  retire_vault-ChainEvolves h =
      let (v, at, st, eq) = retire_vault-eq-ok h in
      subst (ChainEvolves e.clock c) (sym eq) (retire_step v at st)

  pub rotate_auditor-ChainEvolves :
      (auditor : Bytes) → rotate_auditor e g key c auditor ≡ ok c' → ChainEvolves e.clock c c'
  rotate_auditor-ChainEvolves auditor h =
      let (v, at, eq) = rotate_auditor-eq-ok auditor h in
      subst (ChainEvolves e.clock c) (sym eq) (rotate_step v auditor at)
