-- ===== src/Vault/Program/Evolution.antt =====
-- How an account may change from one state of the chain to the next: the vault's life cycle, the
-- steps of a force-settle request, and nothing for the records that are only ever created.
use privacy_x.Base.{
  ◌≤◌, ◌<◌, ◌≡◌, refl, subst, false, bytes_eq, eq_of_bytes_eq, Option, some, none, ℤ, pos, ◌≤ℤ◌,
  ◌<ℤ◌, ◌+ℤ◌, Bool-cases, inl, inr,
}
use privacy_x.Vault.State.{
  Pubkey, VaultConfig, ForceSettleRequest, Account, vault_config, force_settle_request,
  asc_close_claim, audit_record, used_withdraw_nonce, Chain, save, save_at, vault_status_active,
  vault_status_paused, vault_status_migrating, vault_status_retired, dispute_window_sec,
}
use privacy_x.Vault.ForceSettle.{finalize_paid, finalize_nothing}

-- The transitions of `status`, with the times at which they are allowed.
pub data StatusStep (now : ℤ) (v v' : VaultConfig) : Type 0 where
  kept : v'.status ≡ v.status → v'.exit_deadline ≡ v.exit_deadline → StatusStep now v v'
  pause : v.status ≡ vault_status_active → v'.status ≡ vault_status_paused → StatusStep now v v'
  migrate :
      v.status ≡ vault_status_active
      → v'.status ≡ vault_status_migrating
      → now <ℤ v'.exit_deadline
      → StatusStep now v v'
  retire_paused :
      v.status ≡ vault_status_paused → v'.status ≡ vault_status_retired → StatusStep now v v'
  retire_migrating :
      v.status ≡ vault_status_migrating
      → v'.status ≡ vault_status_retired
      → v.exit_deadline ≤ℤ now
      → StatusStep now v v'

-- What no instruction changes of a vault.
pub record SameVault (v v' : VaultConfig) : Type 0 where
  pub bump : v'.bump ≡ v.bump
  pub vault_id : v'.vault_id ≡ v.vault_id
  pub governance : v'.governance ≡ v.governance
  pub vault_signer_pubkey : v'.vault_signer_pubkey ≡ v.vault_signer_pubkey
  pub usdc_mint : v'.usdc_mint ≡ v.usdc_mint
  pub vault_token_account : v'.vault_token_account ≡ v.vault_token_account
  pub attestation_policy_hash : v'.attestation_policy_hash ≡ v.attestation_policy_hash

-- What only grows.
pub record Grows (v v' : VaultConfig) : Type 0 where
  pub auditor_epoch : v.auditor_epoch ≤ v'.auditor_epoch
  pub lifetime_deposited : v.lifetime_deposited ≤ v'.lifetime_deposited
  pub lifetime_withdrawn : v.lifetime_withdrawn ≤ v'.lifetime_withdrawn
  pub lifetime_settled : v.lifetime_settled ≤ v'.lifetime_settled

pub record VaultStep (now : ℤ) (v v' : VaultConfig) : Type 0 where
  pub same : SameVault v v'
  pub grows : Grows v v'
  pub status : StatusStep now v v'

-- What no instruction changes of a request.
pub record SameRequest (r r' : ForceSettleRequest) : Type 0 where
  pub bump : r'.bump ≡ r.bump
  pub vault : r'.vault ≡ r.vault
  pub participant : r'.participant ≡ r.participant
  pub participant_kind : r'.participant_kind ≡ r.participant_kind
  pub initiated_at : r'.initiated_at ≡ r.initiated_at
  pub dispute_deadline : r'.dispute_deadline ≡ r.dispute_deadline

-- A challenge within the dispute window, by a newer receipt; or a finalization after it.
pub data RequestStep (now : ℤ) (r r' : ForceSettleRequest) : Type 0 where
  challenged :
      r.is_resolved ≡ false
      → now ≤ℤ r.dispute_deadline
      → r.receipt_nonce < r'.receipt_nonce
      → SameRequest r r'
      → r'.is_resolved ≡ false
      → RequestStep now r r'
  paid :
      r.is_resolved ≡ false
      → r.dispute_deadline <ℤ now
      → r' ≡ finalize_paid now r
      → RequestStep now r r'
  nothing :
      r.is_resolved ≡ false
      → r.dispute_deadline <ℤ now
      → r' ≡ finalize_nothing r
      → RequestStep now r r'

-- An account as it is created.
abbrev pub IsFresh : ℤ → Account → Type 0
IsFresh now (vault_config v) = (v.status ≡ vault_status_active) × (v.lifetime_settled ≡ 0)
IsFresh now (force_settle_request r) =
    (r.is_resolved ≡ false) × (r.dispute_deadline ≡ now +ℤ pos dispute_window_sec)
IsFresh now (asc_close_claim c) = Unit
IsFresh now (audit_record a) = Unit
IsFresh now (used_withdraw_nonce n) = Unit

pub data Evolves (now : ℤ) (a b : Option Account) : Type 0 where
  same : b ≡ a → Evolves now a b
  created : (x : Account) → a ≡ none → b ≡ some x → IsFresh now x → Evolves now a b
  vault :
      (v v' : VaultConfig)
      → a ≡ some (vault_config v)
      → b ≡ some (vault_config v')
      → VaultStep now v v'
      → Evolves now a b
  request :
      (r r' : ForceSettleRequest)
      → a ≡ some (force_settle_request r)
      → b ≡ some (force_settle_request r')
      → RequestStep now r r'
      → Evolves now a b

-- Every account of `c` becomes one of `c'` as it may.
abbrev pub ChainEvolves : ℤ → Chain → Chain → Type 0
ChainEvolves now c c' = (k : Pubkey) → Evolves now (c.accounts k) (c'.accounts k)

pub save-Evolves :
    (now : ℤ) (c : Chain) (key : Pubkey) (x : Account)
    → Evolves now (c.accounts key) (some x)
    → ChainEvolves now c (save c key x)
save-Evolves now c key x h k = elim (Bool-cases (bytes_eq key k)) [
  | inl e ↦
      rw (save_at, e) (subst (λ j. Evolves now (c.accounts j) (some x)) (eq_of_bytes_eq key k e) h)
  | inr e ↦ rw (save_at, e) (same refl)
]

-- Two accounts are written: one that was free, and one that was there.
pub save_two-Evolves :
    (now : ℤ) (c : Chain) (free key : Pubkey) (fresh x : Account)
    → c.accounts free ≡ none
    → IsFresh now fresh
    → Evolves now (c.accounts key) (some x)
    → ChainEvolves now c (save (save c free fresh) key x)
save_two-Evolves now c free key fresh x empty new h k = elim (Bool-cases (bytes_eq key k)) [
  | inl e ↦
      rw (save_at, e) (subst (λ j. Evolves now (c.accounts j) (some x)) (eq_of_bytes_eq key k e) h)
  | inr e ↦ rw (save_at, e) (save-Evolves now c free fresh (created fresh empty refl new) k)
]

-- A vault that is written back after a legal step.
pub saved :
    (now : ℤ) (c : Chain) (key : Pubkey) (v v' : VaultConfig)
    → c.accounts key ≡ some (vault_config v)
    → VaultStep now v v'
    → ChainEvolves now c (save c key (vault_config v'))
saved now c key v v' at step = save-Evolves now c key (vault_config v') (vault v v' at refl step)
