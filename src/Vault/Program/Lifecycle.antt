-- ===== src/Vault/Program/Lifecycle.antt =====
-- The life of a vault along a run.
use privacy_x.Base.{◌≡◌, ◌≢◌, refl, sym, ◌∙◌, subst, Option, some, ℤ, ◌≤ℤ◌, arith}
use privacy_x.Vault.State.{
  Pubkey, VaultConfig, vault_config, Account, vault_status_active, vault_status_migrating,
  vault_status_retired,
}
use privacy_x.Vault.Platform.{Platform}
use privacy_x.Vault.Program.{World, Step, Reach, here, next}
use privacy_x.Vault.Program.Evolution.{Evolves, VaultStep, StatusStep, SameVault, Grows}
use privacy_x.Vault.Program.Frame.{Step-ChainEvolves}

-- What may have become of a vault's status by a later time.
pub data StatusLater (now : ℤ) (v v' : VaultConfig) : Type 0 where
  stays : v'.status ≡ v.status → v'.exit_deadline ≡ v.exit_deadline → StatusLater now v v'
  left_active :
      v.status ≡ vault_status_active → v'.status ≢ vault_status_active → StatusLater now v v'
  retired :
      v'.status ≡ vault_status_retired
      → (v.status ≡ vault_status_migrating → v.exit_deadline ≤ℤ now)
      → StatusLater now v v'

pub record VaultHistory (now : ℤ) (v v' : VaultConfig) : Type 0 where
  pub same : SameVault v v'
  pub grows : Grows v v'
  pub status : StatusLater now v v'

status_then :
    (now later : ℤ) (u v w : VaultConfig)
    → now ≤ℤ later
    → StatusLater now u v
    → StatusStep later v w
    → StatusLater later u w
status_then now later u v w le (stays s d) (StatusStep.kept s' d') = stays (s' ∙ s) (d' ∙ d)
status_then now later u v w le (stays s d) (StatusStep.pause a b) =
    left_active (sym s ∙ a) (ground arith)
status_then now later u v w le (stays s d) (StatusStep.migrate a b t) =
    left_active (sym s ∙ a) (ground arith)
status_then now later u v w le (stays s d) (StatusStep.retire_paused a b) = retired b (ground arith)
status_then now later u v w le (stays s d) (StatusStep.retire_migrating a b t) =
    retired b (λ m. subst (λ x. x ≤ℤ later) d t)
status_then now later u v w le (left_active a l) (StatusStep.kept s' d') =
    left_active a (λ x. l (sym s' ∙ x))
status_then now later u v w le (left_active a l) (StatusStep.pause b b') =
    left_active a (ground arith)
status_then now later u v w le (left_active a l) (StatusStep.migrate b b' t) =
    left_active a (ground arith)
status_then now later u v w le (left_active a l) (StatusStep.retire_paused b b') =
    left_active a (ground arith)
status_then now later u v w le (left_active a l) (StatusStep.retire_migrating b b' t) =
    left_active a (ground arith)
status_then now later u v w le (retired r t) (StatusStep.kept s' d') =
    retired (s' ∙ r) (λ m. let before = t m in omega arith)
status_then now later u v w le (retired r t) (StatusStep.pause b b') = absurd (ground arith)
status_then now later u v w le (retired r t) (StatusStep.migrate b b' x) = absurd (ground arith)
status_then now later u v w le (retired r t) (StatusStep.retire_paused b b') = absurd (ground arith)
status_then now later u v w le (retired r t) (StatusStep.retire_migrating b b' x) =
    absurd (ground arith)

same_then : (u v w : VaultConfig) → SameVault u v → SameVault v w → SameVault u w
same_then u v w a b = record {
  bump = b.bump ∙ a.bump;
  vault_id = b.vault_id ∙ a.vault_id;
  governance = b.governance ∙ a.governance;
  vault_signer_pubkey = b.vault_signer_pubkey ∙ a.vault_signer_pubkey;
  usdc_mint = b.usdc_mint ∙ a.usdc_mint;
  vault_token_account = b.vault_token_account ∙ a.vault_token_account;
  attestation_policy_hash = b.attestation_policy_hash ∙ a.attestation_policy_hash;
}

Grows-trans : (u v w : VaultConfig) → Grows u v → Grows v w → Grows u w
Grows-trans u v w a b = record {
  auditor_epoch = omega (arith, a.auditor_epoch, b.auditor_epoch);
  lifetime_deposited = omega (arith, a.lifetime_deposited, b.lifetime_deposited);
  lifetime_withdrawn = omega (arith, a.lifetime_withdrawn, b.lifetime_withdrawn);
  lifetime_settled = omega (arith, a.lifetime_settled, b.lifetime_settled);
}

unchanged : (now : ℤ) (v : VaultConfig) → VaultHistory now v v
unchanged now v = record { same = ground arith; grows = omega arith; status = stays refl refl }

-- A vault that is there in the later state, and what has become of it.
abbrev pub VaultAfter : ℤ → VaultConfig → Option Account → Type 0
VaultAfter now v a = (v' : VaultConfig) × (a ≡ some (vault_config v')) × VaultHistory now v v'

later_vault :
    (now later : ℤ) (a b : Option Account) (v : VaultConfig)
    → now ≤ℤ later
    → VaultAfter now v a
    → Evolves later a b
    → VaultAfter later v b
later_vault now later a b v le (u, at, hist) (Evolves.same e) = (
  u,
  e ∙ at,
  record {
    same = hist.same;
    grows = hist.grows;
    status = status_then now later v u u le hist.status (StatusStep.kept refl refl);
  },
)
later_vault now later a b v le (u, at, hist) (Evolves.created x free new fresh) = absurd (cc)
later_vault now later a b v le (u, at, hist) (Evolves.request r r' old new step) = absurd (cc)
later_vault now later a b v le (u, at, hist) (Evolves.vault w w' old new step) =
    let eq : w ≡ u = cc in
    let step' : VaultStep later u w' = subst (λ x. VaultStep later x w') eq step in
    (
      w',
      new,
      record {
        same = same_then v u w' hist.same step'.same;
        grows = Grows-trans v u w' hist.grows step'.grows;
        status = status_then now later v u w' le hist.status step'.status;
      },
    )

pub step_forward : (p : Platform) (w v : World) → Step p w v → w.now ≤ℤ v.now
step_forward p w v (Step.call e x c later eq) = later
step_forward p w v (Step.tokens_move t) = omega arith

-- Whatever calls and token moves follow, a vault stays there; its identity, its signer, its mint and
-- its token account stay the same; its epoch and its lifetime totals do not shrink; it never becomes
-- active again, and a migrating vault is retired only when its exit deadline has come.
pub Reach-vault :
    (p : Platform) (w v : World) (k : Pubkey) (config : VaultConfig)
    → w.chain.accounts k ≡ some (vault_config config)
    → Reach p w v
    → VaultAfter v.now config (v.chain.accounts k)
Reach-vault p w v k config at here = (config, at, unchanged w.now config)
Reach-vault p w v k config at (next {u} before step) =
    later_vault u.now v.now _ _ config (step_forward p u v step)
      (Reach-vault p w u k config at before) (Step-ChainEvolves p u v step k)
