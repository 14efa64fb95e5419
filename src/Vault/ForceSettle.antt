-- ===== src/Vault/ForceSettle.antt =====
-- force_settle_init.rs, force_settle_challenge.rs and force_settle_finalize.rs of
-- programs/subly402_vault/src/instructions.
pub mod Checks
pub mod Payout
pub mod Accounting
use privacy_x.Base.{
  ℕ, ◌+◌, Bool, true, false, not, ◌&&◌, Bytes, bytes_eq, Result, ok, err, ok_or, require, ◌>>=◌,
  ◌>>◌, ◌==◌, ltb, leb, checked_add, checked_add_i64, ℤ, pos, leb_ℤ, ltb_ℤ, eqb_ℤ, List, [], ◌∷◌,
  if◌then◌else◌,
}
use privacy_x.Vault.Error.{
  ProgramError, custom, account_not_signer, constraint_raw, constraint_address, token_error,
  invalid_participant_receipt, invalid_receipt_message, arithmetic_overflow, already_resolved,
  dispute_window_expired, dispute_window_active, stale_receipt_nonce, vault_insolvent,
}
use privacy_x.Vault.State.{
  Pubkey, VaultConfig, ForceSettleRequest, force_settle_request, Chain, load_vault_config,
  load_force_settle_request, load_token_account, save, dispute_window_sec,
}
use privacy_x.Vault.Platform.{Platform, Env, TokenTransfer, init_account}
use privacy_x.Vault.Ed25519.{verify_ed25519_signature_details}
use privacy_x.Vault.Receipt.{ParticipantReceiptMessage, decode_participant_receipt_message}
use privacy_x.Vault.AscClaim.{ascii}
use privacy_x.Vault.Funds.{vault_signer_seeds}

-- The arguments that `init` and `challenge` share: what the receipt is claimed to say.
pub record ReceiptArgs : Type 0 where
  pub recipient_ata : Pubkey
  pub free_balance : ℕ
  pub locked_balance : ℕ
  pub max_lock_expires_at : ℤ
  pub receipt_nonce : ℕ
  pub receipt_signature : Bytes
  pub receipt_message : Bytes

abbrev pub force_settle_seeds : Pubkey → Pubkey → ℕ → List Bytes
force_settle_seeds vault participant participant_kind =
    ascii "force_settle" ∷ vault ∷ participant ∷ (participant_kind ∷ []) ∷ []

-- The receipt must say what the arguments say, of this participant at this vault.
unfoldable pub receipt_matches :
    ParticipantReceiptMessage
    → (participant : Pubkey) (participant_kind : ℕ) → ReceiptArgs
    → (vault : Pubkey) → Result ProgramError (Unit {0})
receipt_matches decoded participant participant_kind r vault = do
  require (bytes_eq decoded.participant participant) (custom invalid_receipt_message)
  require (decoded.participant_kind == participant_kind) (custom invalid_receipt_message)
  require (bytes_eq decoded.recipient_ata r.recipient_ata) (custom invalid_receipt_message)
  require (decoded.free_balance == r.free_balance) (custom invalid_receipt_message)
  require (decoded.locked_balance == r.locked_balance) (custom invalid_receipt_message)
  require (eqb_ℤ decoded.max_lock_expires_at r.max_lock_expires_at) (custom invalid_receipt_message)
  require (decoded.nonce == r.receipt_nonce) (custom invalid_receipt_message)
  require (bytes_eq decoded.vault_config vault) (custom invalid_receipt_message)
  ok tt

module _ (p : Platform) (e : Env) where
  -- The signature over the receipt, and what the receipt says.
  unfoldable pub check_receipt :
      VaultConfig
      → (participant : Pubkey) (participant_kind : ℕ) → ReceiptArgs
      → (vault : Pubkey) → Result ProgramError (Unit {0})
  check_receipt config participant participant_kind r vault = do
    verified ← verify_ed25519_signature_details p e config.vault_signer_pubkey
    require (bytes_eq verified.message r.receipt_message) (custom invalid_participant_receipt)
    require (bytes_eq verified.signature r.receipt_signature) (custom invalid_participant_receipt)
    decoded ← decode_participant_receipt_message r.receipt_message
    receipt_matches decoded participant participant_kind r vault

  unfoldable pub force_settle_init :
      (participant vault : Pubkey) (participant_kind : ℕ)
      → ReceiptArgs
      → Chain
      → Result ProgramError Chain
  force_settle_init participant vault participant_kind r chain = do
    require (e.is_signer participant) account_not_signer
    config ← load_vault_config chain vault
    let (key, bump) = p.find_program_address (force_settle_seeds vault participant participant_kind)
    init_account e chain key
    check_receipt config participant participant_kind r vault
    dispute_deadline ←
        ok_or (checked_add_i64 e.clock (pos dispute_window_sec)) (custom arithmetic_overflow)
    ok (
        save chain key (
          force_settle_request (record {
            bump = bump;
            vault = vault;
            participant = participant;
            participant_kind = participant_kind;
            recipient_ata = r.recipient_ata;
            free_balance_due = r.free_balance;
            locked_balance_due = r.locked_balance;
            max_lock_expires_at = r.max_lock_expires_at;
            receipt_nonce = r.receipt_nonce;
            receipt_signature = r.receipt_signature;
            initiated_at = e.clock;
            dispute_deadline = dispute_deadline;
            is_resolved = false;
          })))

  unfoldable pub force_settle_challenge :
      (challenger vault key : Pubkey) → ReceiptArgs → Chain → Result ProgramError Chain
  force_settle_challenge challenger vault key r chain = do
    require (e.is_signer challenger) account_not_signer
    config ← load_vault_config chain vault
    request ← load_force_settle_request chain key
    require (bytes_eq request.vault vault) constraint_raw
    require (not request.is_resolved) (custom already_resolved)
    require (leb_ℤ e.clock request.dispute_deadline) (custom dispute_window_expired)
    require (ltb request.receipt_nonce r.receipt_nonce) (custom stale_receipt_nonce)
    check_receipt config request.participant request.participant_kind r vault
    ok (
        save chain key (
          force_settle_request (record request {
            recipient_ata = r.recipient_ata;
            free_balance_due = r.free_balance;
            locked_balance_due = r.locked_balance;
            max_lock_expires_at = r.max_lock_expires_at;
            receipt_nonce = r.receipt_nonce;
            receipt_signature = r.receipt_signature;
          })))

-- `now >= max_lock_expires_at`: the locked part is due.
unfoldable pub lock_expired : ℤ → ForceSettleRequest → Bool
lock_expired now request = leb_ℤ request.max_lock_expires_at now

-- `request.free_balance_due + locked`, where the locked part counts once its locks have expired.
unfoldable pub claimable_amount : ℤ → ForceSettleRequest → Result ProgramError ℕ
unfolding lock_expired
claimable_amount now request =
    ok_or
      (checked_add request.free_balance_due
        (if lock_expired now request then request.locked_balance_due else 0))
      (custom arithmetic_overflow)

-- The request when there is nothing to pay, and when the claimable amount has been paid.
unfoldable pub finalize_nothing : ForceSettleRequest → ForceSettleRequest
finalize_nothing request =
    if request.locked_balance_due == 0 then record request { is_resolved = true } else request

resolve_if_paid : ForceSettleRequest → ForceSettleRequest
resolve_if_paid request =
    if request.free_balance_due == 0 && request.locked_balance_due == 0
    then record request { is_resolved = true }
    else request

unfoldable pub finalize_paid : ℤ → ForceSettleRequest → ForceSettleRequest
unfolding resolve_if_paid lock_expired
finalize_paid now request = resolve_if_paid (record request {
  free_balance_due = 0;
  locked_balance_due = if lock_expired now request then 0 else request.locked_balance_due;
})

module _ (p : Platform) (e : Env) where
  unfoldable pub pay_request :
      (vault key vault_token recipient_token : Pubkey) (claimable available : ℕ)
      → VaultConfig
      → ForceSettleRequest
      → Chain
      → Result ProgramError Chain
  pay_request vault key vault_token recipient_token claimable available config request chain = do
    require (leb claimable available) (custom vault_insolvent)
    let transfer : TokenTransfer = record {
      from = vault_token;
      to = recipient_token;
      authority = vault;
      signer_seeds = vault_signer_seeds config;
      amount = claimable;
    }
    tokens ← ok_or (p.token_transfer chain.tokens transfer) token_error
    ok (
        save (record chain { tokens = tokens }) key
          (force_settle_request (finalize_paid e.clock request)))

  unfoldable pub force_settle_finalize :
      (caller vault key vault_token recipient_token : Pubkey) → Chain → Result ProgramError Chain
  force_settle_finalize caller vault key vault_token recipient_token chain = do
    require (e.is_signer caller) account_not_signer
    config ← load_vault_config chain vault
    request ← load_force_settle_request chain key
    vault_account ← load_token_account chain vault_token
    recipient_account ← load_token_account chain recipient_token
    require (bytes_eq request.vault vault) constraint_raw
    require (not request.is_resolved) (custom already_resolved)
    require (bytes_eq vault_token config.vault_token_account) constraint_address
    require (bytes_eq recipient_token request.recipient_ata) constraint_address
    require (ltb_ℤ request.dispute_deadline e.clock) (custom dispute_window_active)
    claimable ← claimable_amount e.clock request
    if claimable == 0
        then ok (save chain key (force_settle_request (finalize_nothing request)))
        else pay_request vault key vault_token recipient_token claimable vault_account.amount config
            request chain
