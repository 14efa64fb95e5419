-- ===== src/Vault/Tests/Samples.antt =====
-- A vault, its accounts and the signed instructions of the tests.
use privacy_x.Base.{
  ℕ, zero, suc, ◌%◌, ◌/◌, true, false, Bytes, Option, some, none, [], ◌∷◌, ◌++◌, length, replicate,
  ℤ, pos, Result, ok, err,
}
use privacy_x.Base.Store.{put}
use privacy_x.Vault.Error.{ProgramError}
use privacy_x.Vault.State.{
  Pubkey, VaultConfig, vault_config, ForceSettleRequest, force_settle_request, Chain,
}
use privacy_x.Vault.Platform.{Env, Instruction}
use privacy_x.Vault.Funds.{DepositAccounts, WithdrawAccounts}

abbrev pub vault_key : Pubkey
vault_key = replicate 32 1

abbrev pub signer_key : Pubkey
signer_key = replicate 32 9

abbrev pub client_key : Pubkey
client_key = replicate 32 4

abbrev pub vault_tokens : Pubkey
vault_tokens = 5 ∷ []

abbrev pub client_tokens : Pubkey
client_tokens = replicate 32 6

abbrev pub request_key : Pubkey
request_key = 8 ∷ []

abbrev pub sample_vault : VaultConfig
sample_vault = record {
  bump = 254;
  vault_id = 7;
  governance = 2 ∷ [];
  status = 0;
  vault_signer_pubkey = signer_key;
  usdc_mint = 3 ∷ [];
  vault_token_account = vault_tokens;
  auditor_master_pubkey = [];
  auditor_epoch = 0;
  attestation_policy_hash = [];
  successor_vault = [];
  exit_deadline = pos 0;
  lifetime_deposited = 100;
  lifetime_withdrawn = 0;
  lifetime_settled = 0;
}

abbrev pub sample_request : ForceSettleRequest
sample_request = record {
  bump = 254;
  vault = vault_key;
  participant = client_key;
  participant_kind = 0;
  recipient_ata = client_tokens;
  free_balance_due = 20;
  locked_balance_due = 5;
  max_lock_expires_at = pos 150;
  receipt_nonce = 3;
  receipt_signature = [];
  initiated_at = pos 0;
  dispute_deadline = pos 90;
  is_resolved = false;
}

abbrev pub sample_chain : Chain
sample_chain = record {
  accounts =
      put (put (λ k. none) vault_key (vault_config sample_vault)) request_key
        (force_settle_request sample_request);
  tokens =
      put (put (λ k. none) vault_tokens (record { mint = 3 ∷ []; owner = vault_key; amount = 100 }))
        client_tokens (record { mint = 3 ∷ []; owner = client_key; amount = 40 });
}

-- The data of a precompile instruction with one signature, its key and its message.
abbrev pub signed_data : Bytes → Bytes
signed_data message =
    (1 ∷ 0 ∷ 16 ∷ 0 ∷ 255 ∷ 255 ∷ 80 ∷ 0 ∷ 255 ∷ 255 ∷ 112 ∷ 0 ∷ [])
    ++ ((length message % 256) ∷ (length message / 256) ∷ 255 ∷ 255 ∷ [])
    ++ replicate 64 8
    ++ signer_key
    ++ message

abbrev pub first_of : Instruction → ℕ → Option Instruction
first_of ix zero = some ix
first_of ix (suc n) = none

-- A transaction of a precompile instruction with this message, and then the call.
abbrev pub env_at : ℤ → Bytes → Env
env_at now message = record {
  clock = now;
  is_signer = λ k. true;
  is_mint = λ k. true;
  can_create = λ k. true;
  current_index = some 1;
  instruction_at =
      first_of (record { program_id = 101 ∷ []; accounts = []; ix_data = signed_data message });
}

abbrev pub chain_of : Result ProgramError Chain → Chain
chain_of (ok c) = c
chain_of (err x) = sample_chain

abbrev pub deposit_accounts : DepositAccounts
deposit_accounts = record {
  client = client_key;
  vault_config = vault_key;
  client_token_account = client_tokens;
  vault_token_account = vault_tokens;
}

abbrev pub withdraw_accounts_of_client : WithdrawAccounts
withdraw_accounts_of_client = record {
  client = client_key;
  vault_config = vault_key;
  vault_token_account = vault_tokens;
  client_token_account = client_tokens;
}
