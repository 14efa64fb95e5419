-- ===== src/Vault/Tests/Disputes.antt =====
-- Force-settle requests on the sample chain: one that is opened, challenged and finalized.
use privacy_x.Base.{
  ℕ, ◌+◌, ◌≡◌, ◌≢◌, refl, Bytes, ok, pos, arith, bytes_eq, eqb_ℤ, checked_add, checked_add_i64,
  u64_bytes, u64_of_bytes, i64_bytes, i64_of_bytes, le_bytes, of_le_bytes, slice, replicate, Option,
  some, none, true, [], ◌∷◌,
}
use privacy_x.Base.Store.{put}
use privacy_x.Vault.State.{
  Chain, load_vault_config, load_token_account, load_force_settle_request, save, Tokens,
  force_settle_request,
}
use privacy_x.Vault.Platform.{Env, init_account}
use privacy_x.Vault.Ed25519.{
  byte_at, u16_at, slice_at, instruction_index_refs_embedded_data, parse_ed25519,
  verify_ed25519_signature_details, verify_ed25519_signature_details_relative,
}
use privacy_x.Vault.Receipt.{decode_participant_receipt_message}
use privacy_x.Vault.ForceSettle.{
  ReceiptArgs, receipt_matches, check_receipt, force_settle_init, force_settle_challenge,
  force_settle_finalize, claimable_amount, finalize_paid, pay_request,
}
use privacy_x.Vault.ForceSettle.Checks.{
  Opened, force_settle_init-Opened, Challenged, force_settle_challenge-Challenged,
}
use privacy_x.Vault.ForceSettle.Payout.{due, payout, claimable_conserves}
use privacy_x.Vault.ForceSettle.Accounting.{
  Accounted, force_settle_finalize-Accounted, force_settle_finalize-in_full,
}
use privacy_x.Enclave.Messages.{build_participant_receipt_message}
use privacy_x.Vault.Program.{here}
use privacy_x.Vault.Program.Permanent.{force_settle_once}
use privacy_x.Vault.Tests.Machine.{machine, machine_laws, transfer}
use privacy_x.Vault.Tests.Samples.{
  sample_chain, sample_vault, sample_request, vault_key, vault_tokens, client_key, client_tokens,
  request_key, env_at, chain_of,
}

-- A receipt for the client with this nonce, as the enclave builds it.
abbrev receipt : ℕ → Bytes
receipt nonce =
    build_participant_receipt_message vault_key client_key 0 client_tokens 20 5 (pos 150) nonce
      (pos 40) 2

abbrev args : ℕ → ReceiptArgs
args nonce = record {
  recipient_ata = client_tokens;
  free_balance = 20;
  locked_balance = 5;
  max_lock_expires_at = pos 150;
  receipt_nonce = nonce;
  receipt_signature = replicate 64 8;
  receipt_message = receipt nonce;
}

abbrev receipt_env : Env
receipt_env = env_at (pos 50) (receipt 4)

abbrev after_init : Chain
after_init =
    chain_of (force_settle_init machine receipt_env client_key vault_key 0 (args 4) sample_chain)

opens :
    force_settle_init machine receipt_env client_key vault_key 0 (args 4) sample_chain
    ≡ ok after_init
unfolding force_settle_init check_receipt receipt_matches load_vault_config save init_account
    verify_ed25519_signature_details verify_ed25519_signature_details_relative parse_ed25519 byte_at
    u16_at slice_at slice instruction_index_refs_embedded_data bytes_eq eqb_ℤ checked_add_i64
    u64_bytes i64_bytes le_bytes u64_of_bytes i64_of_bytes of_le_bytes put
    decode_participant_receipt_message build_participant_receipt_message
opens = refl

force_settle_init-Opened_example :
    Opened machine receipt_env client_key vault_key 0 (args 4) sample_chain after_init
force_settle_init-Opened_example =
    force_settle_init-Opened machine receipt_env client_key vault_key 0 (args 4) sample_chain
      after_init opens

abbrev after_challenge : Chain
after_challenge = chain_of (
    force_settle_challenge machine receipt_env (70 ∷ []) vault_key request_key (args 4)
      sample_chain)

challenges :
    force_settle_challenge machine receipt_env (70 ∷ []) vault_key request_key (args 4) sample_chain
    ≡ ok after_challenge
unfolding force_settle_challenge check_receipt receipt_matches load_vault_config
    load_force_settle_request save verify_ed25519_signature_details
    verify_ed25519_signature_details_relative parse_ed25519 byte_at u16_at slice_at slice
    instruction_index_refs_embedded_data bytes_eq eqb_ℤ u64_bytes i64_bytes le_bytes u64_of_bytes
    i64_of_bytes of_le_bytes put decode_participant_receipt_message
    build_participant_receipt_message
challenges = refl

force_settle_challenge-Challenged_example :
    Challenged machine receipt_env vault_key request_key (args 4) sample_chain after_challenge
force_settle_challenge-Challenged_example =
    force_settle_challenge-Challenged machine receipt_env (70 ∷ []) vault_key request_key (args 4)
      sample_chain after_challenge challenges

-- Before the locks expire, 20 are paid; after, all 25.
abbrev after_finalize : Chain
after_finalize = chain_of (
    force_settle_finalize machine (env_at (pos 100) []) (70 ∷ []) vault_key request_key vault_tokens
      client_tokens sample_chain)

finalizes :
    force_settle_finalize machine
      (env_at (pos 100) [])
      (70 ∷ [])
      vault_key
      request_key
      vault_tokens
      client_tokens
      sample_chain
    ≡ ok after_finalize
unfolding force_settle_finalize claimable_amount checked_add pay_request finalize_paid
    load_vault_config load_force_settle_request load_token_account save bytes_eq put transfer
finalizes = refl

force_settle_finalize-Accounted_example :
    Accounted sample_request request_key vault_tokens client_tokens sample_chain after_finalize
unfolding put bytes_eq
force_settle_finalize-Accounted_example =
    force_settle_finalize-Accounted machine (env_at (pos 100) []) vault_key request_key vault_tokens
      client_tokens sample_chain after_finalize machine_laws (ground arith) (70 ∷ []) sample_request
      refl finalizes

claimable_conserves_example : due (finalize_paid (pos 200) sample_request) + 25 ≡ due sample_request
unfolding claimable_amount checked_add
claimable_conserves_example = claimable_conserves (pos 200) sample_request 25 refl

abbrev tokens_of : Option Tokens → Tokens
tokens_of (some t) = t
tokens_of none = λ k. none

abbrev paid_tokens : Tokens
paid_tokens =
    tokens_of
      (transfer sample_chain.tokens (payout sample_vault vault_key vault_tokens client_tokens 25))

force_settle_finalize-in_full_example :
    (force_settle_finalize machine
        (env_at (pos 200) [])
        (70 ∷ [])
        vault_key
        request_key
        vault_tokens
        client_tokens
        sample_chain
      ≡ ok (
          save
            (record sample_chain { tokens = paid_tokens })
            request_key
            (force_settle_request (finalize_paid (pos 200) sample_request))))
    × ((finalize_paid (pos 200) sample_request).is_resolved ≡ true)
    × (due (finalize_paid (pos 200) sample_request) ≡ 0)
unfolding put bytes_eq transfer
force_settle_finalize-in_full_example =
    force_settle_finalize-in_full machine (env_at (pos 200) []) (70 ∷ []) vault_key request_key
      sample_vault sample_request (record { mint = 3 ∷ []; owner = vault_key; amount = 100 })
      (record { mint = 3 ∷ []; owner = client_key; amount = 40 }) sample_chain paid_tokens
      (record {
        signed = refl;
        config_at = refl;
        request_at = refl;
        vault_token_at = refl;
        recipient_at = refl;
        of_vault = refl;
        unresolved = refl;
        window_over = omega arith;
        locks_over = omega arith;
        solvent = omega arith;
        fits = omega arith;
      })
      (omega arith) refl

force_settle_once_example :
    force_settle_init machine receipt_env client_key vault_key 0 (args 4) after_init
    ≢ ok sample_chain
force_settle_once_example =
    force_settle_once machine receipt_env receipt_env client_key vault_key 0 (args 4) (args 4)
      sample_chain after_init sample_chain (record { chain = after_init; now = pos 50 }) opens here
