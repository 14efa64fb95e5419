-- ===== src/Vault/Tests/Money.antt =====
-- Withdrawals, deposits and finalizations on the sample chain.
use privacy_x.Base.{
  ◌≡◌, ◌≢◌, refl, ok, pos, arith, bytes_eq, checked_add, u64_bytes, i64_bytes, le_bytes, slice,
}
use privacy_x.Base.Store.{put}
use privacy_x.Vault.State.{Chain, load_vault_config, load_token_account, save}
use privacy_x.Vault.Platform.{Env, init_account}
use privacy_x.Vault.Ed25519.{
  byte_at, u16_at, slice_at, instruction_index_refs_embedded_data, parse_ed25519,
  verify_ed25519_signature, verify_ed25519_signature_details,
  verify_ed25519_signature_details_relative,
}
use privacy_x.Vault.Funds.{withdraw, withdraw_accounts, withdraw_checks, withdraw_message}
use privacy_x.Vault.Program.{Call, execute, World, Step, Reach, here, next}
use privacy_x.Vault.Program.Evolution.{ChainEvolves}
use privacy_x.Vault.Program.Frame.{execute-ChainEvolves}
use privacy_x.Vault.Program.Permanent.{withdraw_once}
use privacy_x.Vault.Program.Books.{Booked, trade-Booked}
use privacy_x.Vault.Program.Lifecycle.{VaultAfter, Reach-vault}
use privacy_x.Vault.Program.Requests.{RequestAfter, Reach-request}
use privacy_x.Vault.Program.WithdrawCall.{Withdrawn, withdraw-Withdrawn}
use privacy_x.Vault.Tests.Machine.{machine, machine_laws, transfer}
use privacy_x.Vault.Tests.Samples.{
  sample_chain, sample_vault, sample_request, vault_key, request_key, env_at, chain_of,
  withdraw_accounts_of_client,
}

abbrev withdraw_env : Env
withdraw_env = env_at (pos 10) (withdraw_message withdraw_accounts_of_client 30 1 (pos 500))

abbrev after_withdraw : Chain
after_withdraw =
    chain_of (withdraw machine withdraw_env withdraw_accounts_of_client 30 1 (pos 500) sample_chain)

withdraws :
    withdraw machine withdraw_env withdraw_accounts_of_client 30 1 (pos 500) sample_chain
    ≡ ok after_withdraw
unfolding withdraw withdraw_accounts withdraw_checks withdraw_message load_vault_config
    load_token_account save init_account verify_ed25519_signature verify_ed25519_signature_details
    verify_ed25519_signature_details_relative parse_ed25519 byte_at u16_at slice_at slice
    instruction_index_refs_embedded_data bytes_eq checked_add u64_bytes i64_bytes le_bytes put
    transfer
withdraws = refl

withdraw_once_example :
    withdraw machine withdraw_env withdraw_accounts_of_client 50 1
      (pos 900)
      (record after_withdraw { tokens = sample_chain.tokens })
    ≢ ok sample_chain
withdraw_once_example =
    withdraw_once machine withdraw_env withdraw_env withdraw_accounts_of_client
      withdraw_accounts_of_client 30 50 1 (pos 500) (pos 900) sample_chain after_withdraw
      sample_chain
      (record { chain = record after_withdraw { tokens = sample_chain.tokens }; now = pos 10 })
      withdraws (next here (Step.tokens_move sample_chain.tokens)) refl refl

withdraw-Withdrawn_example :
    Withdrawn machine withdraw_env withdraw_accounts_of_client 30 1
      (pos 500)
      sample_chain
      after_withdraw
withdraw-Withdrawn_example =
    withdraw-Withdrawn machine withdraw_env withdraw_accounts_of_client 30 1 (pos 500) sample_chain
      after_withdraw withdraws

the_withdrawal : Call
the_withdrawal = Call.withdraw withdraw_accounts_of_client 30 1 (pos 500)

executes : execute machine withdraw_env the_withdrawal sample_chain ≡ ok after_withdraw
unfolding execute the_withdrawal
executes = withdraws

trade-Booked_example : Booked vault_key sample_vault sample_chain after_withdraw
unfolding the_withdrawal put bytes_eq
trade-Booked_example =
    trade-Booked machine withdraw_env the_withdrawal vault_key sample_vault sample_chain
      after_withdraw machine_laws refl (refl, ground arith) executes

execute-ChainEvolves_example : ChainEvolves (pos 10) sample_chain after_withdraw
execute-ChainEvolves_example =
    execute-ChainEvolves machine withdraw_env the_withdrawal sample_chain after_withdraw executes

abbrev start : World
start = record { chain = sample_chain; now = pos 5 }

abbrev later : World
later = record { chain = after_withdraw; now = pos 10 }

the_run : Reach machine start later
the_run = next here (Step.call withdraw_env the_withdrawal after_withdraw (omega arith) executes)

Reach-vault_example : VaultAfter (pos 10) sample_vault (after_withdraw.accounts vault_key)
unfolding put bytes_eq
Reach-vault_example = Reach-vault machine start later vault_key sample_vault refl the_run

Reach-request_example :
    RequestAfter (pos 5) (pos 10) sample_request (after_withdraw.accounts request_key)
unfolding put bytes_eq
Reach-request_example = Reach-request machine start later request_key sample_request refl the_run
