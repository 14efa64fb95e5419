-- ===== src/Vault/Tests/Batches.antt =====
-- A batch on the sample chain: its settlement and its audit.
use privacy_x.Base.{
  ◌+◌, ◌≡◌, ◌≢◌, refl, Bytes, ok, pos, arith, bytes_eq, checked_add, u64_bytes, u64_of_bytes,
  i64_bytes, le_bytes, of_le_bytes, replicate, List, [], ◌∷◌, ◌++◌, concat, take,
}
use privacy_x.Base.Store.{put}
use privacy_x.Vault.State.{
  Pubkey, VaultConfig, vault_config, Chain, load_vault_config, load_token_account, save,
}
use privacy_x.Vault.Platform.{Env, Instruction, SettlementEntry, init_account, balance}
use privacy_x.Vault.AscClaim.{ascii}
use privacy_x.Vault.BatchHash.{compute_batch_chunk_hash}
use privacy_x.Vault.Funds.{deposit}
use privacy_x.Vault.Settlement.{
  Wanted, settling_vault, before_exit, verify_record_audit_pairing, verify_settle_vault_pairing,
  parse_instruction, instruction_discriminator, is_wanted, search_pairing, check_instruction,
  check_parsed,
}
use privacy_x.Vault.Settlement.Pairing.{
  OtherHalf, chunk_bytes, verify_settle_vault_pairing-OtherHalf,
}
use privacy_x.Vault.SettleVault.{settle_vault, pay_entries}
use privacy_x.Vault.RecordAudit.{
  record_audit, write_records, resolve_audit_index, find_audit_index, index_follows, next_index,
  audit_seeds,
}
use privacy_x.Vault.Program.{Call, execute, World, here}
use privacy_x.Vault.Program.SettleCall.{pay_entries_moves, paid_to}
use privacy_x.Vault.Program.AuditCalls.{AllWritten, record_audit-AllWritten}
use privacy_x.Vault.Program.DepositCall.{Deposited, deposit-Deposited}
use privacy_x.Vault.Program.Retired.{retired_moves_nothing}
use privacy_x.Vault.Tests.Machine.{machine, machine_laws, transfer, sample_audit}
use privacy_x.Vault.Tests.Samples.{
  sample_chain, sample_vault, vault_key, vault_tokens, client_tokens, signer_key, deposit_accounts,
  env_at, chain_of, first_of,
}

abbrev batch_hash : Bytes
batch_hash = ascii "subly402"

abbrev entries : List SettlementEntry
entries =
    record { provider_token_account = client_tokens; amount = 12 }
    ∷ record { provider_token_account = client_tokens; amount = 3 }
    ∷ []

-- The other half of batch 9, for this entry point of the program.
abbrev half : Bytes → Instruction
half name = record {
  program_id = 100 ∷ [];
  accounts = [] ∷ vault_key ∷ [];
  ix_data = take 8 name ++ (u64_bytes 9 ++ (batch_hash ++ replicate 32 0));
}

abbrev batch_env : Bytes → Env
batch_env name = record (env_at (pos 60) []) { instruction_at = first_of (half name) }

abbrev audit_env : Env
audit_env = batch_env (ascii "global:record_audit")

abbrev after_settle : Chain
after_settle = chain_of (
    settle_vault machine audit_env signer_key vault_key vault_tokens
      (client_tokens ∷ client_tokens ∷ []) 9 batch_hash entries sample_chain)

pays :
    pay_entries machine sample_vault vault_key vault_tokens entries
      (client_tokens ∷ client_tokens ∷ [])
      sample_chain.tokens
      0
    ≡ ok (after_settle.tokens, 15)
unfolding settle_vault settling_vault before_exit verify_record_audit_pairing parse_instruction
    instruction_discriminator is_wanted search_pairing check_instruction check_parsed
    compute_batch_chunk_hash pay_entries load_vault_config load_token_account save bytes_eq put
    transfer checked_add u64_bytes u64_of_bytes i64_bytes le_bytes of_le_bytes
pays = refl

pay_entries_moves_example :
    (balance after_settle.tokens vault_tokens + 15 ≡ balance sample_chain.tokens vault_tokens)
    × ((k : Pubkey)
        → k ≢ vault_tokens
        → balance after_settle.tokens k ≡ balance sample_chain.tokens k + paid_to k entries)
pay_entries_moves_example =
    pay_entries_moves machine sample_vault vault_key vault_tokens machine_laws entries
      (client_tokens ∷ client_tokens ∷ []) sample_chain.tokens after_settle.tokens 0 15 pays
      (ground arith, (ground arith, tt))

abbrev settle_env : Env
settle_env = batch_env (ascii "global:settle_vault")

abbrev wanted : Wanted
wanted = record { batch_id = 9; batch_chunk_hash = batch_hash; vault = vault_key }

finds : verify_settle_vault_pairing machine settle_env wanted (sample_audit ∷ []) ≡ ok tt
unfolding verify_settle_vault_pairing search_pairing check_instruction check_parsed
    parse_instruction instruction_discriminator is_wanted compute_batch_chunk_hash bytes_eq
    u64_bytes u64_of_bytes i64_bytes le_bytes of_le_bytes
finds = refl

verify_settle_vault_pairing-OtherHalf_example :
    OtherHalf machine settle_env machine.read_settlements
      (λ settlements. chunk_bytes 9 settlements (sample_audit ∷ []))
      (ascii "global:settle_vault")
      wanted
verify_settle_vault_pairing-OtherHalf_example =
    verify_settle_vault_pairing-OtherHalf machine settle_env wanted (sample_audit ∷ []) finds

abbrev audit_key : Pubkey
audit_key = concat (audit_seeds vault_key 9 0)

abbrev after_audit : Chain
after_audit = chain_of (
    record_audit machine settle_env signer_key vault_key (audit_key ∷ []) 9 batch_hash
      (sample_audit ∷ []) sample_chain)

audits :
    record_audit machine settle_env signer_key vault_key
      (audit_key ∷ [])
      9
      batch_hash
      (sample_audit ∷ [])
      sample_chain
    ≡ ok after_audit
unfolding record_audit write_records resolve_audit_index find_audit_index index_follows next_index
    init_account settling_vault before_exit verify_settle_vault_pairing parse_instruction
    instruction_discriminator is_wanted search_pairing check_instruction check_parsed
    compute_batch_chunk_hash load_vault_config save bytes_eq put u64_bytes u64_of_bytes i64_bytes
    le_bytes of_le_bytes
audits = refl

record_audit-AllWritten_example : AllWritten sample_chain after_audit
record_audit-AllWritten_example =
    record_audit-AllWritten machine settle_env signer_key vault_key (audit_key ∷ []) 9 batch_hash
      (sample_audit ∷ []) sample_chain after_audit audits

abbrev after_deposit : Chain
after_deposit = chain_of (deposit machine (env_at (pos 10) []) deposit_accounts 25 sample_chain)

deposits : deposit machine (env_at (pos 10) []) deposit_accounts 25 sample_chain ≡ ok after_deposit
unfolding deposit load_vault_config load_token_account save bytes_eq checked_add put transfer
deposits = refl

deposit-Deposited_example :
    Deposited machine (env_at (pos 10) []) deposit_accounts 25 sample_chain after_deposit
deposit-Deposited_example =
    deposit-Deposited machine (env_at (pos 10) []) deposit_accounts 25 sample_chain after_deposit
      deposits

-- The sample chain with its vault retired.
abbrev retired_vault : VaultConfig
retired_vault = record sample_vault { status = 3 }

abbrev retired_world : World
retired_world = record {
  chain = save sample_chain vault_key (vault_config retired_vault);
  now = pos 10;
}

retired_moves_nothing_example :
    execute machine (env_at (pos 10) []) (Call.deposit deposit_accounts 25) retired_world.chain
    ≢ ok sample_chain
unfolding save put bytes_eq
retired_moves_nothing_example =
    retired_moves_nothing machine retired_world retired_world vault_key retired_vault
      (env_at (pos 10) []) (Call.deposit deposit_accounts 25) sample_chain refl refl here refl
