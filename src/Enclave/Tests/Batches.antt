-- ===== src/Enclave/Tests/Batches.antt =====
-- Three settlements of two providers, in a batch.
use privacy_x.Base.{
  ℕ, ◌≤◌, ◌<◌, ◌≡◌, ◌⊎◌, refl, none, [], ◌∷◌, map, List, pos, ◌≤ℤ◌, bytes_eq, checked_add, Bytes,
}
use privacy_x.Vault.State.{Pubkey}
use privacy_x.Enclave.Batch.{
  PreparedSettlement, BatchSettlementEntry, BatchPrivacyConfig, fire, decide_batch_action,
  max_settlement_delay_sec, build_batch_chunks,
}
use privacy_x.Enclave.Batch.Decision.{decide_batch_action_fires}
use privacy_x.Enclave.Batch.Chunks.{entries_of, AreWellCut, build_batch_chunks-AreWellCut}
use privacy_x.Enclave.Batch.Privacy.{Selected, prepare_settlement}
use privacy_x.Enclave.Batch.Aggregate.{
  aggregate_settlements, aggregate_from, add_amount, comes_before, owed_to, paid_to,
  aggregate_settlements_pays,
}

abbrev selected : Pubkey → ℕ → Selected
selected account amount = record {
  sid = 1 ∷ account;
  provider_id = 2 ∷ account;
  settled = record {
    settlement_id = 1 ∷ account;
    client = 70 ∷ [];
    provider = account;
    amount = amount;
    timestamp = pos 10;
  };
}

abbrev plain : Pubkey → Pubkey → ℕ → Bytes × Bytes
plain client provider amount = (client, amount ∷ [])

abbrev three : List Selected
three = selected (82 ∷ []) 5 ∷ selected (81 ∷ []) 7 ∷ selected (82 ∷ []) 9 ∷ []

abbrev batch : List PreparedSettlement
batch = map (prepare_settlement plain (pos 2000)) three

abbrev config : BatchPrivacyConfig
config = record {
  batch_window_sec = pos 120;
  auto_batch_min_provider_payout_atomic = 0;
  min_anonymity_window_sec = pos 300;
  min_batch_providers = 3;
}

decide_batch_action_fires_example :
    ((decide_batch_action (pos 2000) (pos 5) (pos 120) 1 (pos 1990) none (pos 3) 2).0 ≡ fire
      → (0 < 1) × ((2 ≤ 1) ⊎ (pos max_settlement_delay_sec ≤ℤ pos 1990)))
    × (0 < 1
        → pos max_settlement_delay_sec ≤ℤ pos 1990
        → decide_batch_action (pos 2000) (pos 5) (pos 120) 1 (pos 1990) none (pos 3) 2
          ≡ (fire, none))
decide_batch_action_fires_example =
    decide_batch_action_fires (pos 2000) (pos 5) (pos 120) 1 (pos 1990) none (pos 3) 2

build_batch_chunks-AreWellCut_example :
    (entries_of (build_batch_chunks batch) ≡ batch) × AreWellCut 0 (build_batch_chunks batch)
build_batch_chunks-AreWellCut_example = build_batch_chunks-AreWellCut batch

abbrev totals : List BatchSettlementEntry
totals =
    record { provider_token_account = 81 ∷ []; amount = 7 }
    ∷ record { provider_token_account = 82 ∷ []; amount = 14 }
    ∷ []

aggregate_settlements_pays_example : paid_to (82 ∷ []) totals ≡ owed_to (82 ∷ []) batch
unfolding aggregate_settlements aggregate_from add_amount comes_before bytes_eq checked_add
    prepare_settlement
aggregate_settlements_pays_example = aggregate_settlements_pays batch totals (82 ∷ []) refl
