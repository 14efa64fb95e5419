-- ===== src/Enclave/Tests/Overdue.antt =====
-- A provider's settlements, of which the second has waited for too long.
use privacy_x.Base.{◌≡◌, ◌++◌, some, [], ◌∷◌, map, pos, ◌-ℤ◌, arith, ℕ}
use privacy_x.Enclave.Batch.{
  Candidate, BatchPrivacyConfig, ProviderBatchSelection, auto, eligible,
  select_provider_batch_entries,
}
use privacy_x.Enclave.Batch.Overdue.{select_provider_batch_entries_overdue}

abbrev candidate : ℕ → ℕ → ℕ → Candidate
candidate name time amount = record { sid = name ∷ []; timestamp = pos time; amount = amount }

abbrev config : BatchPrivacyConfig
config = record {
  batch_window_sec = pos 120;
  auto_batch_min_provider_payout_atomic = 500;
  min_anonymity_window_sec = pos 300;
  min_batch_providers = 2;
}

select_provider_batch_entries_overdue_example :
    (s : ProviderBatchSelection) × (select_provider_batch_entries
        (candidate 1 1990 7 ∷ candidate 2 1000 3 ∷ candidate 3 1500 4 ∷ [])
        (pos 2000)
        auto
        config
      ≡ some s)
    × (s.settlement_ids
        ≡ map (λ (y : Candidate). y.sid) (eligible (pos 2000) auto config (candidate 1 1990 7 ∷ []))
          ++ (2 ∷ [])
            ∷ map
                (λ (y : Candidate). y.sid)
                (eligible (pos 2000) auto config (candidate 3 1500 4 ∷ [])))
unfolding ◌-ℤ◌
select_provider_batch_entries_overdue_example =
    select_provider_batch_entries_overdue (pos 2000) auto config (candidate 1 1990 7 ∷ [])
      (candidate 3 1500 4 ∷ []) (candidate 2 1000 3) (omega arith) (omega arith)
