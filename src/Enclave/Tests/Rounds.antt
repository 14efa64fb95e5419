-- ===== src/Enclave/Tests/Rounds.antt =====
-- The cursors of three providers, as the test of `select_batch_settlement_ids` has them.
use privacy_x.Base.{◌≤◌, ◌≡◌, refl, List, [], ◌∷◌, length, pos, min, arith, ℕ}
use privacy_x.Enclave.Batch.Aggregate.{comes_before}
use privacy_x.Enclave.Batch.Rounds.{
  ProviderBatchCursor, Pick, retain_filled, insert_cursor, sort_cursors, run_round, run_rounds,
  select_batch_settlement_ids,
}
use privacy_x.Enclave.Batch.Rounds.Weights.{weigh, weigh_offers, weigh_turns, one}
use privacy_x.Enclave.Batch.Rounds.Fill.{select_batch_settlement_ids_fills}
use privacy_x.Enclave.Batch.Rounds.Turns.{select_batch_settlement_ids_serves}

abbrev cursors : List ProviderBatchCursor
cursors =
    record {
      provider_id = 98 ∷ [];
      oldest_credit_at = pos 200;
      settlement_ids = (98 ∷ 1 ∷ []) ∷ (98 ∷ 2 ∷ []) ∷ [];
      next_index = 0;
    }
    ∷ record {
      provider_id = 97 ∷ [];
      oldest_credit_at = pos 100;
      settlement_ids = (97 ∷ 1 ∷ []) ∷ (97 ∷ 2 ∷ []) ∷ (97 ∷ 3 ∷ []) ∷ [];
      next_index = 0;
    }
    ∷ record {
      provider_id = 99 ∷ [];
      oldest_credit_at = pos 200;
      settlement_ids = (99 ∷ 1 ∷ []) ∷ [];
      next_index = 0;
    }
    ∷ []

selects :
    select_batch_settlement_ids cursors 5
    ≡ (97 ∷ [], 97 ∷ 1 ∷ [])
      ∷ (98 ∷ [], 98 ∷ 1 ∷ [])
      ∷ (99 ∷ [], 99 ∷ 1 ∷ [])
      ∷ (97 ∷ [], 97 ∷ 2 ∷ [])
      ∷ (98 ∷ [], 98 ∷ 2 ∷ [])
      ∷ []
unfolding select_batch_settlement_ids retain_filled insert_cursor sort_cursors run_round run_rounds
    comes_before
selects = refl

select_batch_settlement_ids_fills_example :
    (length (select_batch_settlement_ids cursors 5) ≡ min 5 (weigh_offers one cursors))
    × ((w : Pick → ℕ) → weigh w (select_batch_settlement_ids cursors 5) ≤ weigh_offers w cursors)
select_batch_settlement_ids_fills_example = select_batch_settlement_ids_fills cursors 5

select_batch_settlement_ids_serves_example :
    weigh_turns one cursors ≤ weigh one (select_batch_settlement_ids cursors 5)
select_batch_settlement_ids_serves_example =
    select_batch_settlement_ids_serves cursors 5 (omega arith) one
