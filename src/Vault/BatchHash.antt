-- ===== src/Vault/BatchHash.antt =====
-- programs/subly402_vault/src/batch_hash.rs. The hasher's updates are one message, hashed at the end.
use privacy_x.Base.{ℕ, Bytes, List, [], ◌∷◌, ◌++◌, map, concat, u64_bytes, i64_bytes}
use privacy_x.Vault.AscClaim.{ascii}
use privacy_x.Vault.Platform.{Platform, AuditRecordData, SettlementEntry}

-- What one settlement and one audit record add to the hasher.
settlement_bytes : SettlementEntry → Bytes
settlement_bytes s = s.provider_token_account ++ u64_bytes s.amount

record_bytes : AuditRecordData → Bytes
record_bytes r =
    concat (r.encrypted_sender ∷ r.encrypted_amount ∷ r.provider ∷ i64_bytes r.timestamp ∷ [])

unfoldable pub batch_chunk_preimage : ℕ → List SettlementEntry → List AuditRecordData → Bytes
unfolding settlement_bytes record_bytes
batch_chunk_preimage batch_id settlements records =
    ascii "subly402-batch-chunk-v1"
    ++ (u64_bytes batch_id
        ++ (concat (map settlement_bytes settlements) ++ concat (map record_bytes records)))

unfoldable pub compute_batch_chunk_hash :
    Platform → ℕ → List SettlementEntry → List AuditRecordData → Bytes
unfolding batch_chunk_preimage
compute_batch_chunk_hash p batch_id settlements records =
    p.sha256 (batch_chunk_preimage batch_id settlements records)
