-- ===== src/Enclave/Batch/Privacy.antt =====
-- What the privacy filter lets through, of a batch as `prepare_batch` prepares it.
use privacy_x.Base.{ℕ, ◌≤◌, ◌≡◌, List, [], ◌∷◌, Bytes, ℤ}
use privacy_x.Vault.State.{Pubkey}
use privacy_x.Enclave.State.{SettlementRecord}
use privacy_x.Enclave.Batch.{PreparedSettlement, BatchChunk, distinct, accounts_of}

-- A settlement that has been selected: its identifier, its provider's and its record.
pub record Selected : Type 0 where
  pub sid : Bytes
  pub provider_id : Bytes
  pub settled : SettlementRecord

-- What `prepare_batch` pushes; `encrypt` is ElGamal encryption of the client and the amount under the
-- provider's key. The audit record carries the time of the batch.
unfoldable pub prepare_settlement :
    (encrypt : (client provider : Pubkey) (amount : ℕ) → Bytes × Bytes) (batch_timestamp : ℤ)
    → Selected
    → PreparedSettlement
prepare_settlement encrypt batch_timestamp x = record {
  settlement_id = x.sid;
  provider_id = x.provider_id;
  settlement = record { provider_token_account = x.settled.provider; amount = x.settled.amount };
  audit = record {
    encrypted_sender = (encrypt x.settled.client x.settled.provider x.settled.amount).0;
    encrypted_amount = (encrypt x.settled.client x.settled.provider x.settled.amount).1;
    provider = x.settled.provider;
    timestamp = batch_timestamp;
  };
}

AreStamped : ℤ → List PreparedSettlement → Type 0
AreStamped t [] = Unit {0}
AreStamped t (e ∷ es) = (e.audit.timestamp ≡ t) × AreStamped t es

-- Each chunk pays to at least `least` accounts.
unfoldable pub AreMixed : ℕ → List BatchChunk → Type 0
AreMixed least [] = Unit {0}
AreMixed least (c ∷ cs) = (least ≤ distinct (accounts_of c.entries)) × AreMixed least cs
