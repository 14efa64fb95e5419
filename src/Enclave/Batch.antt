-- ===== src/Enclave/Batch.antt =====
-- enclave/src/batch.rs, the decisions of the batch loop: when a batch fires, which settlements of a
-- provider it takes, how they are cut into atomic chunks and what each chunk pays. Differences of
-- times are integers, as times are far inside the range of i64.
pub mod Decision
pub mod Chunks
pub mod Privacy
pub mod Aggregate
pub mod Rounds
pub mod Overdue
use privacy_x.Base.{
  ℕ, zero, suc, ◌+◌, ◌-◌, ◌/◌, ◌%◌, Bool, true, false, not, ◌&&◌, ◌||◌, ◌==◌, ltb, leb, Option,
  none, some, List, [], ◌∷◌, map, length, take, drop, Bytes, bytes_eq, min, ℤ, pos, ◌-ℤ◌, ◌+ℤ◌,
  leb_ℤ, ltb_ℤ, min_ℤ, if◌then◌else◌, u64_mod, u8_mod,
}
use privacy_x.Vault.State.{Pubkey}
use privacy_x.Enclave.Ledger.{unwrap_or}

abbrev pub max_settlement_delay_sec : ℕ
max_settlement_delay_sec = 900

abbrev pub max_settlements_per_tx : ℕ
max_settlements_per_tx = 20

abbrev pub max_atomic_settlements_with_audit : ℕ
max_atomic_settlements_with_audit = 2

pub record BatchSettlementEntry : Type 0 where
  pub provider_token_account : Pubkey
  pub amount : ℕ

pub record BatchAuditEntry : Type 0 where
  pub encrypted_sender : Bytes
  pub encrypted_amount : Bytes
  pub provider : Pubkey
  pub timestamp : ℤ

pub record PreparedSettlement : Type 0 where
  pub settlement_id : Bytes
  pub provider_id : Bytes
  pub settlement : BatchSettlementEntry
  pub audit : BatchAuditEntry

pub record BatchPrivacyConfig : Type 0 where
  pub batch_window_sec : ℤ
  pub auto_batch_min_provider_payout_atomic : ℕ
  pub min_anonymity_window_sec : ℤ
  pub min_batch_providers : ℕ

pub data BatchBuildMode : Type 0 where
  auto flush : BatchBuildMode

pub data BatchLoopDecision : Type 0 where
  skip wait fire : BatchLoopDecision

-- `age >= MAX_SETTLEMENT_DELAY_SEC`.
abbrev pub is_overdue : ℤ → Bool
is_overdue age = leb_ℤ (pos max_settlement_delay_sec) age

-- The jitter: wait until its deadline, drawn now if there is none yet.
unfoldable pub after_jitter : (now : ℤ) → ℤ → BatchLoopDecision × Option ℤ
after_jitter now deadline = if ltb_ℤ now deadline then (wait, some deadline) else (fire, none)

unfoldable pub decide_batch_action :
    (now elapsed batch_window_sec : ℤ) (provider_count : ℕ) (oldest_credit_age : ℤ)
    (jitter_deadline : Option ℤ) (sampled_jitter_sec : ℤ) (min_batch_providers : ℕ)
    → BatchLoopDecision × Option ℤ
decide_batch_action now elapsed batch_window_sec provider_count oldest_credit_age jitter_deadline
      sampled_jitter_sec min_batch_providers =
    if provider_count == 0
    then (skip, none)
    else if not (
        leb_ℤ batch_window_sec elapsed
        || leb max_settlements_per_tx provider_count
        || is_overdue oldest_credit_age)
    then (skip, none)
    else if ltb provider_count min_batch_providers && not (is_overdue oldest_credit_age)
    then (skip, none)
    else if is_overdue oldest_credit_age
    then (fire, none)
    else after_jitter now (unwrap_or jitter_deadline (now +ℤ sampled_jitter_sec))

unfoldable pub settlement_is_age_eligible : ℤ → BatchPrivacyConfig → Bool
settlement_is_age_eligible age config =
    if is_overdue age then true else leb_ℤ config.min_anonymity_window_sec age

unfoldable pub provider_payout_floor_satisfied : ℕ → ℤ → BatchPrivacyConfig → Bool
provider_payout_floor_satisfied eligible_amount eligible_oldest_age config =
    if eligible_amount == 0
    then false
    else if is_overdue eligible_oldest_age
    then true
    else config.auto_batch_min_provider_payout_atomic == 0
      || leb config.auto_batch_min_provider_payout_atomic eligible_amount

-- A candidate: a settlement's identifier, its time and its amount.
pub record Candidate : Type 0 where
  pub sid : Bytes
  pub timestamp : ℤ
  pub amount : ℕ

pub record ProviderBatchSelection : Type 0 where
  pub settlement_ids : List Bytes
  pub oldest_timestamp : ℤ

abbrev pub is_eligible : ℤ → BatchBuildMode → BatchPrivacyConfig → Candidate → Bool
is_eligible batch_timestamp flush config x = true
is_eligible batch_timestamp auto config x =
    settlement_is_age_eligible (batch_timestamp -ℤ x.timestamp) config

unfoldable pub eligible : ℤ → BatchBuildMode → BatchPrivacyConfig → List Candidate → List Candidate
eligible batch_timestamp mode config [] = []
eligible batch_timestamp mode config (x ∷ xs) =
    let rest = eligible batch_timestamp mode config xs in
    if is_eligible batch_timestamp mode config x then x ∷ rest else rest

-- `saturating_add` over the amounts, from the first to the last.
unfoldable pub saturating_total : ℕ → List Candidate → ℕ
saturating_total acc [] = acc
saturating_total acc (x ∷ xs) = saturating_total (min (acc + x.amount) (u64_mod - 1)) xs

unfoldable pub oldest : ℤ → List Candidate → ℤ
oldest acc [] = acc
oldest acc (x ∷ xs) = oldest (min_ℤ acc x.timestamp) xs

abbrev pub is_auto : BatchBuildMode → Bool
is_auto auto = true
is_auto flush = false

-- The eligible candidates of a provider, when there are some.
unfoldable pub select_eligible :
    ℤ → BatchBuildMode → BatchPrivacyConfig → List Candidate → Option ProviderBatchSelection
select_eligible batch_timestamp mode config [] = none
select_eligible batch_timestamp mode config (x ∷ xs) =
    let oldest_timestamp = oldest x.timestamp xs in
    if is_auto mode
      && not (
          provider_payout_floor_satisfied (saturating_total 0 (x ∷ xs))
            (batch_timestamp -ℤ oldest_timestamp) config)
    then none
    else some (record {
      settlement_ids = map (λ (y : Candidate). y.sid) (x ∷ xs);
      oldest_timestamp = oldest_timestamp;
    })

unfoldable pub select_provider_batch_entries :
    List Candidate → ℤ → BatchBuildMode → BatchPrivacyConfig → Option ProviderBatchSelection
select_provider_batch_entries candidates batch_timestamp mode config =
    select_eligible batch_timestamp mode config (eligible batch_timestamp mode config candidates)

pub record BatchChunk : Type 0 where
  pub start_index : ℕ
  pub entries : List PreparedSettlement

-- `base_chunk_size + usize::from(chunk_idx < extra_entries)`.
abbrev pub chunk_size : (base_chunk_size extra_entries chunk_idx : ℕ) → ℕ
chunk_size base_chunk_size extra_entries chunk_idx =
    base_chunk_size + (if ltb chunk_idx extra_entries then 1 else 0)

-- The chunks that are left, from `chunk_idx` and `start` on.
unfoldable pub chunks_from :
    (base_chunk_size extra_entries : ℕ)
    → List PreparedSettlement
    → (rounds chunk_idx start : ℕ) → List BatchChunk
chunks_from base extra entries zero chunk_idx start = []
chunks_from base extra entries (suc n) chunk_idx start =
    record {
      start_index = start % u8_mod;
      entries = take (chunk_size base extra chunk_idx) (drop start entries);
    }
    ∷ chunks_from base extra entries n (chunk_idx + 1) (start + chunk_size base extra chunk_idx)

unfoldable pub chunk_count : List PreparedSettlement → ℕ
chunk_count entries =
    (length entries + max_atomic_settlements_with_audit - 1) / max_atomic_settlements_with_audit

-- No entries make no chunks: their count is 0.
unfoldable pub build_batch_chunks : List PreparedSettlement → List BatchChunk
build_batch_chunks entries =
    let count = chunk_count entries in
    chunks_from (length entries / count) (length entries % count) entries count 0 0

-- The number of different keys: the length of a `HashSet` of them.
unfoldable pub is_among : Pubkey → List Pubkey → Bool
is_among k [] = false
is_among k (x ∷ xs) = bytes_eq x k || is_among k xs

unfoldable pub distinct : List Pubkey → ℕ
distinct [] = 0
distinct (x ∷ xs) = let rest = distinct xs in if is_among x xs then rest else suc rest

abbrev pub accounts_of : List PreparedSettlement → List Pubkey
accounts_of = map (λ (e : PreparedSettlement). e.settlement.provider_token_account)

unfoldable pub any_overdue : ℤ → List PreparedSettlement → Bool
any_overdue batch_timestamp [] = false
any_overdue batch_timestamp (e ∷ es) =
    is_overdue (batch_timestamp -ℤ e.audit.timestamp) || any_overdue batch_timestamp es

unfoldable pub filter_chunks : ℤ → BatchPrivacyConfig → List BatchChunk → List BatchChunk
filter_chunks batch_timestamp config [] = []
filter_chunks batch_timestamp config (c ∷ cs) =
    let rest = filter_chunks batch_timestamp config cs in
    if leb config.min_batch_providers (distinct (accounts_of c.entries))
      || any_overdue batch_timestamp c.entries
    then c ∷ rest
    else rest

unfoldable pub privacy_filter_batch_chunks :
    List BatchChunk → ℤ → BatchBuildMode → BatchPrivacyConfig → List BatchChunk
privacy_filter_batch_chunks chunks batch_timestamp mode config =
    if not (is_auto mode) || leb config.min_batch_providers 1
    then chunks
    else filter_chunks batch_timestamp config chunks
