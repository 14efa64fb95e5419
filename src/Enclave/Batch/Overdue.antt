-- ===== src/Enclave/Batch/Overdue.antt =====
-- What the selection of a provider's settlements does with one that has waited too long.
use privacy_x.Base.{
  ℕ, ◌+◌, ◌≤◌, ◌≡◌, inl, inr, refl, true, false, Option, some, List, [], ◌∷◌, ◌++◌, map, ◌-◌, Bytes,
  min, ℤ, int_laws, ◌-ℤ◌, ◌≤ℤ◌, min_ℤ, pos, ◌==◌, Bool-cases, arith, ap, ◌∙◌, u64_mod,
}
use privacy_x.Enclave.Batch.{
  Candidate, BatchPrivacyConfig, BatchBuildMode, auto, flush, ProviderBatchSelection, is_overdue,
  eligible, is_eligible, settlement_is_age_eligible, saturating_total, oldest, select_eligible,
  provider_payout_floor_satisfied, select_provider_batch_entries, max_settlement_delay_sec,
}

saturating_total_grows : (acc : ℕ) (xs : List Candidate) → 1 ≤ acc → 1 ≤ saturating_total acc xs
unfolding saturating_total
saturating_total_grows acc [] h = h
saturating_total_grows acc (x ∷ xs) h =
    saturating_total_grows (min (acc + x.amount) (u64_mod - 1)) xs (omega arith)

oldest_le : (acc : ℤ) (xs : List Candidate) → oldest acc xs ≤ℤ acc
unfolding oldest
oldest_le acc [] = omega arith
oldest_le acc (x ∷ xs) = ground (arith, oldest_le (min_ℤ acc x.timestamp) xs)

oldest_of :
    (acc : ℤ) (xs ys : List Candidate) (x : Candidate) → oldest acc (xs ++ x ∷ ys) ≤ℤ x.timestamp
unfolding oldest
oldest_of acc [] ys x = ground (arith, oldest_le (min_ℤ acc x.timestamp) ys)
oldest_of acc (z ∷ zs) ys x = oldest_of (min_ℤ acc z.timestamp) zs ys x

saturating_total_of :
    (acc : ℕ) (xs ys : List Candidate) (x : Candidate)
    → 1 ≤ x.amount
    → 1 ≤ saturating_total acc (xs ++ x ∷ ys)
unfolding saturating_total
saturating_total_of acc [] ys x h =
    saturating_total_grows (min (acc + x.amount) (u64_mod - 1)) ys (omega arith)
saturating_total_of acc (z ∷ zs) ys x h =
    saturating_total_of (min (acc + z.amount) (u64_mod - 1)) zs ys x h

still_overdue : (t a b : ℤ) → a ≤ℤ b → is_overdue (t -ℤ b) ≡ true → is_overdue (t -ℤ a) ≡ true
still_overdue t a b h e = grind (int_laws)

floor_at_ceiling :
    (total : ℕ) (age : ℤ) (config : BatchPrivacyConfig)
    → 1 ≤ total
    → is_overdue age ≡ true
    → provider_payout_floor_satisfied total age config ≡ true
unfolding provider_payout_floor_satisfied
floor_at_ceiling total age config h e =
    let some_amount : total == 0 ≡ false = ground (arith, h) in rw some_amount (rw e refl)

is_eligible_overdue :
    (t : ℤ) (mode : BatchBuildMode) (config : BatchPrivacyConfig) (x : Candidate)
    → is_overdue (t -ℤ x.timestamp) ≡ true
    → is_eligible t mode config x ≡ true
unfolding settlement_is_age_eligible
is_eligible_overdue t flush config x e = refl
is_eligible_overdue t auto config x e = rw e refl

eligible-append :
    (t : ℤ) (mode : BatchBuildMode) (config : BatchPrivacyConfig) (xs ys : List Candidate)
    → eligible t mode config (xs ++ ys) ≡ eligible t mode config xs ++ eligible t mode config ys
unfolding eligible
eligible-append t mode config [] ys = refl
eligible-append t mode config (x ∷ xs) ys =
    let rest = eligible-append t mode config xs ys in
    elim (Bool-cases (is_eligible t mode config x)) [
      | inl in_time ↦ rw in_time (ap (λ zs. x ∷ zs) rest)
      | inr too_new ↦ rw too_new rest
    ]

abbrev ids_of : List Candidate → List Bytes
ids_of = map (λ (y : Candidate). y.sid)

-- A provider's eligible candidates are all selected, when the floor is satisfied.
select_eligible_all :
    (t : ℤ) (mode : BatchBuildMode) (config : BatchPrivacyConfig) (z : Candidate)
    (zs : List Candidate)
    → provider_payout_floor_satisfied
        (saturating_total 0 (z ∷ zs))
        (t -ℤ oldest z.timestamp zs)
        config
      ≡ true
    → select_eligible t mode config (z ∷ zs)
      ≡ some (record { settlement_ids = ids_of (z ∷ zs); oldest_timestamp = oldest z.timestamp zs })
unfolding select_eligible
select_eligible_all t auto config z zs floor = rw floor refl
select_eligible_all t flush config z zs floor = refl

Selects : Option ProviderBatchSelection → List Bytes → Type 0
Selects o ids = (s : ProviderBatchSelection) × (o ≡ some s) × (s.settlement_ids ≡ ids)

select_eligible_overdue :
    (t : ℤ) (mode : BatchBuildMode) (config : BatchPrivacyConfig) (xs ys : List Candidate)
    (x : Candidate)
    → 1 ≤ x.amount
    → is_overdue (t -ℤ x.timestamp) ≡ true
    → Selects (select_eligible t mode config (xs ++ x ∷ ys)) (ids_of (xs ++ x ∷ ys))
unfolding Selects
select_eligible_overdue t mode config [] ys x h e =
    let late = still_overdue t (oldest x.timestamp ys) x.timestamp (oldest_le x.timestamp ys) e in
    let floor = floor_at_ceiling _ _ config (saturating_total_of 0 [] ys x h) late in
    (_, select_eligible_all t mode config x ys floor, refl)
select_eligible_overdue t mode config (z ∷ zs) ys x h e =
    let late =
      still_overdue t (oldest z.timestamp (zs ++ x ∷ ys)) x.timestamp
        (oldest_of z.timestamp zs ys x) e in
    let floor = floor_at_ceiling _ _ config (saturating_total_of 0 (z ∷ zs) ys x h) late in
    (_, select_eligible_all t mode config z (zs ++ x ∷ ys) floor, refl)

eligible_overdue :
    (t : ℤ) (mode : BatchBuildMode) (config : BatchPrivacyConfig) (xs ys : List Candidate)
    (x : Candidate)
    → is_overdue (t -ℤ x.timestamp) ≡ true
    → eligible t mode config (xs ++ x ∷ ys)
      ≡ eligible t mode config xs ++ x ∷ eligible t mode config ys
unfolding eligible
eligible_overdue t mode config xs ys x e =
    rw (eligible-append t mode config xs (x ∷ ys)) (rw (is_eligible_overdue t mode config x e) refl)

ids-append : (xs ys : List Candidate) → ids_of (xs ++ ys) ≡ ids_of xs ++ ids_of ys
ids-append [] ys = refl
ids-append (x ∷ xs) ys = ap (λ zs. x.sid ∷ zs) (ids-append xs ys)

-- Of the settlements of a provider, one of an amount above 0 that has reached the liveness ceiling:
-- in either mode and whatever the anonymity window and the payout floor, the selection succeeds and
-- has that settlement, between those that are eligible before and after it.
pub select_provider_batch_entries_overdue :
    (t : ℤ) (mode : BatchBuildMode) (config : BatchPrivacyConfig) (before after : List Candidate)
    (x : Candidate)
    → 1 ≤ x.amount
    → pos max_settlement_delay_sec ≤ℤ (t -ℤ x.timestamp)
    → (s : ProviderBatchSelection) × (select_provider_batch_entries
          (before ++ x ∷ after)
          t
          mode
          config
        ≡ some s)
      × (s.settlement_ids
          ≡ map (λ (y : Candidate). y.sid) (eligible t mode config before)
            ++ x.sid ∷ map (λ (y : Candidate). y.sid) (eligible t mode config after))
unfolding select_provider_batch_entries Selects
select_provider_batch_entries_overdue t mode config before after x h late =
    let e : is_overdue (t -ℤ x.timestamp) ≡ true = ground (arith, late) in
    let l = eligible t mode config before in
    let r = eligible t mode config after in
    let (s, found, ids) = select_eligible_overdue t mode config l r x h e in
    (s, rw (eligible_overdue t mode config before after x e) found, ids ∙ ids-append l (x ∷ r))
