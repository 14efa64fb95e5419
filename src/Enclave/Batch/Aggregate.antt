-- ===== src/Enclave/Batch/Aggregate.antt =====
-- enclave/src/batch.rs, `aggregate_settlements`: what a chunk pays to each account.
use privacy_x.Base.{
  ℕ, ◌+◌, ◌≡◌, refl, ap, Bool, true, false, ◌||◌, ◌&&◌, ◌==◌, ltb, Option, none, some, List, [],
  ◌∷◌, map, bytes_eq, eq_of_bytes_eq, checked_add, checked_add-eq-some, if◌then◌else◌, arith,
}
use privacy_x.Base.Table.{Table}
use privacy_x.Vault.State.{Pubkey}
use privacy_x.Enclave.Books.{share}
use privacy_x.Enclave.Books.Changes.{share_add, share_zero}
use privacy_x.Enclave.Batch.{PreparedSettlement, BatchSettlementEntry}

-- The order of public keys: of their bytes, from the first on.
unfoldable pub comes_before : Pubkey → Pubkey → Bool
comes_before [] [] = false
comes_before [] (y ∷ ys) = true
comes_before (x ∷ xs) [] = false
comes_before (x ∷ xs) (y ∷ ys) = let rest = comes_before xs ys in ltb x y || (x == y && rest)

abbrev prepend : Pubkey × ℕ → Option (Table Pubkey ℕ) → Option (Table Pubkey ℕ)
prepend entry none = none
prepend entry (some t) = some (entry ∷ t)

abbrev with_total : Pubkey → Table Pubkey ℕ → Option ℕ → Option (Table Pubkey ℕ)
with_total account rest none = none
with_total account rest (some total) = some ((account, total) ∷ rest)

-- One entry of the `BTreeMap`, whose keys ascend: `none` on overflow.
unfoldable pub add_amount : Table Pubkey ℕ → Pubkey → ℕ → Option (Table Pubkey ℕ)
add_amount [] account amount = with_total account [] (checked_add 0 amount)
add_amount ((k, total) ∷ t) account amount =
    let later = add_amount t account amount in
    if bytes_eq k account
    then with_total k t (checked_add total amount)
    else if comes_before account k
    then with_total account ((k, total) ∷ t) (checked_add 0 amount)
    else prepend (k, total) later

unfoldable pub aggregate_from : Table Pubkey ℕ → List PreparedSettlement → Option (Table Pubkey ℕ)
aggregate_from t [] = some t
aggregate_from t (e ∷ es) =
    elim (add_amount t e.settlement.provider_token_account e.settlement.amount) [
      | none ↦ none
      | some t' ↦ aggregate_from t' es
    ]

abbrev pub entry_of : Pubkey × ℕ → BatchSettlementEntry
entry_of (account, amount) = record { provider_token_account = account; amount = amount }

-- The error's text is left out.
unfoldable pub aggregate_settlements : List PreparedSettlement → Option (List BatchSettlementEntry)
aggregate_settlements entries = elim (aggregate_from [] entries) [
  | none ↦ none
  | some t ↦ some (map entry_of t)
]

-- What the entries of a chunk owe to an account, and what the aggregate pays to it.
unfoldable pub owed_to : Pubkey → List PreparedSettlement → ℕ
owed_to k [] = 0
owed_to k (e ∷ es) = share k e.settlement.provider_token_account e.settlement.amount + owed_to k es

unfoldable pub paid_to : Pubkey → List BatchSettlementEntry → ℕ
paid_to k [] = 0
paid_to k (e ∷ es) = share k e.provider_token_account e.amount + paid_to k es

in_table : Pubkey → Table Pubkey ℕ → ℕ
in_table k [] = 0
in_table k ((j, n) ∷ t) = share k j n + in_table k t

by_test :
    {A C : Type 0} {z : A} (test : Bool) (x y : A)
    → (if test then x else y) ≡ z
    → (test ≡ true → x ≡ z → C)
    → (test ≡ false → y ≡ z → C)
    → C
by_test true x y h k l = k refl h
by_test false x y h k l = l refl h

on_option :
    {A B C : Type 0} {b : B} (o : Option A) (next : A → Option B)
    → (elim o [ none ↦ none | some a ↦ next a ]) ≡ some b
    → ((a : A) → o ≡ some a → next a ≡ some b → C)
    → C
on_option none next h k = absurd (cc)
on_option (some a) next h k = k a refl h

with_total_pays :
    (account : Pubkey) (rest t' : Table Pubkey ℕ) (m n : ℕ) (k : Pubkey)
    → with_total account rest (checked_add m n) ≡ some t'
    → in_table k t' ≡ share k account m + share k account n + in_table k rest
unfolding in_table
with_total_pays account rest t' m n k h = of_sum (checked_add m n) refl h
  where
    of_sum :
        (o : Option ℕ)
        → checked_add m n ≡ o
        → with_total account rest o ≡ some t'
        → in_table k t' ≡ share k account m + share k account n + in_table k rest
    of_sum none e h1 = absurd (cc)
    of_sum (some total) e h1 =
        let after : (account, total) ∷ rest ≡ t' = cc (h1) in
        let total_is = ap (share k account) (checked_add-eq-some m n e).0 in
        rw (← after) (omega (arith, total_is, share_add k account m n))

prepend_pays :
    (entry : Pubkey × ℕ) (o : Option (Table Pubkey ℕ)) (t' : Table Pubkey ℕ) (k : Pubkey)
    → prepend entry o ≡ some t'
    → (t : Table Pubkey ℕ) × (o ≡ some t) × (in_table k t' ≡ share k entry.0 entry.1 + in_table k t)
unfolding in_table
prepend_pays entry none t' k h = absurd (cc)
prepend_pays entry (some t) t' k h =
    let after : entry ∷ t ≡ t' = cc (h) in (t, refl, rw (← after) refl)

add_amount_pays :
    (t t' : Table Pubkey ℕ) (account : Pubkey) (amount : ℕ) (k : Pubkey)
    → add_amount t account amount ≡ some t'
    → in_table k t' ≡ in_table k t + share k account amount
unfolding add_amount in_table
add_amount_pays [] t' account amount k h =
    omega (arith, with_total_pays account [] t' 0 amount k h, share_zero k account)
add_amount_pays ((j, total) ∷ t) t' account amount k h =
    by_test (bytes_eq j account) _ _ h
      (λ same h1.
        let here = ap (λ a. share k a amount) (eq_of_bytes_eq j account same) in
        omega (arith, with_total_pays j t t' total amount k h1, here))
      (λ differs h1.
        by_test (comes_before account j) _ _ h1
          (λ earlier h2. omega (
            arith,
            with_total_pays account ((j, total) ∷ t) t' 0 amount k h2,
            share_zero k account,
          ))
          (λ later h2.
            let (u, e, paid) = prepend_pays (j, total) (add_amount t account amount) t' k h2 in
            omega (arith, paid, add_amount_pays t u account amount k e)))

aggregate_from_pays :
    (t t' : Table Pubkey ℕ) (es : List PreparedSettlement) (k : Pubkey)
    → aggregate_from t es ≡ some t'
    → in_table k t' ≡ in_table k t + owed_to k es
unfolding aggregate_from owed_to
aggregate_from_pays t t' [] k h = let same : t ≡ t' = cc (h) in rw same (omega arith)
aggregate_from_pays t t' (e ∷ es) k h =
    on_option (add_amount t e.settlement.provider_token_account e.settlement.amount)
      (λ u. aggregate_from u es) h
      λ u e1 h1. omega (
        arith,
        add_amount_pays t u e.settlement.provider_token_account e.settlement.amount k e1,
        aggregate_from_pays u t' es k h1,
      )

paid_to-map : (k : Pubkey) (t : Table Pubkey ℕ) → paid_to k (map entry_of t) ≡ in_table k t
unfolding paid_to in_table
paid_to-map k [] = refl
paid_to-map k ((j, n) ∷ t) = omega (arith, paid_to-map k t)

-- When the aggregation of a chunk succeeds, every account is paid exactly what the chunk's entries
-- owe to it.
pub aggregate_settlements_pays :
    (entries : List PreparedSettlement) (out : List BatchSettlementEntry) (k : Pubkey)
    → aggregate_settlements entries ≡ some out
    → paid_to k out ≡ owed_to k entries
unfolding aggregate_settlements in_table
aggregate_settlements_pays entries out k h =
    on_option (aggregate_from [] entries) (λ t. some (map entry_of t)) h
      λ t e h1.
        let after : map entry_of t ≡ out = cc (h1) in
        rw (← after) (omega (arith, paid_to-map k t, aggregate_from_pays [] t entries k e))
