-- ===== src/Enclave/Batch/Rounds.antt =====
-- enclave/src/batch.rs, `select_batch_settlement_ids`: which settlements a batch takes, in rounds over
-- the providers, the one that has waited longest first.
pub mod Weights
pub mod Fill
pub mod Turns
use privacy_x.Base.{
  ℕ, zero, suc, ◌+◌, ap, Bool, true, false, ◌&&◌, ◌||◌, ◌==◌, ltb, leb, Option, none, some, List,
  [], ◌∷◌, ◌++◌, length, get_elem?, Bytes, ℤ, ltb_ℤ, leb_ℤ, if◌then◌else◌,
}
use privacy_x.Enclave.Batch.Aggregate.{comes_before}

pub record ProviderBatchCursor : Type 0 where
  pub provider_id : Bytes
  pub oldest_credit_at : ℤ
  pub settlement_ids : List Bytes
  pub next_index : ℕ

-- A selected settlement: its provider and its identifier.
abbrev pub Pick : Type 0
Pick = Bytes × Bytes

unfoldable pub retain_filled : List ProviderBatchCursor → List ProviderBatchCursor
retain_filled [] = []
retain_filled (c ∷ cs) =
    let rest = retain_filled cs in if length c.settlement_ids == 0 then rest else c ∷ rest

-- The order of the comparison: the older credit first, then the provider's name.
abbrev pub precedes : ProviderBatchCursor → ProviderBatchCursor → Bool
precedes a b =
    ltb_ℤ a.oldest_credit_at b.oldest_credit_at
    || (leb_ℤ a.oldest_credit_at b.oldest_credit_at && comes_before a.provider_id b.provider_id)

unfoldable pub insert_cursor :
    ProviderBatchCursor → List ProviderBatchCursor → List ProviderBatchCursor
insert_cursor c [] = c ∷ []
insert_cursor c (d ∷ ds) =
    let rest = insert_cursor c ds in if precedes d c then d ∷ rest else c ∷ d ∷ ds

-- A stable sort: equal cursors keep their order.
unfoldable pub sort_cursors : List ProviderBatchCursor → List ProviderBatchCursor
sort_cursors [] = []
sort_cursors (c ∷ cs) = insert_cursor c (sort_cursors cs)

-- What one round leaves.
pub record Round : Type 0 where
  pub selected : List Pick
  pub cursors : List ProviderBatchCursor
  pub advanced : Bool

abbrev pub keep_cursor : ProviderBatchCursor → Round → Round
keep_cursor c r = record r { cursors = c ∷ r.cursors }

-- The settlement at the cursor, appended to the selection.
abbrev pub pick : List Pick → ProviderBatchCursor → Option Bytes → List Pick
pick selected c none = selected
pick selected c (some sid) = selected ++ (c.provider_id, sid) ∷ []

abbrev pub step_cursor : ProviderBatchCursor → Option Bytes → ProviderBatchCursor
step_cursor c none = c
step_cursor c (some sid) = record c { next_index = suc c.next_index }

abbrev pub is_found : Option Bytes → Bool
is_found none = false
is_found (some sid) = true

-- The `for` loop: one settlement of each cursor that has one left, until the selection is full.
unfoldable pub run_round : (max_entries : ℕ) → List Pick → Bool → List ProviderBatchCursor → Round
run_round max_entries selected advanced [] = record {
  selected = selected;
  cursors = [];
  advanced = advanced;
}
run_round max_entries selected advanced (c ∷ cs) =
    let found = get_elem? c.settlement_ids c.next_index in
    let rest = run_round max_entries (pick selected c found) (advanced || is_found found) cs in
    if leb max_entries (length selected)
    then record { selected = selected; cursors = c ∷ cs; advanced = advanced }
    else keep_cursor (step_cursor c found) rest

-- The `while` loop, on fuel.
unfoldable pub run_rounds :
    (fuel max_entries : ℕ) → List Pick → List ProviderBatchCursor → List Pick
run_rounds zero max_entries selected cursors = selected
run_rounds (suc fuel) max_entries selected cursors =
    let r = run_round max_entries selected false cursors in
    let rest = run_rounds fuel max_entries r.selected r.cursors in
    if ltb (length selected) max_entries then if r.advanced then rest else r.selected else selected

-- The fuel is `max_entries`, as each round but the last selects an entry.
unfoldable pub select_batch_settlement_ids : List ProviderBatchCursor → ℕ → List Pick
select_batch_settlement_ids cursors max_entries =
    run_rounds max_entries max_entries [] (sort_cursors (retain_filled cursors))
