-- ===== src/Enclave/Batch/Rounds/Turns.antt =====
-- In the rounds of the selection every provider has its turn.
use privacy_x.Base.{
  ℕ, zero, suc, ◌+◌, ◌≤◌, ◌≡◌, Bool, true, false, ◌||◌, ltb, leb, List, [], ◌∷◌, length, get_elem?,
  inl, inr, Bool-cases, arith,
}
use privacy_x.Enclave.Batch.Rounds.{
  ProviderBatchCursor, Pick, pick, is_found, run_round, run_rounds, select_batch_settlement_ids,
}
use privacy_x.Enclave.Batch.Rounds.Weights.{
  weigh, sum_cursors, weigh_turns, pick_adds, length-pick, bit_le_one, sorted, sorted_turns,
  sorted_shorter,
}

-- A round with room for every cursor takes what each stands at.
run_round_turns :
    (w : Pick → ℕ) (m : ℕ) (ps : List Pick) (b : Bool) (cs : List ProviderBatchCursor)
    → length ps + length cs ≤ m
    → weigh w (run_round m ps b cs).selected ≡ weigh w ps + weigh_turns w cs
unfolding run_round sum_cursors
run_round_turns w m ps b [] h = omega arith
run_round_turns w m ps b (c ∷ cs) h =
    let found = get_elem? c.settlement_ids c.next_index in
    let small = bit_le_one (is_found found) in
    let rest =
      run_round_turns w m (pick ps c found) (b || is_found found) cs
        (omega (arith, h, length-pick ps c found, small)) in
    let room : leb m (length ps) ≡ false = ground (arith, h) in
    rw room (omega (arith, rest, pick_adds w ps c found))

run_round_keeps :
    (w : Pick → ℕ) (m : ℕ) (ps : List Pick) (b : Bool) (cs : List ProviderBatchCursor)
    → weigh w ps ≤ weigh w (run_round m ps b cs).selected
unfolding run_round
run_round_keeps w m ps b [] = omega arith
run_round_keeps w m ps b (c ∷ cs) =
    let found = get_elem? c.settlement_ids c.next_index in
    let rest = run_round_keeps w m (pick ps c found) (b || is_found found) cs in
    elim (Bool-cases (leb m (length ps))) [
      | inl full ↦ rw full (omega arith)
      | inr room ↦ rw room (omega (arith, rest, pick_adds w ps c found))
    ]

run_rounds_keeps :
    (w : Pick → ℕ) (fuel m : ℕ) (ps : List Pick) (cs : List ProviderBatchCursor)
    → weigh w ps ≤ weigh w (run_rounds fuel m ps cs)
unfolding run_rounds
run_rounds_keeps w zero m ps cs = omega arith
run_rounds_keeps w (suc fuel) m ps cs =
    let r = run_round m ps false cs in
    let once = run_round_keeps w m ps false cs in
    let rest = run_rounds_keeps w fuel m r.selected r.cursors in
    elim (Bool-cases (ltb (length ps) m)) [
      | inr full ↦ rw full (omega arith)
      | inl room ↦ rw room (elim (Bool-cases r.advanced) [
        | inl on ↦ rw on (omega (arith, rest, once))
        | inr off ↦ rw off once
      ])
    ]

run_rounds_turns :
    (w : Pick → ℕ) (m : ℕ) (cs : List ProviderBatchCursor)
    → length cs ≤ m
    → weigh_turns w cs ≤ weigh w (run_rounds m m [] cs)
unfolding run_rounds weigh sum_cursors
run_rounds_turns w zero [] h = omega arith
run_rounds_turns w zero (c ∷ cs) h = absurd (omega arith)
run_rounds_turns w (suc m) cs h =
    let r = run_round (suc m) [] false cs in
    let once = run_round_turns w (suc m) [] false cs (omega (arith, h)) in
    let rest = run_rounds_keeps w m (suc m) r.selected r.cursors in
    let room : ltb 0 (suc m) ≡ true = ground arith in
    rw room (elim (Bool-cases r.advanced) [
      | inl on ↦ rw on (omega (arith, rest, once))
      | inr off ↦ rw off (omega (arith, once))
    ])

-- When the limit is no less than the number of cursors, every cursor has its turn: whatever the picks
-- weigh, those that the cursors stand at weigh no more than the selection.
pub select_batch_settlement_ids_serves :
    (cursors : List ProviderBatchCursor) (max_entries : ℕ)
    → length cursors ≤ max_entries
    → (w : Pick → ℕ)
    → weigh_turns w cursors ≤ weigh w (select_batch_settlement_ids cursors max_entries)
unfolding select_batch_settlement_ids
select_batch_settlement_ids_serves cursors m h w = omega (
  arith,
  run_rounds_turns w m (sorted cursors) (omega (arith, sorted_shorter cursors, h)),
  sorted_turns w cursors,
)
