-- ===== src/Enclave/Batch/Rounds/Fill.antt =====
-- The selection in rounds is as full as it may be and takes no settlement twice.
use privacy_x.Base.{
  ℕ, zero, suc, ◌+◌, ◌≤◌, ◌<◌, ◌≡◌, refl, ap, Bool, true, false, ◌||◌, ltb, leb, Option, none, some,
  List, [], ◌∷◌, length, get_elem?, drop, drop_elem, Bytes, min, inl, inr, Bool-cases, arith,
}
use privacy_x.Enclave.Batch.Rounds.{
  ProviderBatchCursor, Pick, pick, step_cursor, is_found, run_round, run_rounds,
  select_batch_settlement_ids,
}
use privacy_x.Enclave.Batch.Rounds.Weights.{
  weigh, offer, sum_cursors, weigh_offers, one, weigh-append, weigh-one, length-pick, bit,
  bit_le_one, sorted, sorted_offers,
}

nothing_left : {A : Type 0} (xs : List A) (i : ℕ) → get_elem? xs i ≡ none → drop i xs ≡ []
nothing_left [] zero h = refl
nothing_left [] (suc i) h = refl
nothing_left (x ∷ xs) zero h = absurd (cc)
nothing_left (x ∷ xs) (suc i) h = nothing_left xs i h

pick_weighs :
    (w : Pick → ℕ) (ps : List Pick) (c : ProviderBatchCursor) (o : Option Bytes)
    → get_elem? c.settlement_ids c.next_index ≡ o
    → weigh w (pick ps c o) + weigh w (offer (step_cursor c o)) ≡ weigh w ps + weigh w (offer c)
unfolding weigh
pick_weighs w ps c none h = refl
pick_weighs w ps c (some sid) h =
    rw (drop_elem c.settlement_ids c.next_index h)
      (omega (arith, weigh-append w ps (c.provider_id, sid)))

-- A round loses no settlement and takes none twice.
run_round_weighs :
    (w : Pick → ℕ) (m : ℕ) (ps : List Pick) (b : Bool) (cs : List ProviderBatchCursor)
    → weigh w (run_round m ps b cs).selected + weigh_offers w (run_round m ps b cs).cursors
      ≡ weigh w ps + weigh_offers w cs
unfolding run_round sum_cursors
run_round_weighs w m ps b [] = refl
run_round_weighs w m ps b (c ∷ cs) =
    let found = get_elem? c.settlement_ids c.next_index in
    let rest = run_round_weighs w m (pick ps c found) (b || is_found found) cs in
    elim (Bool-cases (leb m (length ps))) [
      | inl full ↦ rw full refl
      | inr room ↦ rw room (omega (arith, rest, pick_weighs w ps c found refl))
    ]

bit-or :
    (a b : Bool) → (bit a ≤ bit (a || b)) × (bit b ≤ bit (a || b)) × (bit (a || b) ≤ bit a + bit b)
bit-or true true = (omega arith, omega arith, omega arith)
bit-or true false = (omega arith, omega arith, omega arith)
bit-or false b = (omega arith, omega arith, omega arith)

-- A round never takes more than there is room for, and one that advances takes something.
run_round_advances :
    (m : ℕ) (ps : List Pick) (b : Bool) (cs : List ProviderBatchCursor)
    → (bit (run_round m ps b cs).advanced + length ps
        ≤ bit b + length (run_round m ps b cs).selected)
      × (bit b ≤ bit (run_round m ps b cs).advanced)
      × (length ps ≤ length (run_round m ps b cs).selected)
      × (length ps ≤ m → length (run_round m ps b cs).selected ≤ m)
unfolding run_round
run_round_advances m ps b [] = (omega arith, omega arith, omega arith, λ h. h)
run_round_advances m ps b (c ∷ cs) =
    let found = get_elem? c.settlement_ids c.next_index in
    let (up, stays, grows, fits) =
      run_round_advances m (pick ps c found) (b || is_found found) cs in
    let picked = length-pick ps c found in
    let (left, right, both) = bit-or b (is_found found) in
    let small = bit_le_one (is_found found) in
    elim (Bool-cases (leb m (length ps))) [
      | inl full ↦ rw full (omega arith, omega arith, omega arith, λ h. h)
      | inr room ↦ rw room (
        omega (arith, up, picked, both),
        omega (arith, stays, left),
        omega (arith, grows, picked),
        λ h. fits (ground (arith, room, picked, small)),
      )
    ]

nothing_offered :
    (c : ProviderBatchCursor) (o : Option Bytes)
    → get_elem? c.settlement_ids c.next_index ≡ o
    → bit (is_found o) ≡ 0
    → weigh one (offer (step_cursor c o)) ≡ 0
unfolding weigh
nothing_offered c none h e = rw (nothing_left c.settlement_ids c.next_index h) refl
nothing_offered c (some sid) h e = absurd (omega arith)

-- A round that ends with room left and has not advanced leaves nothing to take.
run_round_stuck :
    (m : ℕ) (ps : List Pick) (b : Bool) (cs : List ProviderBatchCursor)
    → length (run_round m ps b cs).selected < m
    → bit (run_round m ps b cs).advanced ≡ 0
    → weigh_offers one (run_round m ps b cs).cursors ≡ 0
unfolding run_round sum_cursors weigh
run_round_stuck m ps b [] = λ h e. refl
run_round_stuck m ps b (c ∷ cs) =
    let found = get_elem? c.settlement_ids c.next_index in
    let rest = run_round_stuck m (pick ps c found) (b || is_found found) cs in
    let stays = (run_round_advances m (pick ps c found) (b || is_found found) cs).1 in
    let right = (bit-or b (is_found found)).1 in
    elim (Bool-cases (leb m (length ps))) [
      | inl full ↦ rw full (λ h e. absurd (ground (arith, full, h)))
      | inr room ↦ rw room (λ h e.
          let missed = nothing_offered c found refl (omega (arith, e, stays, right)) in
          omega (arith, missed, rest h e))
    ]

run_rounds_fill :
    (fuel m : ℕ) (ps : List Pick) (cs : List ProviderBatchCursor)
    → length ps ≤ m
    → m ≤ length ps + fuel
    → length (run_rounds fuel m ps cs) ≡ min m (length ps + weigh_offers one cs)
unfolding run_rounds
run_rounds_fill zero m ps cs low high = omega arith
run_rounds_fill (suc fuel) m ps cs low high =
    let r = run_round m ps false cs in
    let (up, stays, grows, fits) = run_round_advances m ps false cs in
    let kept = run_round_weighs one m ps false cs in
    let before = weigh-one ps in
    let after = weigh-one r.selected in
    elim (Bool-cases (ltb (length ps) m)) [
      | inr full ↦ rw full (ground (arith, full))
      | inl room ↦ rw room (elim (Bool-cases r.advanced) [
        | inl on ↦
            let rest =
              run_rounds_fill fuel m r.selected r.cursors (fits low)
                (omega (arith, high, up, ap bit on)) in
            rw on (omega (arith, rest, kept, before, after))
        | inr off ↦ rw off (
            ground
              (arith, kept, before, after, fits low, run_round_stuck m ps false cs, ap bit off))
      ])
    ]

run_rounds_weighs :
    (w : Pick → ℕ) (fuel m : ℕ) (ps : List Pick) (cs : List ProviderBatchCursor)
    → weigh w (run_rounds fuel m ps cs) ≤ weigh w ps + weigh_offers w cs
unfolding run_rounds
run_rounds_weighs w zero m ps cs = omega arith
run_rounds_weighs w (suc fuel) m ps cs =
    let r = run_round m ps false cs in
    let kept = run_round_weighs w m ps false cs in
    let rest = run_rounds_weighs w fuel m r.selected r.cursors in
    elim (Bool-cases (ltb (length ps) m)) [
      | inr full ↦ rw full (omega arith)
      | inl room ↦ rw room (elim (Bool-cases r.advanced) [
        | inl on ↦ rw on (omega (arith, rest, kept))
        | inr off ↦ rw off (omega (arith, kept))
      ])
    ]

-- Whatever the cursors and the limit: the selection has as many settlements as the cursors offer, up
-- to the limit; and whatever the picks weigh, the selected ones weigh no more than those on offer, so
-- no settlement is selected more often than it is offered.
pub select_batch_settlement_ids_fills :
    (cursors : List ProviderBatchCursor) (max_entries : ℕ)
    → (length (select_batch_settlement_ids cursors max_entries)
        ≡ min max_entries (weigh_offers one cursors))
      × ((w : Pick → ℕ)
          → weigh w (select_batch_settlement_ids cursors max_entries) ≤ weigh_offers w cursors)
unfolding select_batch_settlement_ids weigh
select_batch_settlement_ids_fills cursors m = (
  omega (
    arith,
    run_rounds_fill m m [] (sorted cursors) (omega arith) (omega arith),
    sorted_offers one cursors,
  ),
  λ w. omega (arith, run_rounds_weighs w m m [] (sorted cursors), sorted_offers w cursors),
)
