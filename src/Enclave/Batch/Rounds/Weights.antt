-- ===== src/Enclave/Batch/Rounds/Weights.antt =====
-- What picks and cursors weigh, and that the order of the rounds changes nothing of it.
use privacy_x.Base.{
  ℕ, ◌+◌, ◌≤◌, ◌≡◌, refl, ◌∙◌, Bool, true, false, ◌==◌, Option, none, some, List, [], ◌∷◌, ◌++◌,
  map, length, get_elem?, drop, drop_all, length-append, Bytes, inl, inr, Bool-cases, arith,
}
use privacy_x.Enclave.Batch.Rounds.{
  ProviderBatchCursor, Pick, retain_filled, precedes, insert_cursor, sort_cursors, pick, is_found,
}

-- The sum of a weight over picks.
unfoldable pub weigh : (Pick → ℕ) → List Pick → ℕ
weigh w [] = 0
weigh w (p ∷ ps) = w p + weigh w ps

-- What the cursors have to offer, from their places on.
abbrev pub offer : ProviderBatchCursor → List Pick
offer c = map (λ sid. (c.provider_id, sid)) (drop c.next_index c.settlement_ids)

unfoldable pub sum_cursors : (ProviderBatchCursor → ℕ) → List ProviderBatchCursor → ℕ
sum_cursors g [] = 0
sum_cursors g (c ∷ cs) = g c + sum_cursors g cs

abbrev pub weigh_offers : (Pick → ℕ) → List ProviderBatchCursor → ℕ
weigh_offers w = sum_cursors (λ c. weigh w (offer c))

-- The settlement that a cursor stands at, if any.
abbrev pub turn : ProviderBatchCursor → List Pick
turn c = pick [] c (get_elem? c.settlement_ids c.next_index)

abbrev pub weigh_turns : (Pick → ℕ) → List ProviderBatchCursor → ℕ
weigh_turns w = sum_cursors (λ c. weigh w (turn c))

abbrev pub one : Pick → ℕ
one p = 1

pub weigh-append :
    (w : Pick → ℕ) (ps : List Pick) (q : Pick) → weigh w (ps ++ q ∷ []) ≡ weigh w ps + w q
unfolding weigh
weigh-append w [] q = omega arith
weigh-append w (p ∷ ps) q = omega (arith, weigh-append w ps q)

pub weigh-one : (ps : List Pick) → weigh one ps ≡ length ps
unfolding weigh
weigh-one [] = refl
weigh-one (p ∷ ps) = omega (arith, weigh-one ps)

pub pick_adds :
    (w : Pick → ℕ) (ps : List Pick) (c : ProviderBatchCursor) (o : Option Bytes)
    → weigh w (pick ps c o) ≡ weigh w ps + weigh w (pick [] c o)
unfolding weigh
pick_adds w ps c none = omega arith
pick_adds w ps c (some sid) = omega (arith, weigh-append w ps (c.provider_id, sid))

abbrev pub bit : Bool → ℕ
bit true = 1
bit false = 0

pub length-pick :
    (ps : List Pick) (c : ProviderBatchCursor) (o : Option Bytes)
    → length (pick ps c o) ≡ length ps + bit (is_found o)
length-pick ps c none = omega arith
length-pick ps c (some sid) = length-append ps ((c.provider_id, sid) ∷ [])

pub bit_le_one : (a : Bool) → bit a ≤ 1
bit_le_one true = omega arith
bit_le_one false = omega arith

insert_cursor_sum :
    (g : ProviderBatchCursor → ℕ) (c : ProviderBatchCursor) (cs : List ProviderBatchCursor)
    → sum_cursors g (insert_cursor c cs) ≡ g c + sum_cursors g cs
unfolding insert_cursor sum_cursors
insert_cursor_sum g c [] = refl
insert_cursor_sum g c (d ∷ ds) = elim (Bool-cases (precedes d c)) [
  | inl first ↦ rw first (omega (arith, insert_cursor_sum g c ds))
  | inr last ↦ rw last refl
]

sort_cursors_sum :
    (g : ProviderBatchCursor → ℕ) (cs : List ProviderBatchCursor)
    → sum_cursors g (sort_cursors cs) ≡ sum_cursors g cs
unfolding sort_cursors sum_cursors
sort_cursors_sum g [] = refl
sort_cursors_sum g (c ∷ cs) =
    omega (arith, insert_cursor_sum g c (sort_cursors cs), sort_cursors_sum g cs)

retain_filled_sum :
    (g : ProviderBatchCursor → ℕ) (cs : List ProviderBatchCursor)
    → ((c : ProviderBatchCursor) → length c.settlement_ids ≡ 0 → g c ≡ 0)
    → sum_cursors g (retain_filled cs) ≡ sum_cursors g cs
unfolding retain_filled sum_cursors
retain_filled_sum g [] h = refl
retain_filled_sum g (c ∷ cs) h =
    let rest = retain_filled_sum g cs h in
    elim (Bool-cases (length c.settlement_ids == 0)) [
      | inl empty ↦ rw empty (omega (arith, rest, h c (ground (arith, empty))))
      | inr filled ↦ rw filled (omega (arith, rest))
    ]

-- The cursors that the rounds start from have all that was on offer.
abbrev pub sorted : List ProviderBatchCursor → List ProviderBatchCursor
sorted cursors = sort_cursors (retain_filled cursors)

pub sorted_offers :
    (w : Pick → ℕ) (cs : List ProviderBatchCursor) → weigh_offers w (sorted cs) ≡ weigh_offers w cs
unfolding weigh
sorted_offers w cs =
    sort_cursors_sum _ (retain_filled cs)
    ∙ retain_filled_sum _ cs
        (λ c empty. rw (drop_all c.settlement_ids c.next_index (omega (arith, empty))) refl)

none_at : {A : Type 0} (xs : List A) (i : ℕ) → length xs ≡ 0 → get_elem? xs i ≡ none
none_at [] i h = refl
none_at (x ∷ xs) i h = absurd (omega arith)

pub sorted_turns :
    (w : Pick → ℕ) (cs : List ProviderBatchCursor) → weigh_turns w (sorted cs) ≡ weigh_turns w cs
unfolding weigh
sorted_turns w cs =
    sort_cursors_sum _ (retain_filled cs)
    ∙ retain_filled_sum _ cs (λ c empty. rw (none_at c.settlement_ids c.next_index empty) refl)

length-sum : (cs : List ProviderBatchCursor) → sum_cursors (λ c. 1) cs ≡ length cs
unfolding sum_cursors
length-sum [] = refl
length-sum (c ∷ cs) = omega (arith, length-sum cs)

retain_filled_shorter : (cs : List ProviderBatchCursor) → length (retain_filled cs) ≤ length cs
unfolding retain_filled
retain_filled_shorter [] = omega arith
retain_filled_shorter (c ∷ cs) = ground (arith, retain_filled_shorter cs)

pub sorted_shorter : (cs : List ProviderBatchCursor) → length (sorted cs) ≤ length cs
sorted_shorter cs = omega (
  arith,
  length-sum (sorted cs),
  length-sum (retain_filled cs),
  sort_cursors_sum (λ c. 1) (retain_filled cs),
  retain_filled_shorter cs,
)
