-- ===== src/Base/Lists.antt =====
-- Lists measured and cut by native numbers, under the library's names.
use Prim.Native.Nat.{ℕ, zero, suc, ◌+◌, ◌-◌, ◌≤◌, ◌<◌}
use mathlib.Core.Path.{◌≡◌, refl, ap, sym, ◌∙◌, subst}
use mathlib.Core.List.{List, [], ◌∷◌, ◌++◌}
use mathlib.Core.Option.{Option, none, some}
use mathlib.Core.Bool.{◌&&◌}
use native.Mathlib.Omega.{arith}
use privacy_x.Base.Tests.{leb, if◌then◌else◌}

module _ {ℓ} {A : Type ℓ} where
  abbrev pub length : List A → ℕ
  length [] = 0
  length (x ∷ xs) = suc (length xs)

  abbrev pub get_elem? : List A → ℕ → Option A
  get_elem? [] i = none
  get_elem? (x ∷ xs) zero = some x
  get_elem? (x ∷ xs) (suc i) = get_elem? xs i

  abbrev pub take : ℕ → List A → List A
  take zero xs = []
  take (suc n) [] = []
  take (suc n) (x ∷ xs) = x ∷ take n xs

  abbrev pub drop : ℕ → List A → List A
  drop zero xs = xs
  drop (suc n) [] = []
  drop (suc n) (x ∷ xs) = drop n xs

  abbrev pub replicate : ℕ → A → List A
  replicate zero a = []
  replicate (suc n) a = a ∷ replicate n a

  pub length-append : (xs ys : List A) → length (xs ++ ys) ≡ length xs + length ys
  length-append [] ys = omega arith
  length-append (x ∷ xs) ys = omega (arith, length-append xs ys)

  pub take-append_length : (xs ys : List A) → take (length xs) (xs ++ ys) ≡ xs
  take-append_length [] ys = refl
  take-append_length (x ∷ xs) ys = ap (λ l. x ∷ l) (take-append_length xs ys)

  pub drop-append_length : (xs ys : List A) → drop (length xs) (xs ++ ys) ≡ ys
  drop-append_length [] ys = refl
  drop-append_length (x ∷ xs) ys = drop-append_length xs ys

  pub get_elem?-append_length :
      (xs : List A) (y : A) (ys : List A) → get_elem? (xs ++ y ∷ ys) (length xs) ≡ some y
  get_elem?-append_length [] y ys = refl
  get_elem?-append_length (x ∷ xs) y ys = get_elem?-append_length xs y ys

  pub take-append-drop : (n : ℕ) (xs : List A) → take n xs ++ drop n xs ≡ xs
  take-append-drop zero xs = refl
  take-append-drop (suc n) [] = refl
  take-append-drop (suc n) (x ∷ xs) = ap (λ l. x ∷ l) (take-append-drop n xs)

  pub length-take : (n : ℕ) (xs : List A) → n ≤ length xs → length (take n xs) ≡ n
  length-take zero xs h = refl
  length-take (suc n) [] h = elim h [ ]
  length-take (suc n) (x ∷ xs) h = ap suc (length-take n xs (omega arith))

  pub length-drop : (n : ℕ) (xs : List A) → length (drop n xs) ≡ length xs - n
  length-drop zero xs = omega arith
  length-drop (suc n) [] = omega arith
  length-drop (suc n) (x ∷ xs) = omega (arith, length-drop n xs)

-- `&xs[lo..hi]`, with `none` where the source's slice panics (or `get` returns `None`).
unfoldable pub slice : {A : Type 0} → List A → ℕ → ℕ → Option (List A)
slice xs lo hi =
    if leb lo hi && leb hi (length xs) then some (take (hi - lo) (drop lo xs)) else none

-- The parts of a message, in the order in which they are appended.
abbrev pub concat {ℓ} : {A : Type ℓ} → List (List A) → List A
concat [] = []
concat (s ∷ ss) = s ++ concat ss

abbrev pub total {ℓ} : {A : Type ℓ} → List (List A) → ℕ
total [] = 0
total (s ∷ ss) = length s + total ss

module _ {A : Type 0} where
  pub length-concat : (ss : List (List A)) → length (concat ss) ≡ total ss
  length-concat [] = refl
  length-concat (s ∷ ss) = omega (arith, length-append {0} s (concat ss), length-concat ss)

  drop-nil : (n : ℕ) → ◌≡◌ {A = List A} (drop n []) []
  drop-nil zero = refl
  drop-nil (suc n) = refl

  pub drop_add : (n m : ℕ) (xs : List A) → drop (n + m) xs ≡ drop m (drop n xs)
  drop_add zero m xs = ap (λ k. drop k xs) {y = m} (omega arith)
  drop_add (suc n) m [] = drop-nil (suc n + m) ∙ sym (drop-nil m)
  drop_add (suc n) m (x ∷ xs) =
      ap (λ k. drop k (x ∷ xs)) {y = suc (n + m)} (omega arith) ∙ drop_add n m xs

  drop_segments : (pre ss : List (List A)) → drop (total pre) (concat (pre ++ ss)) ≡ concat ss
  drop_segments [] ss = refl
  drop_segments (s ∷ pre) ss =
      drop_add (length s) (total pre) (concat ((s ∷ pre) ++ ss))
      ∙ ap (drop (total pre)) (drop-append_length s (concat (pre ++ ss)))
      ∙ drop_segments pre ss

  total-append : (ss ts : List (List A)) → total (ss ++ ts) ≡ total ss + total ts
  total-append [] ts = omega arith
  total-append (s ∷ ss) ts = omega (arith, total-append ss ts)

  -- A part of a message is found at the offset that the parts before it take.
  pub slice_segment :
      (pre : List (List A)) (s : List A) (post : List (List A)) (lo hi : ℕ)
      → total pre ≡ lo
      → lo + length s ≡ hi
      → slice (concat (pre ++ s ∷ post)) lo hi ≡ some s
  unfolding slice
  slice_segment pre s post lo hi p q =
      let bound : hi ≤ length (concat (pre ++ s ∷ post)) =
        omega (arith, length-concat (pre ++ s ∷ post), total-append pre (s ∷ post)) in
      let cut : take (hi - lo) (drop lo (concat (pre ++ s ∷ post))) ≡ s =
        ap (λ k. take (hi - lo) (drop k (concat (pre ++ s ∷ post)))) (sym p)
        ∙ ap (take (hi - lo)) (drop_segments pre (s ∷ post))
        ∙ ap (λ k. take k (s ++ concat post)) (omega arith)
        ∙ take-append_length s (concat post) in
      ground (arith, cut, bound)

  -- Conversely, what a slice returns is what stands at its offset.
  pub slice-drop :
      (xs : List A) (lo hi : ℕ) {s : List A}
      → slice xs lo hi ≡ some s
      → (drop lo xs ≡ s ++ drop hi xs) × (length s + lo ≡ hi) × (hi ≤ length xs)
  unfolding slice
  slice-drop xs lo hi {s} h = ground (
    arith,
    take-append-drop (hi - lo) (drop lo xs),
    drop_add lo (hi - lo) xs,
    length-take (hi - lo) (drop lo xs),
    length-drop lo xs,
  )

  -- A slice within bounds does not panic.
  pub slice_within :
      (xs : List A) (lo n : ℕ)
      → lo + n ≤ length xs
      → slice xs lo (lo + n) ≡ some (take n (drop lo xs))
  unfolding slice
  slice_within xs lo n h =
      let e : take (lo + n - lo) (drop lo xs) ≡ take n (drop lo xs) =
        ap (λ k. take k (drop lo xs)) {x = lo + n - lo} (omega arith) in
      ground (arith, e)

  pub get_elem?_within : (xs : List A) (i : ℕ) → i < length xs → (a : A) × (get_elem? xs i ≡ some a)
  get_elem?_within [] i h = elim h [ ]
  get_elem?_within (x ∷ xs) zero h = (x, refl)
  get_elem?_within (x ∷ xs) (suc i) h = get_elem?_within xs i (omega arith)

  split_at :
      (ss : List (List A)) (i : ℕ) {s : List A}
      → get_elem? ss i ≡ some s
      → ss ≡ take i ss ++ s ∷ drop (suc i) ss
  split_at [] i h = cc
  split_at (t ∷ ss) zero h = cc
  split_at (t ∷ ss) (suc i) h = ap (λ l. t ∷ l) (split_at ss i h)

  -- The part of a message with the index `i`.
  pub slice_nth :
      (ss : List (List A)) (i : ℕ) (s : List A) (lo hi : ℕ)
      → get_elem? ss i ≡ some s
      → total (take i ss) ≡ lo
      → lo + length s ≡ hi
      → slice (concat ss) lo hi ≡ some s
  slice_nth ss i s lo hi h p q =
      subst (λ l. slice (concat l) lo hi ≡ some s) (sym (split_at ss i h))
        (slice_segment (take i ss) s (drop (suc i) ss) lo hi p q)

  pub drop_split : (xs : List A) (lo n : ℕ) → drop lo xs ≡ take n (drop lo xs) ++ drop (lo + n) xs
  drop_split xs lo n =
      sym (take-append-drop n (drop lo xs))
      ∙ ap (λ l. take n (drop lo xs) ++ l) (sym (drop_add lo n xs))

  pub drop_elem :
      (xs : List A) (i : ℕ) {a : A} → get_elem? xs i ≡ some a → drop i xs ≡ a ∷ drop (suc i) xs
  drop_elem [] i h = cc
  drop_elem (x ∷ xs) zero h = cc
  drop_elem (x ∷ xs) (suc i) h = drop_elem xs i h

  pub drop_all : (xs : List A) (n : ℕ) → length xs ≤ n → drop n xs ≡ []
  drop_all [] zero h = refl
  drop_all [] (suc n) h = refl
  drop_all (x ∷ xs) zero h = elim h [ ]
  drop_all (x ∷ xs) (suc n) h = drop_all xs n (omega arith)

  pub length-window :
      (xs : List A) (lo n : ℕ) → lo + n ≤ length xs → length (take n (drop lo xs)) ≡ n
  length-window xs lo n h = length-take n (drop lo xs) (omega (arith, length-drop lo xs))
