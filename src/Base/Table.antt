-- ===== src/Base/Table.antt =====
-- A table as a list of entries, for maps that are also iterated over: the enclave's `DashMap`s.
use Prim.Native.Nat.{ℕ, ◌+◌, ◌≤◌}
use mathlib.Core.Path.{◌≡◌, refl, ap, sym, subst, ◌∙◌}
use mathlib.Core.Logic.{◌≢◌, inl, inr}
use mathlib.Core.Option.{Option, none, some}
use mathlib.Core.Bool.{true, false}
use mathlib.Core.List.{List, [], ◌∷◌}
use native.Mathlib.Omega.{arith}
use privacy_x.Base.Tests.{if◌then◌else◌, Bool-cases}
use privacy_x.Base.Equality.{Eq}

abbrev pub Table : Type 0 → Type 0 → Type 0
Table K V = List (K × V)

-- The measure of what may stand under a key.
unfoldable pub measure : {V : Type 0} → (V → ℕ) → Option V → ℕ
measure f none = 0
measure f (some v) = f v

beq_refl : {K : Type 0} ⦃eq : Eq K⦄ (k : K) → eq.beq k k ≡ true
beq_refl ⦃eq = eq⦄ k = (eq.beq_iff k k).1 refl

module _ {K V : Type 0} where
  -- The value that stands first under a key, as each key stands once.
  unfoldable pub get : ⦃eq : Eq K⦄ → Table K V → K → Option V
  get [] k = none
  get ⦃eq = eq⦄ ((j, w) ∷ t) k = if eq.beq j k then some w else get t k

  -- `insert`: in place of the old value, or at the end.
  unfoldable pub insert : ⦃eq : Eq K⦄ → Table K V → K → V → Table K V
  insert [] k v = (k, v) ∷ []
  insert ⦃eq = eq⦄ ((j, w) ∷ t) k v = if eq.beq j k then (j, v) ∷ t else (j, w) ∷ insert t k v

  unfoldable pub remove : ⦃eq : Eq K⦄ → Table K V → K → Table K V
  remove [] k = []
  remove ⦃eq = eq⦄ ((j, w) ∷ t) k = if eq.beq j k then t else (j, w) ∷ remove t k

  -- What a measure of the entries adds up to.
  unfoldable pub sum : (V → ℕ) → Table K V → ℕ
  sum f [] = 0
  sum f ((j, w) ∷ t) = f w + sum f t

  module _ ⦃eq : Eq K⦄ where
    pub get-insert_self : (t : Table K V) (k : K) (v : V) → get (insert t k v) k ≡ some v
    unfolding get insert
    get-insert_self [] k v = rw (beq_refl k) refl
    get-insert_self ((j, w) ∷ t) k v = elim (Bool-cases (eq.beq j k)) [
      | inl same ↦ rw same (rw same refl)
      | inr differs ↦ rw differs (rw differs (get-insert_self t k v))
    ]

    pub get-insert_ne : (t : Table K V) (k j : K) (v : V) → k ≢ j → get (insert t k v) j ≡ get t j
    unfolding get insert
    get-insert_ne [] k j v ne = elim (Bool-cases (eq.beq k j)) [
      | inl same ↦ absurd (ne ((eq.beq_iff k j).0 same))
      | inr differs ↦ rw differs refl
    ]
    get-insert_ne ((i, w) ∷ t) k j v ne = elim (Bool-cases (eq.beq i k)) [
      | inl same ↦
          let i_k = (eq.beq_iff i k).0 same in
          let apart : eq.beq i j ≡ false = elim (Bool-cases (eq.beq i j)) [
            | inl e ↦ absurd (ne (sym i_k ∙ (eq.beq_iff i j).0 e))
            | inr f ↦ f
          ] in
          rw same (rw apart refl)
      | inr differs ↦ elim (Bool-cases (eq.beq i j)) [
        | inl e ↦ rw differs (rw e refl)
        | inr f ↦ rw differs (rw f (get-insert_ne t k j v ne))
      ]
    ]

    pub insert_twice : (t : Table K V) (k : K) (v w : V) → insert (insert t k v) k w ≡ insert t k w
    unfolding insert
    insert_twice [] k v w = rw (beq_refl k) refl
    insert_twice ((j, u) ∷ t) k v w = elim (Bool-cases (eq.beq j k)) [
      | inl same ↦ rw same (rw same refl)
      | inr differs ↦ rw differs (rw differs (ap (λ l. (j, u) ∷ l) (insert_twice t k v w)))
    ]

    -- What an insertion adds, and what it takes away, under any measure.
    pub sum-insert :
        (f : V → ℕ) (t : Table K V) (k : K) (v : V)
        → sum f (insert t k v) + measure f (get t k) ≡ sum f t + f v
    unfolding sum insert get measure
    sum-insert f [] k v = omega arith
    sum-insert f ((j, w) ∷ t) k v = elim (Bool-cases (eq.beq j k)) [
      | inl same ↦ rw same (omega arith)
      | inr differs ↦ rw differs (omega (arith, sum-insert f t k v))
    ]

    pub sum-remove :
        (f : V → ℕ) (t : Table K V) (k : K) → sum f (remove t k) + measure f (get t k) ≡ sum f t
    unfolding sum remove get measure
    sum-remove f [] k = omega arith
    sum-remove f ((j, w) ∷ t) k = elim (Bool-cases (eq.beq j k)) [
      | inl same ↦ rw same (omega arith)
      | inr differs ↦ rw differs (omega (arith, sum-remove f t k))
    ]

  -- A predicate on every value.
  unfoldable pub All : (V → Type 0) → Table K V → Type 0
  All P [] = Unit {0}
  All P ((j, w) ∷ t) = P w × All P t

  module _ (P : V → Type 0) ⦃eq : Eq K⦄ where
    pub All-get : (t : Table K V) (k : K) (v : V) → All P t → get t k ≡ some v → P v
    unfolding All get
    All-get [] k v a h = absurd (cc)
    All-get ((j, w) ∷ t) k v a h = elim (Bool-cases (eq.beq j k)) [
      | inl same ↦ subst P (found same) a.0
      | inr differs ↦ All-get t k v a.1 (passed differs)
    ]
      where
        found : eq.beq j k ≡ true → w ≡ v
        found e = ground arith

        passed : eq.beq j k ≡ false → get t k ≡ some v
        passed e = ground arith

    pub All-insert : (t : Table K V) (k : K) (v : V) → All P t → P v → All P (insert t k v)
    unfolding All insert
    All-insert [] k v a b = (b, tt)
    All-insert ((j, w) ∷ t) k v a b = elim (Bool-cases (eq.beq j k)) [
      | inl same ↦ rw same (b, a.1)
      | inr differs ↦ rw differs (a.0, All-insert t k v a.1 b)
    ]

    pub All-remove : (t : Table K V) (k : K) → All P t → All P (remove t k)
    unfolding All remove
    All-remove [] k a = tt
    All-remove ((j, w) ∷ t) k a = elim (Bool-cases (eq.beq j k)) [
      | inl same ↦ rw same a.1
      | inr differs ↦ rw differs (a.0, All-remove t k a.1)
    ]

  -- What stands under a key is part of the sum.
  pub measure_le_sum :
      ⦃eq : Eq K⦄ (f : V → ℕ) (t : Table K V) (k : K) → measure f (get t k) ≤ sum f t
  measure_le_sum f t k = omega (arith, sum-remove f t k)

  pub sum-ext : (f g : V → ℕ) (t : Table K V) → ((v : V) → f v ≡ g v) → sum f t ≡ sum g t
  unfolding sum
  sum-ext f g [] h = refl
  sum-ext f g ((j, w) ∷ t) h = omega (arith, h w, sum-ext f g t h)

  module _ ⦃eq : Eq K⦄ (f : V → ℕ) (t : Table K V) (k : K) where
    pub sum-insert-some : (u v : V) → get t k ≡ some u → sum f (insert t k v) + f u ≡ sum f t + f v
    unfolding measure
    sum-insert-some u v at =
        let was : measure f (get t k) ≡ f u = rw at refl in omega (arith, sum-insert f t k v, was)

    pub sum-insert-none : (v : V) → get t k ≡ none → sum f (insert t k v) ≡ sum f t + f v
    unfolding measure
    sum-insert-none v at =
        let was : measure f (get t k) ≡ 0 = rw at refl in omega (arith, sum-insert f t k v, was)

    pub sum-remove-some : (u : V) → get t k ≡ some u → sum f (remove t k) + f u ≡ sum f t
    unfolding measure
    sum-remove-some u at =
        let was : measure f (get t k) ≡ f u = rw at refl in omega (arith, sum-remove f t k, was)
