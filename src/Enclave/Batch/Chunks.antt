-- ===== src/Enclave/Batch/Chunks.antt =====
-- The chunks of a batch: nothing is lost, doubled or reordered, and each fits a transaction.
use privacy_x.Base.{
  ℕ, zero, suc, ◌+◌, ◌-◌, ◌*◌, ◌/◌, ◌%◌, ◌≤◌, ◌<◌, ◌≡◌, refl, sym, subst, List, [], ◌∷◌, map,
  concat, length, take, drop, drop_split, drop_all, length-window, arith, u8_mod,
}
use privacy_x.Enclave.Batch.{
  PreparedSettlement, BatchChunk, chunk_size, chunk_count, chunks_from, build_batch_chunks,
  max_atomic_settlements_with_audit,
}
use native.Mathlib.Omega.{div_any, mod_fact}

abbrev pub entries_of : List BatchChunk → List PreparedSettlement
entries_of chunks = concat (map (λ (c : BatchChunk). c.entries) chunks)

-- Each chunk has one or two entries and starts where the ones before it end.
unfoldable pub AreWellCut : ℕ → List BatchChunk → Type 0
AreWellCut start [] = Unit {0}
AreWellCut start (c ∷ cs) =
    (c.start_index ≡ start % u8_mod)
    × (1 ≤ length c.entries)
    × (length c.entries ≤ max_atomic_settlements_with_audit)
    × AreWellCut (start + length c.entries) cs

-- What the rounds that are left cut off.
remaining : (base extra rounds idx : ℕ) → ℕ
remaining base extra zero idx = 0
remaining base extra (suc n) idx = chunk_size base extra idx + remaining base extra n (idx + 1)

remaining_closed :
    (base extra n idx : ℕ) → extra ≤ idx + n → remaining base extra n idx ≡ n * base + (extra - idx)
unfolding remaining
remaining_closed base extra zero idx h = omega arith
remaining_closed base extra (suc n) idx h =
    let rest = remaining_closed base extra n (idx + 1) (omega arith) in ground (arith, rest)

chunks_from_cover :
    (base extra : ℕ) (entries : List PreparedSettlement) (n idx start : ℕ)
    → length entries ≡ start + remaining base extra n idx
    → entries_of (chunks_from base extra entries n idx start) ≡ drop start entries
unfolding chunks_from remaining
chunks_from_cover base extra entries zero idx start h = sym (drop_all entries start (omega arith))
chunks_from_cover base extra entries (suc n) idx start h =
    let size = chunk_size base extra idx in
    let rest = chunks_from_cover base extra entries n (idx + 1) (start + size) (omega arith) in
    rw rest (sym (drop_split entries start size))

chunks_from-AreWellCut :
    (base extra : ℕ) (entries : List PreparedSettlement) (n idx start : ℕ)
    → length entries ≡ start + remaining base extra n idx
    → 1 ≤ base
    → ((i : ℕ) → chunk_size base extra i ≤ 2)
    → AreWellCut start (chunks_from base extra entries n idx start)
unfolding chunks_from remaining AreWellCut
chunks_from-AreWellCut base extra entries zero idx start h one two = tt
chunks_from-AreWellCut base extra entries (suc n) idx start h one two =
    let size = chunk_size base extra idx in
    let whole : length (take size (drop start entries)) ≡ size =
      length-window entries start size (omega arith) in
    let rest =
      chunks_from-AreWellCut base extra entries n (idx + 1) (start + size) (omega arith) one two in
    let least : 1 ≤ size = omega arith in
    (
      refl,
      omega (arith, whole, least),
      omega (arith, whole, two idx),
      subst
          (λ k. AreWellCut (start + k) (chunks_from base extra entries n (idx + 1) (start + size)))
          (sym whole) rest,
    )

-- The size of a chunk, for half as many chunks as entries, rounded up.
cut_bounds :
    (l count q r : ℕ)
    → count * q + r ≡ l
    → r < count
    → count ≤ l
    → l ≤ 2 * count
    → (1 ≤ q) × ((i : ℕ) → chunk_size q r i ≤ 2)
cut_bounds l count zero r e less low high = absurd (ground arith)
cut_bounds l count (suc zero) r e less low high = (omega arith, λ i. ground arith)
cut_bounds l count (suc (suc zero)) r e less low high =
    (omega arith, λ i. let none_left : r ≡ 0 = omega (arith, e, high) in ground (arith, none_left))
cut_bounds l count (suc (suc (suc q))) r e less low high = absurd (ground arith)

mod_less : (a b : ℕ) → 0 < b → a % b < b
mod_less a zero h = absurd (omega arith)
mod_less a (suc b) h = mod_fact a b

-- Cutting a batch into chunks keeps its entries, each once and in order; every chunk has one or two
-- entries and starts at the index (as a u8) where the ones before it end.
pub build_batch_chunks-AreWellCut :
    (entries : List PreparedSettlement)
    → (entries_of (build_batch_chunks entries) ≡ entries)
      × AreWellCut 0 (build_batch_chunks entries)
unfolding build_batch_chunks chunk_count chunks_from AreWellCut
build_batch_chunks-AreWellCut [] = (refl, tt)
build_batch_chunks-AreWellCut (x ∷ xs) =
    let entries = x ∷ xs in
    let count = chunk_count entries in
    let base = length entries / count in
    let extra = length entries % count in
    let high : length entries ≤ 2 * count = omega arith in
    let low : count ≤ length entries = omega arith in
    let some_chunk : 0 < count = omega arith in
    let less = mod_less (length entries) count some_chunk in
    let parts = div_any (length entries) count in
    let (one, two) = cut_bounds (length entries) count base extra parts less low high in
    let closed = remaining_closed base extra count 0 (omega (arith, less)) in
    let covered : length entries ≡ 0 + remaining base extra count 0 =
      ground (arith, closed, parts) in
    (
      chunks_from_cover base extra entries count 0 0 covered,
      chunks_from-AreWellCut base extra entries count 0 0 covered one two,
    )
