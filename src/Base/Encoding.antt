-- ===== src/Base/Encoding.antt =====
-- Little-endian encodings: `to_le_bytes` and `from_le_bytes` of `u64`, `u16` and `i64`.
use Prim.Native.Nat.{ℕ, zero, suc, ◌+◌, ◌-◌, ◌*◌, ◌/◌, ◌%◌, ◌^◌, ◌≤◌, ◌<◌}
use mathlib.Core.Path.{◌≡◌, refl, ap, sym, ◌∙◌, subst}
use mathlib.Core.List.{[], ◌∷◌}
use native.Mathlib.Omega.{arith}
use native.Mathlib.Nat.{pow-suc}
use privacy_x.Base.Tests.{ltb, if◌then◌else◌}
use privacy_x.Base.Lists.{length, take, drop, length-window}
use privacy_x.Base.Equality.{Bytes}
use privacy_x.Base.Int.{ℤ, pos, negsuc, IsI64}
use privacy_x.Base.Words.{u64_mod}

-- The `k` low bytes of a number, the lowest first.
unfoldable pub le_bytes : ℕ → ℕ → Bytes
le_bytes zero n = []
le_bytes (suc k) n = (n % 256) ∷ le_bytes k (n / 256)

unfoldable pub of_le_bytes : Bytes → ℕ
of_le_bytes [] = 0
of_le_bytes (b ∷ bs) = b + 256 * of_le_bytes bs

-- Every element is a byte.
abbrev pub AreBytes : Bytes → Type 0
AreBytes [] = Unit
AreBytes (b ∷ bs) = (b < 256) × AreBytes bs

AreBytes-take : (n : ℕ) (bs : Bytes) → AreBytes bs → AreBytes (take n bs)
AreBytes-take zero bs h = tt
AreBytes-take (suc n) [] h = tt
AreBytes-take (suc n) (b ∷ bs) h = (h.0, AreBytes-take n bs h.1)

pub AreBytes-drop : (n : ℕ) (bs : Bytes) → AreBytes bs → AreBytes (drop n bs)
AreBytes-drop zero bs h = h
AreBytes-drop (suc n) [] h = tt
AreBytes-drop (suc n) (b ∷ bs) h = AreBytes-drop n bs h.1

pub length-le_bytes : (k n : ℕ) → length (le_bytes k n) ≡ k
unfolding le_bytes
length-le_bytes zero n = refl
length-le_bytes (suc k) n = ap suc (length-le_bytes k (n / 256))

pub le_bytes-AreBytes : (k n : ℕ) → AreBytes (le_bytes k n)
unfolding le_bytes
le_bytes-AreBytes zero n = tt
le_bytes-AreBytes (suc k) n = (omega arith, le_bytes-AreBytes k (n / 256))

pub of_le_bytes-le_bytes : (k n : ℕ) → n < 256 ^ k → of_le_bytes (le_bytes k n) ≡ n
unfolding le_bytes of_le_bytes
of_le_bytes-le_bytes zero n h = omega arith
of_le_bytes-le_bytes (suc k) n h =
    let small : n < 256 ^ k * 256 = rw pow-suc at h in
    omega (arith, of_le_bytes-le_bytes k (n / 256) (omega arith))

pub le_bytes-of_le_bytes : (bs : Bytes) → AreBytes bs → le_bytes (length bs) (of_le_bytes bs) ≡ bs
unfolding le_bytes of_le_bytes
le_bytes-of_le_bytes [] h = refl
le_bytes-of_le_bytes (b ∷ bs) h =
    let low : (b + 256 * of_le_bytes bs) % 256 ≡ b = omega arith in
    let high : (b + 256 * of_le_bytes bs) / 256 ≡ of_le_bytes bs = omega arith in
    rw (low, high) (ap (λ l. b ∷ l) (le_bytes-of_le_bytes bs h.1))

of_le_bytes-lt : (bs : Bytes) → AreBytes bs → of_le_bytes bs < 256 ^ length bs
unfolding of_le_bytes
of_le_bytes-lt [] h = omega arith
of_le_bytes-lt (b ∷ bs) h = rw pow-suc (omega (arith, of_le_bytes-lt bs h.1))

-- `u64::to_le_bytes` and `u64::from_le_bytes`.
unfoldable pub u64_bytes : ℕ → Bytes
u64_bytes n = le_bytes 8 n

unfoldable pub u64_of_bytes : Bytes → ℕ
u64_of_bytes bs = of_le_bytes bs

-- Two's complement: `i64::to_le_bytes` and `i64::from_le_bytes`.
i64_word : ℤ → ℕ
i64_word (pos n) = n
i64_word (negsuc n) = 18446744073709551615 - n

word_i64 : ℕ → ℤ
word_i64 w = if ltb w 9223372036854775808 then pos w else negsuc (18446744073709551615 - w)

unfoldable pub i64_bytes : ℤ → Bytes
unfolding i64_word
i64_bytes z = le_bytes 8 (i64_word z)

unfoldable pub i64_of_bytes : Bytes → ℤ
unfolding word_i64
i64_of_bytes bs = word_i64 (of_le_bytes bs)

pub length-u64_bytes : (n : ℕ) → length (u64_bytes n) ≡ 8
unfolding u64_bytes
length-u64_bytes n = length-le_bytes 8 n

pub length-i64_bytes : (z : ℤ) → length (i64_bytes z) ≡ 8
unfolding i64_bytes
length-i64_bytes z = length-le_bytes 8 (i64_word z)

pub u64_of_bytes-u64_bytes : (n : ℕ) → n < u64_mod → u64_of_bytes (u64_bytes n) ≡ n
unfolding u64_bytes u64_of_bytes
u64_of_bytes-u64_bytes n h = of_le_bytes-le_bytes 8 n (omega arith)

pub u64_bytes-u64_of_bytes :
    (bs : Bytes) → AreBytes bs → length bs ≡ 8 → u64_bytes (u64_of_bytes bs) ≡ bs
unfolding u64_bytes u64_of_bytes
u64_bytes-u64_of_bytes bs h e =
    ap (λ k. le_bytes k (of_le_bytes bs)) (sym e) ∙ le_bytes-of_le_bytes bs h

i64_word-lt : (z : ℤ) → IsI64 z → i64_word z < 18446744073709551616
unfolding i64_word
i64_word-lt (pos n) h = omega arith
i64_word-lt (negsuc n) h = omega arith

word_i64-i64_word : (z : ℤ) → IsI64 z → word_i64 (i64_word z) ≡ z
unfolding i64_word word_i64
word_i64-i64_word (pos n) h = ground arith
word_i64-i64_word (negsuc n) h = ground arith

i64_word-word_i64 : (w : ℕ) → w < 18446744073709551616 → i64_word (word_i64 w) ≡ w
unfolding i64_word word_i64
i64_word-word_i64 w h = ground arith

pub i64_of_bytes-i64_bytes : (z : ℤ) → IsI64 z → i64_of_bytes (i64_bytes z) ≡ z
unfolding i64_bytes i64_of_bytes
i64_of_bytes-i64_bytes z h =
    ap word_i64 (of_le_bytes-le_bytes 8 (i64_word z) (i64_word-lt z h)) ∙ word_i64-i64_word z h

pub i64_bytes-i64_of_bytes :
    (bs : Bytes) → AreBytes bs → length bs ≡ 8 → i64_bytes (i64_of_bytes bs) ≡ bs
unfolding i64_bytes i64_of_bytes
i64_bytes-i64_of_bytes bs h e =
    let small : of_le_bytes bs < 18446744073709551616 =
      subst (λ k. of_le_bytes bs < 256 ^ k) e (of_le_bytes-lt bs h) in
    ap (le_bytes 8) (i64_word-word_i64 (of_le_bytes bs) small)
    ∙ ap (λ k. le_bytes k (of_le_bytes bs)) (sym e)
    ∙ le_bytes-of_le_bytes bs h

-- The eight bytes at an offset are those of the number that they encode.
pub u64_bytes_window :
    (bs : Bytes) (lo : ℕ)
    → AreBytes bs
    → lo + 8 ≤ length bs
    → u64_bytes (u64_of_bytes (take 8 (drop lo bs))) ≡ take 8 (drop lo bs)
u64_bytes_window bs lo h within =
    u64_bytes-u64_of_bytes (take 8 (drop lo bs))
      (AreBytes-take 8 (drop lo bs) (AreBytes-drop lo bs h)) (length-window bs lo 8 within)

pub i64_bytes_window :
    (bs : Bytes) (lo : ℕ)
    → AreBytes bs
    → lo + 8 ≤ length bs
    → i64_bytes (i64_of_bytes (take 8 (drop lo bs))) ≡ take 8 (drop lo bs)
i64_bytes_window bs lo h within =
    i64_bytes-i64_of_bytes (take 8 (drop lo bs))
      (AreBytes-take 8 (drop lo bs) (AreBytes-drop lo bs h)) (length-window bs lo 8 within)
