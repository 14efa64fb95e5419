-- ===== src/Enclave/Channels/Cipher.antt =====
-- The result's encryption: an xor with a keystream, block by block.
use privacy_x.Base.{
  ℕ, zero, suc, ◌+◌, ◌*◌, ◌/◌, ◌%◌, ◌≤◌, ◌<◌, ◌≡◌, refl, sym, ap, ◌∙◌, [], ◌∷◌, ◌++◌, length, take,
  drop, Bytes, arith, length-append, take-append_length, drop-append_length, length-take,
  length-drop, inl, inr, leb, Bool-cases, leb→le, take-append-drop, drop_all,
}
use privacy_x.Vault.Platform.{Platform}
use privacy_x.Enclave.Channels.Finalize.{
  xor, xor_bytes, keystream, decrypt_blocks, decrypt_with_scalar, encrypt_with_scalar,
}

-- A number of `width` bits.
IsBits : (width : ℕ) → ℕ → Type 0
IsBits zero a = a ≡ 0
IsBits (suc width) a = IsBits width (a / 2)

xor_twice : (width a k : ℕ) → IsBits width a → xor width (xor width a k) k ≡ a
unfolding xor IsBits
xor_twice zero a k h = sym h
xor_twice (suc w) a k h =
    let x = xor w (a / 2) (k / 2) in
    let half : ((a + k) % 2 + 2 * x) / 2 ≡ x = omega arith in
    let back : xor w x (k / 2) ≡ a / 2 = xor_twice w (a / 2) (k / 2) h in
    rw half (rw back (omega arith))

byte-IsBits : (a : ℕ) → a < 256 → IsBits 8 a
unfolding IsBits
byte-IsBits a h = omega arith

-- A string of bytes.
unfoldable pub AreBytes : Bytes → Type 0
AreBytes [] = Unit {0}
AreBytes (x ∷ xs) = (x < 256) × AreBytes xs

xor_bytes_twice :
    (xs ks : Bytes) → AreBytes xs → length xs ≤ length ks → xor_bytes (xor_bytes xs ks) ks ≡ xs
unfolding xor_bytes AreBytes
xor_bytes_twice [] ks a h = refl
xor_bytes_twice (x ∷ xs) [] a h = elim h [ ]
xor_bytes_twice (x ∷ xs) (k ∷ ks) a h =
    rw (xor_twice 8 x k (byte-IsBits x a.0))
      (ap (λ l. x ∷ l) (xor_bytes_twice xs ks a.1 (omega arith)))

length-xor_bytes : (xs ks : Bytes) → length xs ≤ length ks → length (xor_bytes xs ks) ≡ length xs
unfolding xor_bytes
length-xor_bytes [] ks h = refl
length-xor_bytes (x ∷ xs) [] h = elim h [ ]
length-xor_bytes (x ∷ xs) (k ∷ ks) h = ap suc (length-xor_bytes xs ks (omega arith))

AreBytes-take : (n : ℕ) (xs : Bytes) → AreBytes xs → AreBytes (take n xs)
unfolding AreBytes
AreBytes-take zero xs a = tt
AreBytes-take (suc n) [] a = tt
AreBytes-take (suc n) (x ∷ xs) a = (a.0, AreBytes-take n xs a.1)

AreBytes-drop : (n : ℕ) (xs : Bytes) → AreBytes xs → AreBytes (drop n xs)
unfolding AreBytes
AreBytes-drop zero xs a = a
AreBytes-drop (suc n) [] a = tt
AreBytes-drop (suc n) (x ∷ xs) a = AreBytes-drop n xs a.1

length-take_le : (n : ℕ) (xs : Bytes) → length (take n xs) ≤ n
length-take_le zero xs = omega arith
length-take_le (suc n) [] = omega arith
length-take_le (suc n) (x ∷ xs) = omega (arith, length-take_le n xs)

-- A block and what follows it come apart again, as only the last block is short.
take_block : (n : ℕ) (xs ys : Bytes) → length xs ≡ n → take n (xs ++ ys) ≡ xs
take_block n xs ys e = ap (λ k. take k (xs ++ ys)) (sym e) ∙ take-append_length xs ys

drop_block : (n : ℕ) (xs ys : Bytes) → length xs ≡ n → drop n (xs ++ ys) ≡ ys
drop_block n xs ys e = ap (λ k. drop k (xs ++ ys)) (sym e) ∙ drop-append_length xs ys

take_all : (n : ℕ) (xs : Bytes) → length xs ≤ n → take n xs ≡ xs
take_all zero [] h = refl
take_all zero (x ∷ xs) h = elim h [ ]
take_all (suc n) [] h = refl
take_all (suc n) (x ∷ xs) h = ap (λ l. x ∷ l) (take_all n xs (omega arith))

append_nil : (xs : Bytes) → xs ++ [] ≡ xs
append_nil [] = refl
append_nil (x ∷ xs) = ap (λ l. x ∷ l) (append_nil xs)

decrypt_blocks_nil : (p : Platform) (key : Bytes) (n idx : ℕ) → decrypt_blocks p key n idx [] ≡ []
unfolding decrypt_blocks xor_bytes
decrypt_blocks_nil p key zero idx = refl
decrypt_blocks_nil p key (suc n) idx = decrypt_blocks_nil p key n (idx + 1)

module _ (p : Platform) (key : Bytes) (wide : (m : Bytes) → length (p.sha256 m) ≡ 32) where
  block_fits : (idx : ℕ) (xs : Bytes) → length (take 32 xs) ≤ length (keystream p key idx)
  unfolding keystream
  block_fits idx xs = omega (arith, wide _, length-take_le 32 xs)

  wide_keystream : (idx : ℕ) → length (keystream p key idx) ≡ 32
  unfolding keystream
  wide_keystream idx = wide _

  length-decrypt_blocks :
      (n idx : ℕ) (xs : Bytes) → length xs ≤ n → length (decrypt_blocks p key n idx xs) ≡ length xs
  unfolding decrypt_blocks
  length-decrypt_blocks zero idx [] h = refl
  length-decrypt_blocks zero idx (x ∷ xs) h = elim h [ ]
  length-decrypt_blocks (suc n) idx xs h =
      let rest =
        length-decrypt_blocks n (idx + 1) (drop 32 xs) (omega (arith, h, length-drop 32 xs)) in
      let block = length-xor_bytes (take 32 xs) (keystream p key idx) (block_fits idx xs) in
      let parts = ap length (take-append-drop 32 xs) in
      omega (
        arith,
        rest,
        block,
        parts,
        length-append (take 32 xs) (drop 32 xs),
        length-append (xor_bytes (take 32 xs) (keystream p key idx))
            (decrypt_blocks p key n (idx + 1) (drop 32 xs)),
      )

  decrypt_blocks_twice :
      (n idx : ℕ) (xs : Bytes)
      → AreBytes xs
      → length xs ≤ n
      → decrypt_blocks p key n idx (decrypt_blocks p key n idx xs) ≡ xs
  unfolding decrypt_blocks
  decrypt_blocks_twice zero idx [] a h = refl
  decrypt_blocks_twice zero idx (x ∷ xs) a h = elim h [ ]
  decrypt_blocks_twice (suc n) idx xs a h = elim (Bool-cases (leb 32 (length xs))) [
    | inl full ↦
        let ks = keystream p key idx in
        let block = xor_bytes (take 32 xs) ks in
        let rest = decrypt_blocks p key n (idx + 1) (drop 32 xs) in
        let long = leb→le 32 (length xs) full in
        let whole : length block ≡ 32 =
          length-xor_bytes (take 32 xs) ks (block_fits idx xs) ∙ length-take 32 xs long in
        let first = xor_bytes_twice (take 32 xs) ks (AreBytes-take 32 xs a) (block_fits idx xs) in
        let others =
          decrypt_blocks_twice n (idx + 1) (drop 32 xs) (AreBytes-drop 32 xs a)
            (omega (arith, h, length-drop 32 xs)) in
        rw (take_block 32 block rest whole)
          (rw (drop_block 32 block rest whole) (rw first (rw others (take-append-drop 32 xs))))
    | inr short ↦
        let ks = keystream p key idx in
        let little : length xs ≤ 32 = ground (arith, short) in
        let fits : length xs ≤ length ks =
          omega (arith, little, block_fits idx xs, wide_keystream idx) in
        let small : length (xor_bytes xs ks) ≤ 32 =
          omega (arith, length-xor_bytes xs ks fits, little) in
        rw (take_all 32 xs little) (
          rw (drop_all xs 32 little) (
            rw (decrypt_blocks_nil p key n (idx + 1)) (
              rw (append_nil (xor_bytes xs ks)) (
                rw (take_all 32 (xor_bytes xs ks) small) (
                  rw (drop_all (xor_bytes xs ks) 32 small) (
                    rw (decrypt_blocks_nil p key n (idx + 1)) (
                      rw (append_nil (xor_bytes (xor_bytes xs ks) ks))
                        (xor_bytes_twice xs ks a fits))))))))
  ]

  -- With a 32-byte hash: what was encrypted with a key decrypts with the same key to what it was.
  pub decrypt-encrypt :
      (plaintext : Bytes)
      → AreBytes plaintext
      → decrypt_with_scalar p (encrypt_with_scalar p plaintext key) key ≡ plaintext
  unfolding decrypt_with_scalar encrypt_with_scalar
  decrypt-encrypt plaintext a =
      rw (length-decrypt_blocks (length plaintext) 0 plaintext (omega arith))
        (decrypt_blocks_twice (length plaintext) 0 plaintext a (omega arith))
