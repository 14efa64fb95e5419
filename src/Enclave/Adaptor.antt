-- ===== src/Enclave/Adaptor.antt =====
-- enclave/src/adaptor_sig.rs: adaptor signatures on Ed25519. The curve, its scalars and the hash
-- (curve25519_dalek, sha2) are parameters.
pub mod Laws
use privacy_x.Base.{
  ◌≡◌, ◌↔◌, Bool, true, false, Option, none, some, Bytes, [], ◌∷◌, concat, take, drop, ◌+◌, ◌-◌,
  ◌%◌, ◌++◌,
}
use privacy_x.Enclave.State.{AdaptorPreSignature, AdaptedSignature}

pub record Curve (Scalar Point : Type 0) : Type 0 where
  pub scalar_add : Scalar → Scalar → Scalar
  pub scalar_sub : Scalar → Scalar → Scalar
  pub scalar_mul : Scalar → Scalar → Scalar
  -- `Scalar::to_bytes`, `from_canonical_bytes`, `from_bytes_mod_order` and `..._wide`.
  pub scalar_bytes : Scalar → Bytes
  pub from_canonical_bytes : Bytes → Option Scalar
  pub from_bytes_mod_order : Bytes → Scalar
  pub from_bytes_mod_order_wide : Bytes → Scalar
  pub point_add : Point → Point → Point
  pub point_eq : Point → Point → Bool
  -- `scalar * point`, and `scalar * ED25519_BASEPOINT_POINT`.
  pub mul : Scalar → Point → Point
  pub mul_base : Scalar → Point
  pub compress : Point → Bytes
  pub decompress : Bytes → Option Point
  pub sha512 : Bytes → Bytes

-- What curve25519_dalek documents: points are an abelian group on which scalars act, and encodings
-- of what was encoded are read back.
pub record CurveLaws {Scalar Point : Type 0} (c : Curve Scalar Point) : Type 0 where
  pub point_eq_iff : (p q : Point) → (c.point_eq p q ≡ true) ↔ (p ≡ q)
  pub point_add_assoc :
      (p q r : Point) → c.point_add (c.point_add p q) r ≡ c.point_add p (c.point_add q r)
  pub point_add_comm : (p q : Point) → c.point_add p q ≡ c.point_add q p
  pub point_add_cancel : (p q r : Point) → c.point_add p q ≡ c.point_add p r → q ≡ r
  pub mul_base_add :
      (a b : Scalar) → c.mul_base (c.scalar_add a b) ≡ c.point_add (c.mul_base a) (c.mul_base b)
  pub mul_base_mul : (a b : Scalar) → c.mul_base (c.scalar_mul a b) ≡ c.mul a (c.mul_base b)
  pub sub_add : (a b : Scalar) → c.scalar_add b (c.scalar_sub a b) ≡ a
  pub add_sub : (a b : Scalar) → c.scalar_sub (c.scalar_add a b) a ≡ b
  pub scalar_round : (a : Scalar) → c.from_canonical_bytes (c.scalar_bytes a) ≡ some a
  pub point_round : (p : Point) → c.decompress (c.compress p) ≡ some p

infixl 5 ◌>>=◌
abbrev pub ◌>>=◌ : {A B : Type 0} → Option A → (A → Option B) → Option B
none >>= next = none
some value >>= next = next value

-- `match ... { Some(x) => ..., None => return false }`.
abbrev pub holds : {A : Type 0} → Option A → (A → Bool) → Bool
holds none test = false
holds (some a) test = test a

-- `scalar_bytes[0] &= 248; scalar_bytes[31] &= 127; scalar_bytes[31] |= 64`, on bytes.
clamp_last : Bytes → Bytes
clamp_last [] = []
clamp_last (x ∷ xs) = (x % 64 + 64) ∷ xs

unfoldable pub clamp : Bytes → Bytes
unfolding clamp_last
clamp [] = []
clamp (x ∷ xs) = (x - x % 8) ∷ (take 30 xs ++ clamp_last (drop 30 xs))

module _ {Scalar Point : Type 0} (c : Curve Scalar Point) where
  -- `sha512` of the secret key: the scalar and the nonce prefix.
  unfoldable pub expand_secret_key : Bytes → Scalar × Bytes
  expand_secret_key secret_key =
      let hash = c.sha512 secret_key in
      (c.from_bytes_mod_order (clamp (take 32 hash)), take 32 (drop 32 hash))

  unfoldable pub challenge_hash : (r_bytes pk_bytes message : Bytes) → Scalar
  challenge_hash r_bytes pk_bytes message =
      c.from_bytes_mod_order_wide (c.sha512 (concat (r_bytes ∷ pk_bytes ∷ message ∷ [])))

  unfoldable pub derive_nonce : (prefix adaptor_point message : Bytes) → Scalar
  derive_nonce prefix adaptor_point message =
      c.from_bytes_mod_order_wide (c.sha512 (concat (prefix ∷ adaptor_point ∷ message ∷ [])))

  -- The public key of a secret key.
  unfoldable pub public_key_of : Bytes → Bytes
  public_key_of secret_key = c.compress (c.mul_base (expand_secret_key secret_key).0)

  unfoldable pub pre_sign : (secret_key message : Bytes) → Point → AdaptorPreSignature
  unfolding public_key_of
  pre_sign secret_key message adaptor_point =
      let (a, prefix) = expand_secret_key secret_key in
      let r = derive_nonce prefix (c.compress adaptor_point) message in
      let adapted_r = c.compress (c.point_add (c.mul_base r) adaptor_point) in
      let challenge = challenge_hash adapted_r (public_key_of secret_key) message in
      record {
        r_prime = c.compress (c.mul_base r);
        s_prime = c.scalar_bytes (c.scalar_add r (c.scalar_mul challenge a));
      }

  unfoldable pub pre_verify : (public_key message : Bytes) → Point → AdaptorPreSignature → Bool
  pre_verify public_key message adaptor_point pre_sig =
      holds (c.decompress pre_sig.r_prime) λ r_prime. holds (c.decompress public_key) λ pk_point.
        holds (c.from_canonical_bytes pre_sig.s_prime) λ s_prime. c.point_eq (c.mul_base s_prime) (
          c.point_add r_prime (
            c.mul
              (challenge_hash (c.compress (c.point_add r_prime adaptor_point)) public_key message)
              pk_point))

  unfoldable pub adapt : AdaptorPreSignature → Scalar → Point → Option AdaptedSignature
  adapt pre_sig adaptor_secret adaptor_point = do
    r_prime ← c.decompress pre_sig.r_prime
    s_prime ← c.from_canonical_bytes pre_sig.s_prime
    some (record {
      r_bytes = c.compress (c.point_add r_prime adaptor_point);
      s_bytes = c.scalar_bytes (c.scalar_add s_prime adaptor_secret);
    })

  unfoldable pub extract : AdaptedSignature → AdaptorPreSignature → Option Scalar
  extract full_sig pre_sig = do
    s ← c.from_canonical_bytes full_sig.s_bytes
    s_prime ← c.from_canonical_bytes pre_sig.s_prime
    some (c.scalar_sub s s_prime)

  unfoldable pub verify_adapted : (public_key message : Bytes) → AdaptedSignature → Bool
  verify_adapted public_key message sig = holds (c.decompress sig.r_bytes) λ r.
      holds (c.decompress public_key) λ pk_point. holds (c.from_canonical_bytes sig.s_bytes) λ s.
        c.point_eq (c.mul_base s)
          (c.point_add r (c.mul (challenge_hash sig.r_bytes public_key message) pk_point))
