-- ===== src/Enclave/Adaptor/Laws.antt =====
-- What an adaptor pre-signature is good for, under the laws of the curve.
use privacy_x.Base.{◌≡◌, refl, sym, ap, ◌∙◌, Bool, true, Option, none, some, Bytes, arith}
use privacy_x.Enclave.State.{AdaptorPreSignature, AdaptedSignature}
use privacy_x.Enclave.Adaptor.{
  Curve, CurveLaws, holds, challenge_hash, expand_secret_key, derive_nonce, public_key_of, pre_sign,
  pre_verify, adapt, extract, verify_adapted,
}

on_holds :
    {A C : Type 0} (o : Option A) (test : A → Bool)
    → holds o test ≡ true
    → ((a : A) → o ≡ some a → test a ≡ true → C)
    → C
on_holds none test h k = absurd (cc)
on_holds (some a) test h k = k a refl h

-- A pre-signature that verifies, with the points and the scalar that it encodes.
pub record Verified {Scalar Point : Type 0} (c : Curve Scalar Point) (public_key message : Bytes)
    (adaptor_point : Point) (pre_sig : AdaptorPreSignature) : Type 0 where
  pub r_prime : Point
  pub pk_point : Point
  pub s_prime : Scalar
  pub r_at : c.decompress pre_sig.r_prime ≡ some r_prime
  pub pk_at : c.decompress public_key ≡ some pk_point
  pub s_at : c.from_canonical_bytes pre_sig.s_prime ≡ some s_prime
  pub equation :
      c.mul_base s_prime
      ≡ c.point_add r_prime (
          c.mul
            (challenge_hash c (c.compress (c.point_add r_prime adaptor_point)) public_key message)
            pk_point)

module _ {Scalar Point : Type 0} (c : Curve Scalar Point) (laws : CurveLaws c)
    (public_key message : Bytes) (adaptor_point : Point) (pre_sig : AdaptorPreSignature) where
  pub pre_verify-Verified :
      pre_verify c public_key message adaptor_point pre_sig ≡ true
      → Verified c public_key message adaptor_point pre_sig
  unfolding pre_verify
  pre_verify-Verified h = on_holds (c.decompress pre_sig.r_prime) _ h λ r e1 h1.
      on_holds (c.decompress public_key) _ h1 λ pk e2 h2.
        on_holds (c.from_canonical_bytes pre_sig.s_prime) _ h2 λ s e3 h3. record {
          r_prime = r;
          pk_point = pk;
          s_prime = s;
          r_at = e1;
          pk_at = e2;
          s_at = e3;
          equation = (laws.point_eq_iff _ _).0 h3;
        }

  -- The two sides of the adapted signature's equation, for any challenge.
  shift_equation :
      (r pk : Point) (e s t : Scalar)
      → c.mul_base s ≡ c.point_add r (c.mul e pk)
      → c.mul_base (c.scalar_add s t) ≡ c.point_add (c.point_add r (c.mul_base t)) (c.mul e pk)
  shift_equation r pk e s t h =
      laws.mul_base_add s t
      ∙ ap (λ p. c.point_add p (c.mul_base t)) h
      ∙ laws.point_add_assoc r (c.mul e pk) (c.mul_base t)
      ∙ ap (c.point_add r) (laws.point_add_comm (c.mul e pk) (c.mul_base t))
      ∙ sym (laws.point_add_assoc r (c.mul_base t) (c.mul e pk))

  -- Whoever knows the secret of the adaptor point turns a pre-signature that verifies, honest or not,
  -- into a signature that verifies, and that signature gives the secret away to whoever holds the
  -- pre-signature.
  pub adapt_completes :
      (t : Scalar)
      → c.mul_base t ≡ adaptor_point
      → pre_verify c public_key message adaptor_point pre_sig ≡ true
      → (sig : AdaptedSignature) × (adapt c pre_sig t adaptor_point ≡ some sig)
        × (verify_adapted c public_key message sig ≡ true)
        × (extract c sig pre_sig ≡ some t)
  unfolding adapt verify_adapted extract
  adapt_completes t opens h =
      let v = pre_verify-Verified h in
      let sig : AdaptedSignature = record {
        r_bytes = c.compress (c.point_add v.r_prime adaptor_point);
        s_bytes = c.scalar_bytes (c.scalar_add v.s_prime t);
      } in
      let challenge = challenge_hash c sig.r_bytes public_key message in
      let adds : c.mul_base (c.scalar_add v.s_prime t)
          ≡ c.point_add (c.point_add v.r_prime adaptor_point) (c.mul challenge v.pk_point) =
        shift_equation v.r_prime v.pk_point challenge v.s_prime t v.equation
        ∙ ap (λ p. c.point_add (c.point_add v.r_prime p) (c.mul challenge v.pk_point)) opens in
      (
        sig,
        rw v.r_at (rw v.s_at refl),
        rw (laws.point_round (c.point_add v.r_prime adaptor_point)) (
            rw v.pk_at
              (rw (laws.scalar_round (c.scalar_add v.s_prime t)) ((laws.point_eq_iff _ _).1 adds))),
        rw (laws.scalar_round (c.scalar_add v.s_prime t))
            (rw v.s_at (ap some (laws.add_sub v.s_prime t))),
      )

  extracted :
      (sig : AdaptedSignature) {t : Scalar} (s s_prime : Scalar)
      → c.from_canonical_bytes sig.s_bytes ≡ some s
      → c.from_canonical_bytes pre_sig.s_prime ≡ some s_prime
      → extract c sig pre_sig ≡ some t
      → c.scalar_sub s s_prime ≡ t
  unfolding extract
  extracted sig s s_prime e e' h = ground (arith, e, e', h)

  -- Two signatures that verify are encoded canonically, so their difference can be taken.
  pub extract_succeeds :
      (sig : AdaptedSignature)
      → pre_verify c public_key message adaptor_point pre_sig ≡ true
      → verify_adapted c public_key message sig ≡ true
      → (t : Scalar) × (extract c sig pre_sig ≡ some t)
  unfolding verify_adapted extract
  extract_succeeds sig h signed =
      let v = pre_verify-Verified h in
      on_holds (c.decompress sig.r_bytes) _ signed λ r e1 h1.
        on_holds (c.decompress public_key) _ h1 λ pk e2 h2.
          on_holds (c.from_canonical_bytes sig.s_bytes) _ h2
            λ s e3 h3. (c.scalar_sub s v.s_prime, rw e3 (rw v.s_at refl))

  -- A signature that verifies and carries the adapted nonce of a pre-signature that verifies gives
  -- away the secret of the adaptor point.
  pub extract_opens :
      (sig : AdaptedSignature) (r_prime : Point) (t : Scalar)
      → pre_verify c public_key message adaptor_point pre_sig ≡ true
      → c.decompress pre_sig.r_prime ≡ some r_prime
      → sig.r_bytes ≡ c.compress (c.point_add r_prime adaptor_point)
      → verify_adapted c public_key message sig ≡ true
      → extract c sig pre_sig ≡ some t
      → c.mul_base t ≡ adaptor_point
  unfolding verify_adapted extract
  extract_opens sig r_prime t h r_at nonce signed got =
      let v = pre_verify-Verified h in
      let same_r : v.r_prime ≡ r_prime = cc (v.r_at, r_at) in
      on_holds (c.decompress sig.r_bytes) _ signed λ r e1 h1.
        on_holds (c.decompress public_key) _ h1 λ pk e2 h2.
          on_holds (c.from_canonical_bytes sig.s_bytes) _ h2 λ s e3 h3.
            let sum_at = laws.point_round (c.point_add r_prime adaptor_point) in
            let r_is : r ≡ c.point_add r_prime adaptor_point = cc (e1, nonce, sum_at) in
            let pk_is : pk ≡ v.pk_point = cc (e2, v.pk_at) in
            let t_is : c.scalar_sub s v.s_prime ≡ t = extracted sig s v.s_prime e3 v.s_at got in
            let full = (laws.point_eq_iff _ _).0 h3 in
            let pre = v.equation in
            let split = ap c.mul_base (sym (laws.sub_add s v.s_prime)) in
            let shift = laws.mul_base_add v.s_prime (c.scalar_sub s v.s_prime) in
            let x =
              c.mul
                (challenge_hash c (c.compress (c.point_add v.r_prime adaptor_point)) public_key
                  message)
                v.pk_point in
            let left = laws.point_add_assoc v.r_prime x adaptor_point in
            let swap = laws.point_add_comm x adaptor_point in
            let right = laws.point_add_assoc v.r_prime adaptor_point x in
            laws.point_add_cancel (c.point_add v.r_prime x) (c.mul_base t) adaptor_point
              (cc (full, pre, split, shift, t_is, r_is, pk_is, same_r, nonce, left, swap, right))

module _ {Scalar Point : Type 0} (c : Curve Scalar Point) (laws : CurveLaws c) where
  -- A pre-signature made with a secret key verifies under its public key, for the message and the
  -- adaptor point that it was made for.
  pub pre_verify-pre_sign :
      (secret_key message : Bytes) (adaptor_point : Point)
      → pre_verify c
          (public_key_of c secret_key)
          message
          adaptor_point
          (pre_sign c secret_key message adaptor_point)
        ≡ true
  unfolding pre_verify pre_sign public_key_of
  pre_verify-pre_sign secret_key message adaptor_point =
      let (a, prefix) = expand_secret_key c secret_key in
      let r = derive_nonce c prefix (c.compress adaptor_point) message in
      let e =
        challenge_hash c (c.compress (c.point_add (c.mul_base r) adaptor_point))
          (c.compress (c.mul_base a)) message in
      let equation : c.mul_base (c.scalar_add r (c.scalar_mul e a))
          ≡ c.point_add (c.mul_base r) (c.mul e (c.mul_base a)) =
        laws.mul_base_add r (c.scalar_mul e a)
        ∙ ap (c.point_add (c.mul_base r)) (laws.mul_base_mul e a) in
      rw (laws.point_round (c.mul_base r)) (
        rw (laws.point_round (c.mul_base a)) (
          rw (laws.scalar_round (c.scalar_add r (c.scalar_mul e a)))
            ((laws.point_eq_iff _ _).1 equation)))
