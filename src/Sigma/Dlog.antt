-- ===== src/Sigma/Dlog.antt =====
-- The proof of a discrete logarithm in src/sigma.rs, `P = x·G`.
use babilonia.Prelude.{
  subst, bind-ok, ok-injective, ◌≡◌, refl, Bool, true, false, not, ◌==◌, Option, none, some, [],
  ◌∷◌, ◌++◌, length, take, drop, Result, ok, decode, ok_or, ◌>>=◌, ◌>>◌, arith, fail_if, take-front,
  drop-front, length-append,
}
use babilonia.Bytes.{Bytes}
use babilonia.Text.{codes}
use babilonia.Sigma.Curve.{
  Curve, CurveLaws, challenge, commitment, recovered, unwrap, unwrap-eq-some,
}

unfoldable pub dom_dlog : Bytes
dom_dlog = codes "babilonia/sigma/dlog/v1"

module _ (curve : Curve) where
  open curve use {
    Scalar, MaybeScalar, Point, MaybePoint, of_scalar, not_zero, of_point, not_inf, add, neg, mul,
    times, generator, base_point_mul, scalar_eq, scalar,
  }

  unfoldable pub get_scalar : Bytes → Result Scalar
  get_scalar b = ok_or (scalar.from_slice b) (decode "invalid proof scalar")

  pub record DlogProof : Type 0 where
    pub e : Scalar
    pub s : Scalar

  -- `DlogProof::to_bytes` and `from_bytes`.
  unfoldable pub dlog_to_bytes : DlogProof → Bytes
  dlog_to_bytes proof = scalar.serialize proof.e ++ scalar.serialize proof.s

  unfoldable pub dlog_from_bytes : Bytes → Result DlogProof
  unfolding get_scalar
  dlog_from_bytes b = do
    fail_if (not (length b == 64)) (decode "dlog proof must be 64 bytes")
    e ← get_scalar (take 32 b)
    s ← get_scalar (drop 32 b)
    ok (record { e = e; s = s })

  -- `prove_dlog`, with its nonce.
  unfoldable pub prove_dlog : Scalar → Scalar → Point → Bytes → Result DlogProof
  prove_dlog k x p ctx = do
    let e = challenge curve dom_dlog ctx (p ∷ base_point_mul k ∷ [])
    s ← unwrap (not_zero (add (of_scalar k) (mul (of_scalar e) (of_scalar x))))
    ok (record { e = e; s = s })

  abbrev verifies : Point → Bytes → Scalar → Option Point → Bool
  verifies p ctx e none = false
  verifies p ctx e (some r) = scalar_eq (challenge curve dom_dlog ctx (p ∷ r ∷ [])) e

  unfoldable pub verify_dlog : Point → Bytes → DlogProof → Bool
  verify_dlog p ctx proof =
      verifies p ctx proof.e (not_inf (commitment curve proof.s proof.e (of_point generator) p))

  module _ (laws : CurveLaws curve) where
    -- Over any curve: a proof of the discrete logarithm of a point verifies, under the same context.
    pub verify_dlog-prove_dlog :
        (k x : Scalar) (p : Point) (ctx : Bytes) (proof : DlogProof)
        → of_point p ≡ times (of_scalar x) (of_point generator)
        → prove_dlog k x p ctx ≡ ok proof
        → verify_dlog p ctx proof ≡ true
    unfolding prove_dlog verify_dlog
    verify_dlog-prove_dlog k x p ctx proof is_p h =
        let e = challenge curve dom_dlog ctx (p ∷ base_point_mul k ∷ []) in
        let (s, is_s, is_proof) = bind-ok _ _ proof h in
        subst (λ q. verify_dlog p ctx q ≡ true) (ok-injective _ _ is_proof)
          (rw (recovered curve laws k x e s p is_p (unwrap-eq-some _ s is_s))
            (laws.scalar_eq_refl e))

  -- A proof is read back from its 64 bytes, and no other length is read.
  pub dlog_from_bytes-dlog_to_bytes :
      (proof : DlogProof) → dlog_from_bytes (dlog_to_bytes proof) ≡ ok proof
  unfolding dlog_from_bytes dlog_to_bytes get_scalar
  dlog_from_bytes-dlog_to_bytes proof =
      let e = scalar.serialize proof.e in
      let s = scalar.serialize proof.s in
      let front : length e ≡ 32 = scalar.length-serialize proof.e in
      let long : length (e ++ s) ≡ 64 =
        omega (arith, length-append e s, front, scalar.length-serialize proof.s) in
      rw
        (
          long,
          take-front 32 e s front,
          drop-front 32 e s front,
          scalar.from_slice-serialize proof.e,
          scalar.from_slice-serialize proof.s,
        )
        refl

  pub dlog_to_bytes-length : (proof : DlogProof) → length (dlog_to_bytes proof) ≡ 64
  unfolding dlog_to_bytes
  dlog_to_bytes-length proof = omega (
    arith,
    length-append (scalar.serialize proof.e) (scalar.serialize proof.s),
    scalar.length-serialize proof.e,
    scalar.length-serialize proof.s,
  )
