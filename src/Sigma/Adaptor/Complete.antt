-- ===== src/Sigma/Adaptor/Complete.antt =====
-- An honest adaptor proof verifies.
use babilonia.Prelude.{
  subst, bind-ok, ok-injective, ok_or-eq-some, ℕ, zero, suc, ◌≡◌, ◌∙◌, refl, sym, ap, true, some,
  List, [], ◌∷◌, get_elem?, arith, ok, protocol, ◌>>=◌,
}
use mathlib.Core.Option.{some-injective}
use babilonia.Bytes.{Bytes}
use babilonia.Sigma.Curve.{Curve, CurveLaws}
use babilonia.Sigma.Dlog.{verify_dlog, verify_dlog-prove_dlog}
use babilonia.Sigma.OrDlog.{verify_or_dlog}
use babilonia.Sigma.OrDlog.Complete.{verify_or_dlog-prove_or_dlog}
use babilonia.Sigma.Statements.{minus, minus_lem}
use babilonia.Sigma.Adaptor.{
  AdaptorProof, or_targets, pedersen_commit, Nonces, prove_adaptor, verify_adaptor,
}

module _ (curve : Curve) (laws : CurveLaws curve) where
  open curve use {
    Scalar, Point, MaybePoint, of_scalar, of_point, not_inf, add_points, neg_point, times,
    generator,
  }

  -- The target at an index is the difference from the thimble at that index.
  TargetAt : Point → Point → List Point → ℕ → Type 0
  TargetAt c_a a ts idx =
      (t : Point) × (get_elem? ts idx ≡ some t)
      × (of_point t ≡ add_points (of_point c_a) (neg_point (of_point a)))

  or_targets-TargetAt :
      (c_a a : Point) (thimbles ts : List Point) (idx : ℕ)
      → get_elem? thimbles idx ≡ some a
      → or_targets curve c_a thimbles ≡ ok ts
      → TargetAt c_a a ts idx
  unfolding or_targets TargetAt
  or_targets-TargetAt c_a a [] ts idx at h = ground arith
  or_targets-TargetAt c_a a (b ∷ bs) ts zero at h =
      let (t, is_t, h_1) =
        bind-ok (minus curve c_a b (protocol "C_a − A_c is the identity"))
          (λ x. or_targets curve c_a bs >>= λ r. ok (x ∷ r)) ts h in
      let (rest, is_rest, h_2) = bind-ok (or_targets curve c_a bs) (λ r. ok (t ∷ r)) ts h_1 in
      subst (λ l. TargetAt c_a a l zero) (ok-injective _ _ h_2)
        (
          t,
          refl,
          minus_lem curve laws c_a b _ t is_t
              ∙ ap (λ p. add_points (of_point c_a) (neg_point (of_point p)))
                  (some-injective _ _ at),
        )
  or_targets-TargetAt c_a a (b ∷ bs) ts (suc idx) at h =
      let (t, is_t, h_1) =
        bind-ok (minus curve c_a b (protocol "C_a − A_c is the identity"))
          (λ x. or_targets curve c_a bs >>= λ r. ok (x ∷ r)) ts h in
      let (rest, is_rest, h_2) = bind-ok (or_targets curve c_a bs) (λ r. ok (t ∷ r)) ts h_1 in
      subst (λ l. TargetAt c_a a l (suc idx)) (ok-injective _ _ h_2)
        (or_targets-TargetAt c_a a bs rest idx at is_rest)

  -- `(p + q) − p = q`.
  minus_front : (p q : MaybePoint) → add_points (add_points p q) (neg_point p) ≡ q
  minus_front p q =
      ap (λ r. add_points r (neg_point p)) (laws.points_comm p q)
      ∙ laws.points_assoc q p (neg_point p)
      ∙ ap (add_points q) (laws.points-neg p)
      ∙ laws.points-infinity q

  module _ (b_ped : Point) (a_c blind d : Scalar) (guess : ℕ) (thimbles : List Point)
      (d_point : Point) (ctx : Bytes) where
    -- The commitment to the winning thimble's scalar differs from that thimble by the blinding.
    committed :
        (c_a a : Point)
        → of_point a ≡ times (of_scalar a_c) (of_point generator)
        → pedersen_commit curve b_ped a_c blind ≡ ok c_a
        → add_points (of_point c_a) (neg_point (of_point a))
          ≡ times (of_scalar blind) (of_point b_ped)
    unfolding pedersen_commit
    committed c_a a is_a h =
        ap (λ q. add_points q (neg_point (of_point a)))
          (laws.of_point-not_inf _ c_a (ok_or-eq-some _ _ c_a h)
            ∙ ap (λ p. add_points p (times (of_scalar blind) (of_point b_ped)))
                (laws.base_point_mul_lem a_c ∙ sym is_a))
        ∙ minus_front (of_point a) (times (of_scalar blind) (of_point b_ped))

    checked :
        (proof : AdaptorProof curve) (ts : List Point)
        → verify_dlog curve d_point ctx proof.d_pok ≡ true
        → or_targets curve proof.c_a thimbles ≡ ok ts
        → verify_or_dlog curve b_ped ts proof.adaptor_or ctx ≡ true
        → verify_adaptor curve b_ped proof thimbles d_point ctx ≡ true
    unfolding verify_adaptor
    checked proof ts pok is_ts v = rw (pok, is_ts, v) refl

    -- Over any curve and base: if `a_c` is the logarithm of the thimble at the prover's index, and `d`
    -- that of the point `D`, the sigma part of the dealer's proof verifies.
    pub verify_adaptor-prove_adaptor :
        (nonces : Nonces curve b_ped) (a : Point) (proof : AdaptorProof curve)
        → get_elem? thimbles guess ≡ some a
        → of_point a ≡ times (of_scalar a_c) (of_point generator)
        → of_point d_point ≡ times (of_scalar d) (of_point generator)
        → prove_adaptor curve b_ped nonces a_c blind d guess thimbles d_point ctx ≡ ok proof
        → verify_adaptor curve b_ped proof thimbles d_point ctx ≡ true
    unfolding prove_adaptor TargetAt
    verify_adaptor-prove_adaptor nonces a proof at is_a is_d h =
        let (c_a, is_c, h_1) = bind-ok _ _ proof h in
        let (d_pok, is_pok, h_2) = bind-ok _ _ proof h_1 in
        let (ts, is_ts, h_3) = bind-ok _ _ proof h_2 in
        let (branches, is_or, h_4) = bind-ok _ _ proof h_3 in
        let (t, t_at, is_t) = or_targets-TargetAt c_a a thimbles ts guess at is_ts in
        subst (λ q. verify_adaptor curve b_ped q thimbles d_point ctx ≡ true) (ok-injective _ _ h_4)
          (checked (record { c_a = c_a; d_pok = d_pok; adaptor_or = branches }) ts
            (verify_dlog-prove_dlog curve laws nonces.k d d_point ctx d_pok is_d is_pok) is_ts
            (verify_or_dlog-prove_or_dlog curve laws b_ped nonces.draws nonces.rho blind ts ctx
              guess t branches t_at (is_t ∙ committed c_a a is_a is_c) is_or))
