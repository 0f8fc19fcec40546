-- ===== src/Sigma/Statements.antt =====
-- The proofs that the two parties exchange in src/sigma.rs: the thimble PoKs and `π_r`.
use babilonia.Prelude.{
  subst, bind-ok, ok-injective, ok_or-eq-some, ◌≡◌, ◌∙◌, refl, sym, ap, Bool, true, false, ◌&&◌,
  not, ◌==◌, ◌++◌, length, take, drop, Error, Result, ok, err, protocol, ok_or, if◌then◌else◌,
  ◌>>=◌, arith, take-front, drop-front, length-append,
}
use babilonia.Bytes.{Bytes}
use babilonia.Bet.State.{pick}
use babilonia.Sigma.Curve.{Curve, CurveLaws}
use babilonia.Sigma.Dlog.{
  DlogProof, dlog_to_bytes, dlog_from_bytes, prove_dlog, verify_dlog, verify_dlog-prove_dlog,
  dlog_from_bytes-dlog_to_bytes, dlog_to_bytes-length,
}
use babilonia.Sigma.Or2.{
  Or2Proof, Draws, or2_to_bytes, or2_from_bytes, prove_or2, verify_or2, verify_or2-prove_or2,
  or2_from_bytes-or2_to_bytes,
}

module _ (curve : Curve) where
  open curve use {
    Scalar, Point, of_scalar, of_point, not_inf, add_points, neg_point, times, generator,
    base_point_mul,
  }

  -- `prove_thimble_poks`, with the nonces of both proofs.
  unfoldable pub prove_thimble_poks : Scalar → Scalar → Scalar → Scalar → Bytes → Result Bytes
  prove_thimble_poks k_0 k_1 h_0 h_1 ctx = do
    proof_0 ← prove_dlog curve k_0 h_0 (base_point_mul h_0) ctx
    proof_1 ← prove_dlog curve k_1 h_1 (base_point_mul h_1) ctx
    ok (dlog_to_bytes curve proof_0 ++ dlog_to_bytes curve proof_1)

  abbrev pub both_verify :
      Point → Point → Bytes → Result (DlogProof curve) → Result (DlogProof curve) → Bool
  both_verify a_0 a_1 ctx (ok p_0) (ok p_1) =
      verify_dlog curve a_0 ctx p_0 && verify_dlog curve a_1 ctx p_1
  both_verify a_0 a_1 ctx (ok p_0) (err e) = false
  both_verify a_0 a_1 ctx (err e) p_1 = false

  unfoldable pub verify_thimble_poks : Point → Point → Bytes → Bytes → Bool
  verify_thimble_poks a_0 a_1 ctx bytes =
      if not (length bytes == 128)
      then false
      else both_verify a_0 a_1 ctx (dlog_from_bytes curve (take 64 bytes))
          (dlog_from_bytes curve (drop 64 bytes))

  -- A difference of points that must not be at infinity.
  unfoldable pub minus : Point → Point → Error → Result Point
  minus k a e = ok_or (not_inf (add_points (of_point k) (neg_point (of_point a)))) e

  -- `claim_statement`: `K − A_0` and `K − A_1`.
  unfoldable pub claim_statement : Point → Point → Point → Result (Point × Point)
  claim_statement k a_0 a_1 = do
    p_0 ← minus k a_0 (protocol "K − H_0 identity")
    p_1 ← minus k a_1 (protocol "K − H_1 identity")
    ok (p_0, p_1)

  unfoldable pub prove_pi_r :
      Draws curve → Scalar → Bool → Point → Point → Point → Bytes → Result Bytes
  prove_pi_r draws w_b guess k a_0 a_1 ctx = do
    stmt ← claim_statement k a_0 a_1
    proof ← prove_or2 curve draws guess w_b stmt.0 stmt.1 ctx
    ok (or2_to_bytes curve proof)

  abbrev pub checks : Result (Or2Proof curve) → Bytes → Point × Point → Bool
  checks (err e) ctx stmt = false
  checks (ok proof) ctx stmt = verify_or2 curve stmt.0 stmt.1 ctx proof

  abbrev pub states : Result (Point × Point) → Bytes → Bytes → Bool
  states (err e) ctx bytes = false
  states (ok stmt) ctx bytes = checks (or2_from_bytes curve bytes) ctx stmt

  unfoldable pub verify_pi_r : Point → Point → Point → Bytes → Bytes → Bool
  verify_pi_r k a_0 a_1 ctx bytes = states (claim_statement k a_0 a_1) ctx bytes

  module _ (laws : CurveLaws curve) where
    accepted :
        (a_0 a_1 : Point) (ctx : Bytes) (p_0 p_1 : DlogProof curve)
        → verify_dlog curve a_0 ctx p_0 ≡ true
        → verify_dlog curve a_1 ctx p_1 ≡ true
        → verify_thimble_poks a_0 a_1 ctx (dlog_to_bytes curve p_0 ++ dlog_to_bytes curve p_1)
          ≡ true
    unfolding verify_thimble_poks
    accepted a_0 a_1 ctx p_0 p_1 v_0 v_1 =
        let a = dlog_to_bytes curve p_0 in
        let b = dlog_to_bytes curve p_1 in
        let front : length a ≡ 64 = dlog_to_bytes-length curve p_0 in
        let long : length (a ++ b) ≡ 128 =
          omega (arith, length-append a b, front, dlog_to_bytes-length curve p_1) in
        rw
          (
            long,
            take-front 64 a b front,
            drop-front 64 a b front,
            dlog_from_bytes-dlog_to_bytes curve p_0,
            dlog_from_bytes-dlog_to_bytes curve p_1,
            v_0,
            v_1,
          )
          refl

    -- Over any curve: the thimble proofs that a dealer sends verify against the thimbles' points.
    pub verify_thimble_poks-prove_thimble_poks :
        (k_0 k_1 h_0 h_1 : Scalar) (ctx proofs : Bytes)
        → prove_thimble_poks k_0 k_1 h_0 h_1 ctx ≡ ok proofs
        → verify_thimble_poks (base_point_mul h_0) (base_point_mul h_1) ctx proofs ≡ true
    unfolding prove_thimble_poks
    verify_thimble_poks-prove_thimble_poks k_0 k_1 h_0 h_1 ctx proofs h =
        let (p_0, is_0, h_1') = bind-ok _ _ proofs h in
        let (p_1, is_1, h_2) = bind-ok _ _ proofs h_1' in
        subst (λ b. verify_thimble_poks (base_point_mul h_0) (base_point_mul h_1) ctx b ≡ true)
          (ok-injective _ _ h_2)
          (accepted (base_point_mul h_0) (base_point_mul h_1) ctx p_0 p_1
            (verify_dlog-prove_dlog curve laws k_0 h_0 (base_point_mul h_0) ctx p_0
              (laws.base_point_mul_lem h_0) is_0)
            (verify_dlog-prove_dlog curve laws k_1 h_1 (base_point_mul h_1) ctx p_1
              (laws.base_point_mul_lem h_1) is_1))

    checked :
        (k a_0 a_1 : Point) (ctx : Bytes) (stmt : Point × Point) (proof : Or2Proof curve)
        → claim_statement k a_0 a_1 ≡ ok stmt
        → verify_or2 curve stmt.0 stmt.1 ctx proof ≡ true
        → states (claim_statement k a_0 a_1) ctx (or2_to_bytes curve proof) ≡ true
    checked k a_0 a_1 ctx stmt proof is_stmt h =
        rw (is_stmt, or2_from_bytes-or2_to_bytes curve proof) h

    minus_plus : (a b : curve.MaybePoint) → add_points (add_points a b) (neg_point b) ≡ a
    minus_plus a b =
        laws.points_assoc a b (neg_point b)
        ∙ ap (add_points a) (laws.points-neg b)
        ∙ laws.points-infinity a

    pub minus_lem :
        (k a : Point) (e : Error) (p : Point)
        → minus k a e ≡ ok p
        → of_point p ≡ add_points (of_point k) (neg_point (of_point a))
    unfolding minus
    minus_lem k a e p h = laws.of_point-not_inf _ p (ok_or-eq-some _ e p h)

    -- The statement is made of the differences.
    differences :
        (k a_0 a_1 : Point) (stmt : Point × Point)
        → claim_statement k a_0 a_1 ≡ ok stmt
        → (of_point stmt.0 ≡ add_points (of_point k) (neg_point (of_point a_0)))
          × (of_point stmt.1 ≡ add_points (of_point k) (neg_point (of_point a_1)))
    unfolding claim_statement
    differences k a_0 a_1 stmt h =
        let minus_1 = minus k a_1 (protocol "K − H_1 identity") in
        let (p_0, is_0, h_1) =
          bind-ok (minus k a_0 (protocol "K − H_0 identity")) (λ p. minus_1 >>= λ q. ok (p, q)) stmt
            h in
        let (p_1, is_1, h_2) = bind-ok minus_1 (λ q. ok (p_0, q)) stmt h_1 in
        let same : (p_0, p_1) ≡ stmt = ok-injective _ _ h_2 in
        (
          ap (λ st. of_point st.0) (sym same) ∙ minus_lem k a_0 _ p_0 is_0,
          ap (λ st. of_point st.1) (sym same) ∙ minus_lem k a_1 _ p_1 is_1,
        )

    stated :
        (k a_0 a_1 : Point) (stmt : Point × Point) (y : Bool)
        → claim_statement k a_0 a_1 ≡ ok stmt
        → of_point (pick y stmt.0 stmt.1)
          ≡ add_points (of_point k) (neg_point (of_point (pick y a_0 a_1)))
    stated k a_0 a_1 stmt false h = (differences k a_0 a_1 stmt h).0
    stated k a_0 a_1 stmt true h = (differences k a_0 a_1 stmt h).1

    -- Over any curve: if `K = w_b·G + A_y` for the player's hidden key `w_b` and his guess `y`, the
    -- proof of it that he sends verifies, whichever his guess is.
    pub verify_pi_r-prove_pi_r :
        (draws : Draws curve) (w_b : Scalar) (guess : Bool) (k a_0 a_1 : Point) (ctx bytes : Bytes)
        → of_point k
          ≡ add_points (times (of_scalar w_b) (of_point generator)) (of_point (pick guess a_0 a_1))
        → prove_pi_r draws w_b guess k a_0 a_1 ctx ≡ ok bytes
        → verify_pi_r k a_0 a_1 ctx bytes ≡ true
    unfolding prove_pi_r verify_pi_r
    verify_pi_r-prove_pi_r draws w_b guess k a_0 a_1 ctx bytes is_k h =
        let (stmt, is_stmt, h_1) = bind-ok _ _ bytes h in
        let (proof, is_proof, h_2) = bind-ok _ _ bytes h_1 in
        let known : of_point (pick guess stmt.0 stmt.1)
            ≡ times (of_scalar w_b) (of_point generator) =
          stated k a_0 a_1 stmt guess is_stmt
          ∙ ap (λ q. add_points q (neg_point (of_point (pick guess a_0 a_1)))) is_k
          ∙ minus_plus (times (of_scalar w_b) (of_point generator))
              (of_point (pick guess a_0 a_1)) in
        subst (λ b. states (claim_statement k a_0 a_1) ctx b ≡ true) (ok-injective _ _ h_2)
          (checked k a_0 a_1 ctx stmt proof is_stmt (
            verify_or2-prove_or2 curve laws draws w_b stmt.0 stmt.1 ctx guess proof known is_proof))
