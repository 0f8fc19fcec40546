-- ===== src/Sigma/Or2.antt =====
-- The proof of one of two discrete logarithms in src/sigma.rs.
use babilonia.Prelude.{
  subst, bind-ok, ok-injective, ◌≡◌, ◌∙◌, refl, sym, ap, Bool, true, false, not, ◌==◌, Option, none,
  some, [], ◌∷◌, ◌++◌, length, take, drop, Result, ok, decode, ◌>>=◌, ◌>>◌, arith, fail_if,
  take-front, drop-front, length-append, append_assoc,
}
use babilonia.Bytes.{Bytes}
use babilonia.Text.{codes}
use babilonia.Bet.State.{pick}
use babilonia.Sigma.Curve.{
  Curve, CurveLaws, challenge, commitment, recovered, sub_add, unwrap, unwrap-eq-some,
}
use babilonia.Sigma.Dlog.{get_scalar}

unfoldable pub dom_or2 : Bytes
dom_or2 = codes "babilonia/sigma/or2/v1"

pub drop_twice : (a b c : Bytes) → length a ≡ 32 → length b ≡ 32 → drop 64 (a ++ (b ++ c)) ≡ c
drop_twice a b c h k =
    ap (drop 64) (sym (append_assoc a b c))
    ∙ drop-front 64 (a ++ b) c (omega (arith, length-append a b, h, k))

pub drop_thrice :
    (a b c d : Bytes)
    → length a ≡ 32
    → length b ≡ 32
    → length c ≡ 32
    → drop 96 (a ++ (b ++ (c ++ d))) ≡ d
drop_thrice a b c d h k l =
    ap (drop 96) (sym (append_assoc a b (c ++ d)) ∙ sym (append_assoc (a ++ b) c d))
    ∙ drop-front 96 ((a ++ b) ++ c) d
        (omega (arith, length-append (a ++ b) c, length-append a b, h, k, l))

module _ (curve : Curve) where
  open curve use {
    Scalar, MaybeScalar, Point, MaybePoint, of_scalar, not_zero, of_point, not_inf, add, neg, mul,
    times, generator, base_point_mul, scalar_eq, maybe_eq, scalar,
  }

  pub record Or2Proof : Type 0 where
    pub e_0 : Scalar
    pub e_1 : Scalar
    pub s_0 : Scalar
    pub s_1 : Scalar

  -- `Or2Proof::to_bytes` and `from_bytes`.
  unfoldable pub or2_to_bytes : Or2Proof → Bytes
  or2_to_bytes proof =
      scalar.serialize proof.e_0
      ++ (scalar.serialize proof.e_1 ++ (scalar.serialize proof.s_0 ++ scalar.serialize proof.s_1))

  unfoldable pub or2_from_bytes : Bytes → Result Or2Proof
  or2_from_bytes b = do
    fail_if (not (length b == 128)) (decode "or2 proof must be 128 bytes")
    e_0 ← get_scalar curve (take 32 b)
    e_1 ← get_scalar curve (take 32 (drop 32 b))
    s_0 ← get_scalar curve (take 32 (drop 64 b))
    s_1 ← get_scalar curve (drop 96 b)
    ok (record { e_0 = e_0; e_1 = e_1; s_0 = s_0; s_1 = s_1 })

  -- The randomness of a prover.
  pub record Draws : Type 0 where
    pub e_o : Scalar
    pub s_o : Scalar
    pub k : Scalar

  -- `prove_or2`: the branch that is not the bit's is simulated.
  unfoldable pub prove_or2 : Draws → Bool → Scalar → Point → Point → Bytes → Result Or2Proof
  prove_or2 draws bit x p_0 p_1 ctx = do
    r_o ←
        unwrap
          (not_inf (commitment curve draws.s_o draws.e_o (of_point generator) (pick bit p_1 p_0)))
    let r_b = base_point_mul draws.k
    let e = challenge curve dom_or2 ctx (p_0 ∷ p_1 ∷ pick bit r_b r_o ∷ pick bit r_o r_b ∷ [])
    e_b ← unwrap (not_zero (add (of_scalar e) (neg (of_scalar draws.e_o))))
    s_b ← unwrap (not_zero (add (of_scalar draws.k) (mul (of_scalar e_b) (of_scalar x))))
    ok (record {
      e_0 = pick bit e_b draws.e_o;
      e_1 = pick bit draws.e_o e_b;
      s_0 = pick bit s_b draws.s_o;
      s_1 = pick bit draws.s_o s_b;
    })

  abbrev both : Point → Point → Bytes → Or2Proof → Option Point → Option Point → Bool
  both p_0 p_1 ctx proof none r_1 = false
  both p_0 p_1 ctx proof (some r_0) none = false
  both p_0 p_1 ctx proof (some r_0) (some r_1) =
      maybe_eq (add (of_scalar proof.e_0) (of_scalar proof.e_1))
        (of_scalar (challenge curve dom_or2 ctx (p_0 ∷ p_1 ∷ r_0 ∷ r_1 ∷ [])))

  unfoldable pub verify_or2 : Point → Point → Bytes → Or2Proof → Bool
  verify_or2 p_0 p_1 ctx proof =
      both p_0 p_1 ctx proof
        (not_inf (commitment curve proof.s_0 proof.e_0 (of_point generator) p_0))
        (not_inf (commitment curve proof.s_1 proof.e_1 (of_point generator) p_1))

  module _ (laws : CurveLaws curve) (draws : Draws) (x : Scalar) (p_0 p_1 : Point)
      (ctx : Bytes) where
    made : Bool → Scalar → Scalar → Or2Proof
    made bit e_b s_b = record {
      e_0 = pick bit e_b draws.e_o;
      e_1 = pick bit draws.e_o e_b;
      s_0 = pick bit s_b draws.s_o;
      s_1 = pick bit draws.s_o s_b;
    }

    asked : Bool → Point → Scalar
    asked bit r_o =
        let r_b = base_point_mul draws.k in
        challenge curve dom_or2 ctx (p_0 ∷ p_1 ∷ pick bit r_b r_o ∷ pick bit r_o r_b ∷ [])

    -- The two challenges add up.
    front_sum :
        (e e_b : Scalar)
        → not_zero (add (of_scalar e) (neg (of_scalar draws.e_o))) ≡ some e_b
        → maybe_eq (add (of_scalar e_b) (of_scalar draws.e_o)) (of_scalar e) ≡ true
    front_sum e e_b is_e =
        rw
          (
            laws.of_scalar-not_zero _ e_b is_e,
            sub_add curve laws (of_scalar e) (of_scalar draws.e_o),
          )
          (laws.maybe_eq_refl (of_scalar e))

    back_sum :
        (e e_b : Scalar)
        → not_zero (add (of_scalar e) (neg (of_scalar draws.e_o))) ≡ some e_b
        → maybe_eq (add (of_scalar draws.e_o) (of_scalar e_b)) (of_scalar e) ≡ true
    back_sum e e_b is_e =
        rw (laws.add_comm (of_scalar draws.e_o) (of_scalar e_b)) (front_sum e e_b is_e)

    made_verifies :
        (bit : Bool) (r_o : Point) (e_b s_b : Scalar)
        → of_point (pick bit p_0 p_1) ≡ times (of_scalar x) (of_point generator)
        → not_inf (commitment curve draws.s_o draws.e_o (of_point generator) (pick bit p_1 p_0))
          ≡ some r_o
        → not_zero (add (of_scalar (asked bit r_o)) (neg (of_scalar draws.e_o))) ≡ some e_b
        → not_zero (add (of_scalar draws.k) (mul (of_scalar e_b) (of_scalar x))) ≡ some s_b
        → verify_or2 p_0 p_1 ctx (made bit e_b s_b) ≡ true
    unfolding verify_or2 asked made
    made_verifies false r_o e_b s_b is_p is_r is_e is_s =
        rw (recovered curve laws draws.k x e_b s_b p_0 is_p is_s, is_r)
          (front_sum (asked false r_o) e_b is_e)
    made_verifies true r_o e_b s_b is_p is_r is_e is_s =
        rw (recovered curve laws draws.k x e_b s_b p_1 is_p is_s, is_r)
          (back_sum (asked true r_o) e_b is_e)

    -- Over any curve: a proof of one of two logarithms verifies, whichever it is that is known.
    pub verify_or2-prove_or2 :
        (bit : Bool) (proof : Or2Proof)
        → of_point (pick bit p_0 p_1) ≡ times (of_scalar x) (of_point generator)
        → prove_or2 draws bit x p_0 p_1 ctx ≡ ok proof
        → verify_or2 p_0 p_1 ctx proof ≡ true
    unfolding prove_or2 asked made
    verify_or2-prove_or2 bit proof is_p h =
        let (r_o, is_r, h_1) = bind-ok _ _ proof h in
        let (e_b, is_e, h_2) = bind-ok _ _ proof h_1 in
        let (s_b, is_s, h_3) = bind-ok _ _ proof h_2 in
        subst (λ q. verify_or2 p_0 p_1 ctx q ≡ true) (ok-injective _ _ h_3)
          (made_verifies bit r_o e_b s_b is_p (unwrap-eq-some _ r_o is_r)
            (unwrap-eq-some _ e_b is_e) (unwrap-eq-some _ s_b is_s))

  -- A proof is read back from its 128 bytes.
  pub or2_from_bytes-or2_to_bytes :
      (proof : Or2Proof) → or2_from_bytes (or2_to_bytes proof) ≡ ok proof
  unfolding or2_from_bytes or2_to_bytes get_scalar
  or2_from_bytes-or2_to_bytes proof =
      let a = scalar.serialize proof.e_0 in
      let b = scalar.serialize proof.e_1 in
      let c = scalar.serialize proof.s_0 in
      let d = scalar.serialize proof.s_1 in
      let a_long : length a ≡ 32 = scalar.length-serialize proof.e_0 in
      let b_long : length b ≡ 32 = scalar.length-serialize proof.e_1 in
      let c_long : length c ≡ 32 = scalar.length-serialize proof.s_0 in
      let long : length (a ++ (b ++ (c ++ d))) ≡ 128 = omega (
        arith,
        length-append a (b ++ (c ++ d)),
        length-append b (c ++ d),
        length-append c d,
        a_long,
        b_long,
        c_long,
        scalar.length-serialize proof.s_1,
      ) in
      rw
        (
          long,
          take-front 32 a (b ++ (c ++ d)) a_long,
          drop_twice a b (c ++ d) a_long b_long,
          drop_thrice a b c d a_long b_long c_long,
          drop-front 32 a (b ++ (c ++ d)) a_long,
          take-front 32 b (c ++ d) b_long,
          take-front 32 c d c_long,
          scalar.from_slice-serialize proof.e_0,
          scalar.from_slice-serialize proof.e_1,
          scalar.from_slice-serialize proof.s_0,
          scalar.from_slice-serialize proof.s_1,
        )
        refl
