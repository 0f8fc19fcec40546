-- ===== src/PiA/Complete.antt =====
-- What an honest prover sends under the squaring scheme is accepted.
use babilonia.Prelude.{
  Error, ℕ, ◌-◌, subst, bind-ok, ok-injective, ok_or-eq-some, ◌≡◌, ◌∙◌, refl, sym, ap, Bool, true,
  false, not, ◌==◌, leb, some, [], ◌∷◌, ◌++◌, length, take, Result, ok, fail_if, arith, take-front,
  drop-front, length-append, ◌>>=◌, ◌>>◌,
}
use babilonia.Bytes.{Bytes}
use babilonia.Bet.Library.{squaring}
use babilonia.Bet.State.{pick}
use babilonia.Sigma.Curve.{Curve, CurveLaws, sub_add}
use babilonia.Sigma.Or2.{drop_twice, drop_thrice}
use babilonia.PiA.{
  or_fail-eq-some, Products, Statement, Witness, Draws, square, target, targets, challenge,
  commit_u, commit_v, proof_bytes, prove_branch, prove_squaring, recompute, verify_scalars, read_at,
  verify_squaring, prove, verify,
}

not_failed :
    {U : Type 0} (b : Bool) (e : Error) (rest : Result U) (u : U)
    → (fail_if b e >> rest) ≡ ok u
    → (b ≡ false) × (rest ≡ ok u)
not_failed false e rest u h = (refl, h)
not_failed true e rest u h = ground arith

take_all : (n : ℕ) (xs : Bytes) → length xs ≡ n → take n xs ≡ xs
take_all n [] h = ground arith
take_all n (x ∷ xs) h = ground (arith, take_all (n - 1) xs (omega arith))

module _ (curve : Curve) (products : Products curve) where
  open curve use {
    Scalar, MaybeScalar, Point, MaybePoint, of_scalar, not_zero, of_point, not_inf, add, neg, mul,
    times, generator, add_points, neg_point, base_point_mul, scalar_eq, scalar,
  }
  open products use {product, scale, point_eq}

  pub record ProductLaws : Type 0 where
    pub product_lem : (a b : Scalar) → of_scalar (product a b) ≡ mul (of_scalar a) (of_scalar b)
    pub scale_lem :
        (s : Scalar) (p : Point) → of_point (scale s p) ≡ times (of_scalar s) (of_point p)
    pub not_zero-of_scalar : (s : Scalar) → not_zero (of_scalar s) ≡ some s

  module _ (laws : CurveLaws curve) (more : ProductLaws) where
    plus_minus : (a b : MaybePoint) → add_points (add_points a b) (neg_point b) ≡ a
    plus_minus a b =
        laws.points_assoc a b (neg_point b)
        ∙ ap (add_points a) (laws.points-neg b)
        ∙ laws.points-infinity a

    -- `(a + t²)·G − a·G = t·(t·G)`.
    target_known :
        (ctxt t a_c : Scalar) (d a y : Point)
        → of_point d ≡ times (of_scalar t) (of_point generator)
        → of_point a ≡ times (of_scalar a_c) (of_point generator)
        → of_scalar ctxt ≡ add (of_scalar a_c) (of_scalar (square curve products t))
        → target curve products ctxt a ≡ ok y
        → of_point y ≡ times (of_scalar t) (of_point d)
    unfolding square
    target_known ctxt t a_c d a y is_d is_a is_ctxt h =
        let g = of_point generator in
        let x = times (of_scalar a_c) g in
        let tt2 = mul (of_scalar t) (of_scalar t) in
        laws.of_point-not_inf _ y (ok_or-eq-some _ _ y h)
        ∙ ap (λ p. add_points p (neg_point (of_point a)))
            (laws.base_point_mul_lem ctxt
              ∙ ap (λ s. times s g) (is_ctxt ∙ ap (add (of_scalar a_c)) (more.product_lem t t))
              ∙ laws.times-add (of_scalar a_c) tt2 g
              ∙ laws.points_comm x (times tt2 g))
        ∙ ap (λ p. add_points (add_points (times tt2 g) x) (neg_point p)) is_a
        ∙ plus_minus (times tt2 g) x
        ∙ laws.times-mul (of_scalar t) (of_scalar t) g
        ∙ ap (times (of_scalar t)) (sym is_d)

    -- `(r + e·t)·B − e·(t·B) = r·B`.
    answer :
        (r e t z : Scalar) (base q : MaybePoint) (p : Point)
        → q ≡ times (of_scalar z) base
        → of_point p ≡ times (of_scalar t) base
        → not_zero (add (of_scalar r) (of_scalar (product e t))) ≡ some z
        → add_points q (neg_point (of_point (scale e p))) ≡ times (of_scalar r) base
    answer r e t z base q p is_q is_p is_z =
        let x = times (of_scalar e) (times (of_scalar t) base) in
        ap (λ m. add_points m (neg_point (of_point (scale e p))))
          (is_q
            ∙ ap (λ s. times s base)
                (laws.of_scalar-not_zero _ z is_z ∙ ap (add (of_scalar r)) (more.product_lem e t))
            ∙ laws.times-add (of_scalar r) (mul (of_scalar e) (of_scalar t)) base
            ∙ ap (add_points (times (of_scalar r) base))
                (laws.times-mul (of_scalar e) (of_scalar t) base))
        ∙ ap (λ m. add_points (add_points (times (of_scalar r) base) x) (neg_point m))
            (more.scale_lem e p ∙ ap (times (of_scalar e)) is_p)
        ∙ plus_minus (times (of_scalar r) base) x

    -- The branch that the prover knows gives back what he committed to.
    recompute_known :
        (r e t z : Scalar) (d y : Point)
        → of_point d ≡ times (of_scalar t) (of_point generator)
        → of_point y ≡ times (of_scalar t) (of_point d)
        → not_zero (add (of_scalar r) (of_scalar (product e t))) ≡ some z
        → recompute curve products d e z y ≡ some (base_point_mul r, scale r d)
    recompute_known r e t z d y is_d is_y is_z =
        let u : not_inf (commit_u curve products e z d) ≡ some (base_point_mul r) =
          ap not_inf (
            answer r e t z (of_point generator) (of_point (base_point_mul z)) d
              (laws.base_point_mul_lem z) is_d is_z
            ∙ sym (laws.base_point_mul_lem r))
          ∙ laws.not_inf-of_point (base_point_mul r) in
        let v : not_inf (commit_v curve products e z d y) ≡ some (scale r d) =
          ap not_inf (
            answer r e t z (of_point d) (of_point (scale z d)) y (more.scale_lem z d) is_y is_z
            ∙ sym (more.scale_lem r d))
          ∙ laws.not_inf-of_point (scale r d) in
        rw (u, v) refl

    sum_known :
        (e e_c e_j : Scalar)
        → not_zero (add (of_scalar e) (neg (of_scalar e_j))) ≡ some e_c
        → not_zero (add (of_scalar e_c) (of_scalar e_j)) ≡ some e
    sum_known e e_c e_j h =
        ap (λ s. not_zero (add s (of_scalar e_j))) (laws.of_scalar-not_zero _ e_c h)
        ∙ ap not_zero (sub_add curve laws (of_scalar e) (of_scalar e_j))
        ∙ more.not_zero-of_scalar e

    -- The proof is read back from its 128 bytes.
    verify_squaring-proof_bytes :
        (st : Statement curve products) (a b c d : Scalar)
        → point_eq st.thimbles.0 st.thimbles.1 ≡ false
        → verify_squaring curve products st (proof_bytes curve products a b c d)
          ≡ verify_scalars curve products st a b c d
    unfolding verify_squaring
    verify_squaring-proof_bytes st a b c d apart =
        let w = scalar.serialize a in
        let x = scalar.serialize b in
        let y = scalar.serialize c in
        let z = scalar.serialize d in
        let w_long = scalar.length-serialize a in
        let x_long = scalar.length-serialize b in
        let y_long = scalar.length-serialize c in
        let z_long = scalar.length-serialize d in
        let long : length (w ++ (x ++ (y ++ z))) ≡ 128 = omega (
          arith,
          length-append w (x ++ (y ++ z)),
          length-append x (y ++ z),
          length-append y z,
          w_long,
          x_long,
          y_long,
          z_long,
        ) in
        let bytes = proof_bytes curve products a b c d in
        let first : read_at curve products 0 bytes ≡ some a =
          ap scalar.from_slice (take-front 32 w (x ++ (y ++ z)) w_long)
          ∙ scalar.from_slice-serialize a in
        let second : read_at curve products 32 bytes ≡ some b =
          ap (λ r. scalar.from_slice (take 32 r)) (drop-front 32 w (x ++ (y ++ z)) w_long)
          ∙ ap scalar.from_slice (take-front 32 x (y ++ z) x_long)
          ∙ scalar.from_slice-serialize b in
        let third : read_at curve products 64 bytes ≡ some c =
          ap (λ r. scalar.from_slice (take 32 r)) (drop_twice w x (y ++ z) w_long x_long)
          ∙ ap scalar.from_slice (take-front 32 y z y_long)
          ∙ scalar.from_slice-serialize c in
        let fourth : read_at curve products 96 bytes ≡ some d =
          ap (λ r. scalar.from_slice (take 32 r)) (drop_thrice w x y z w_long x_long y_long)
          ∙ ap scalar.from_slice (take_all 32 z z_long)
          ∙ scalar.from_slice-serialize d in
        rw (long, apart, first, second, third, fourth) refl

    module _ (draws : Draws curve products) (st : Statement curve products) (t : Scalar)
        (y : Point × Point) (is_d : of_point st.d_point ≡ times (of_scalar t) (of_point generator))
        (are_targets : targets curve products st.ctxt st.thimbles ≡ ok y) where
      asked : Bool → Point → Point → Scalar
      asked bit u_j v_j =
          let u_c = base_point_mul draws.r in
          let v_c = scale draws.r st.d_point in
          challenge curve products st (pick bit u_c u_j, pick bit u_j u_c)
            (pick bit v_c v_j, pick bit v_j v_c)

      made_verifies :
          (bit : Bool) (u_j v_j : Point) (e_c z_c : Scalar)
          → of_point (pick bit y.0 y.1) ≡ times (of_scalar t) (of_point st.d_point)
          → not_inf (commit_u curve products draws.e_j draws.z_j st.d_point) ≡ some u_j
          → not_inf (commit_v curve products draws.e_j draws.z_j st.d_point (pick bit y.1 y.0))
            ≡ some v_j
          → not_zero (add (of_scalar (asked bit u_j v_j)) (neg (of_scalar draws.e_j))) ≡ some e_c
          → not_zero (add (of_scalar draws.r) (of_scalar (product e_c t))) ≡ some z_c
          → verify_scalars curve products st
              (pick bit e_c draws.e_j)
              (pick bit z_c draws.z_j)
              (pick bit draws.e_j e_c)
              (pick bit draws.z_j z_c)
            ≡ ok true
      unfolding verify_scalars asked
      made_verifies false u_j v_j e_c z_c is_y is_u is_v is_e is_z =
          rw
            (
              are_targets,
              recompute_known draws.r e_c t z_c st.d_point y.0 is_d is_y is_z,
              is_u,
              is_v,
              sum_known (asked false u_j v_j) e_c draws.e_j is_e,
            )
            (ap ok (laws.scalar_eq_refl (asked false u_j v_j)))
      made_verifies true u_j v_j e_c z_c is_y is_u is_v is_e is_z =
          rw
            (
              are_targets,
              recompute_known draws.r e_c t z_c st.d_point y.1 is_d is_y is_z,
              is_u,
              is_v,
              laws.add_comm (of_scalar draws.e_j) (of_scalar e_c),
              sum_known (asked true u_j v_j) e_c draws.e_j is_e,
            )
            (ap ok (laws.scalar_eq_refl (asked true u_j v_j)))

      branch_verifies :
          (bit : Bool) (bytes : Bytes)
          → of_point (pick bit y.0 y.1) ≡ times (of_scalar t) (of_point st.d_point)
          → point_eq st.thimbles.0 st.thimbles.1 ≡ false
          → prove_branch curve products draws bit st t y ≡ ok bytes
          → verify_squaring curve products st bytes ≡ ok true
      unfolding prove_branch asked
      branch_verifies bit bytes is_y apart h =
          let (u_j, is_u, h_1) = bind-ok _ _ bytes h in
          let (v_j, is_v, h_2) = bind-ok _ _ bytes h_1 in
          let (e_c, is_e, h_3) = bind-ok _ _ bytes h_2 in
          let (z_c, is_z, h_4) = bind-ok _ _ bytes h_3 in
          subst (λ b. verify_squaring curve products st b ≡ ok true) (ok-injective _ _ h_4)
            (verify_squaring-proof_bytes st _ _ _ _ apart
              ∙ made_verifies bit u_j v_j e_c z_c is_y (or_fail-eq-some _ _ u_j is_u)
                  (or_fail-eq-some _ _ v_j is_v) (or_fail-eq-some _ _ e_c is_e)
                  (or_fail-eq-some _ _ z_c is_z))

    both_targets :
        (ctxt : Scalar) (thimbles y : Point × Point)
        → targets curve products ctxt thimbles ≡ ok y
        → (target curve products ctxt thimbles.0 ≡ ok y.0)
          × (target curve products ctxt thimbles.1 ≡ ok y.1)
    unfolding targets
    both_targets ctxt thimbles y h =
        let rest = target curve products ctxt thimbles.1 in
        let (y_0, is_0, h_1) =
          bind-ok (target curve products ctxt thimbles.0) (λ p. rest >>= λ q. ok (p, q)) y h in
        let (y_1, is_1, h_2) = bind-ok rest (λ q. ok (y_0, q)) y h_1 in
        let same : (y_0, y_1) ≡ y = ok-injective _ _ h_2 in
        (is_0 ∙ ap (λ q. ok q.0) same, is_1 ∙ ap (λ q. ok q.1) same)

    chosen_target :
        (ctxt : Scalar) (thimbles y : Point × Point) (bit : Bool)
        → targets curve products ctxt thimbles ≡ ok y
        → target curve products ctxt (pick bit thimbles.0 thimbles.1) ≡ ok (pick bit y.0 y.1)
    chosen_target ctxt thimbles y false h = (both_targets ctxt thimbles y h).0
    chosen_target ctxt thimbles y true h = (both_targets ctxt thimbles y h).1

    -- Over any curve, under the squaring scheme: if the ciphertext is `a_c + t²`, `D = t·G` and the
    -- chosen thimble is `a_c·G`, the proof that the dealer sends is accepted, whichever thimble he
    -- chose.
    pub verify-prove :
        (draws : Draws curve products) (st : Statement curve products) (w : Witness curve products)
        (bytes : Bytes)
        → of_scalar st.ctxt ≡ add (of_scalar w.a_c) (of_scalar (square curve products w.t))
        → of_point st.d_point ≡ times (of_scalar w.t) (of_point generator)
        → of_point (pick (not (w.choice == 0)) st.thimbles.0 st.thimbles.1)
          ≡ times (of_scalar w.a_c) (of_point generator)
        → prove curve products squaring draws st w ≡ ok bytes
        → verify curve products squaring st bytes ≡ ok true
    unfolding prove verify prove_squaring
    verify-prove draws st w bytes is_ctxt is_d is_a h =
        let bit = not (w.choice == 0) in
        let (in_range, h_1) = not_failed (leb 2 w.choice) _ _ bytes h in
        let (apart, h_2) = not_failed (point_eq st.thimbles.0 st.thimbles.1) _ _ bytes h_1 in
        let (y, are, h_3) = bind-ok _ _ bytes h_2 in
        branch_verifies draws st w.t y is_d are bit bytes
          (target_known st.ctxt w.t w.a_c st.d_point (pick bit st.thimbles.0 st.thimbles.1)
            (pick bit y.0 y.1) is_d is_a is_ctxt (chosen_target st.ctxt st.thimbles y bit are))
          apart h_3
