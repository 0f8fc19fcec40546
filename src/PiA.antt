-- ===== src/PiA.antt =====
-- src/pi_a.rs: the proof that the encrypted outcome is well formed, under either scheme.
pub mod Complete
pub mod Sample
use babilonia.Prelude.{
  ◌≡◌, Error, ok_or-eq-some, ℕ, Bool, true, false, not, ◌==◌, leb, if◌then◌else◌, Option, none,
  some, [], ◌∷◌, ◌++◌, length, take, drop, Result, ok, err, protocol, ok_or, ◌>>=◌, ◌>>◌, fail_if,
}
use babilonia.Bytes.{Bytes, to_le_bytes}
use babilonia.Text.{codes}
use babilonia.Bet.Library.{Scheme, squaring, poseidon}
use babilonia.Bet.State.{pick}
use babilonia.Sigma.Curve.{Curve, put_points}

-- `ok_or` of a sum, and `map_err` of one.
unfoldable pub or_fail : {A : Type 0} → Option A → Error → Result A
or_fail o e = ok_or o e

pub or_fail-eq-some :
    {A : Type 0} (o : Option A) (e : Error) (a : A) → or_fail o e ≡ ok a → o ≡ some a
unfolding or_fail
or_fail-eq-some o e a h = ok_or-eq-some o e a h

unfoldable pub dom : Bytes
dom = codes "babilonia/pi_a/squaring/or-dleq/v1"

-- What src/pi_a.rs takes from `secp` besides: the products of two scalars and of a scalar and a
-- point, which are neither zero nor at infinity, and the equality of points.
pub record Products (curve : Curve) : Type 0 where
  pub product : curve.Scalar → curve.Scalar → curve.Scalar
  pub scale : curve.Scalar → curve.Point → curve.Point
  pub point_eq : curve.Point → curve.Point → Bool

module _ (curve : Curve) (products : Products curve) where
  open curve use {
    Scalar, Point, MaybePoint, of_scalar, not_zero, of_point, not_inf, add, neg, mul, add_points,
    neg_point, base_point_mul, scalar_eq, scalar,
  }
  open products use {product, scale, point_eq}

  pub record Statement : Type 0 where
    pub ctxt : Scalar
    pub d_point : Point
    pub thimbles : Point × Point
    pub ctx : Bytes

  pub record Witness : Type 0 where
    pub t : Scalar
    pub choice : ℕ
    pub a_c : Scalar

  -- `squaring::pad`.
  unfoldable pub square : Scalar → Scalar
  square t = product t t

  abbrev pub target : Scalar → Point → Result Point
  target ctxt a =
      ok_or (not_inf (add_points (of_point (base_point_mul ctxt)) (neg_point (of_point a))))
        (protocol "pi_a sq: Y_i at infinity")

  -- `targets`.
  unfoldable pub targets : Scalar → Point × Point → Result (Point × Point)
  targets ctxt thimbles = do
    y_0 ← target ctxt thimbles.0
    y_1 ← target ctxt thimbles.1
    ok (y_0, y_1)

  unfoldable pub challenge : Statement → Point × Point → Point × Point → Scalar
  unfolding put_points
  challenge st u v = curve.reduce_from (
      curve.sha256 (
        dom
        ++ (to_le_bytes 4 (length st.ctx)
            ++ (st.ctx
                ++ (scalar.serialize st.ctxt
                    ++ put_points curve (
                        st.d_point ∷ st.thimbles.0 ∷ st.thimbles.1 ∷ u.0 ∷ u.1 ∷ v.0 ∷ v.1
                        ∷ []))))))

  -- `z·G − e·D` and `z·D − e·Y`.
  abbrev pub commit_u : Scalar → Scalar → Point → MaybePoint
  commit_u e z d = add_points (of_point (base_point_mul z)) (neg_point (of_point (scale e d)))

  abbrev pub commit_v : Scalar → Scalar → Point → Point → MaybePoint
  commit_v e z d y = add_points (of_point (scale z d)) (neg_point (of_point (scale e y)))

  -- The randomness of a prover.
  pub record Draws : Type 0 where
    pub e_j : Scalar
    pub z_j : Scalar
    pub r : Scalar

  abbrev pub proof_bytes : Scalar → Scalar → Scalar → Scalar → Bytes
  proof_bytes e_0 z_0 e_1 z_1 =
      scalar.serialize e_0
      ++ (scalar.serialize z_0 ++ (scalar.serialize e_1 ++ scalar.serialize z_1))

  -- `squaring::prove` from its targets on, for the thimble of this bit.
  unfoldable pub prove_branch : Draws → Bool → Statement → Scalar → Point × Point → Result Bytes
  prove_branch draws bit st t y = do
    u_j ← or_fail (not_inf (commit_u draws.e_j draws.z_j st.d_point)) (protocol "pi_a sq: U_j inf")
    v_j ←
        or_fail (not_inf (commit_v draws.e_j draws.z_j st.d_point (pick bit y.1 y.0)))
          (protocol "pi_a sq: V_j inf")
    let u_c = base_point_mul draws.r
    let v_c = scale draws.r st.d_point
    let e = challenge st (pick bit u_c u_j, pick bit u_j u_c) (pick bit v_c v_j, pick bit v_j v_c)
    e_c ←
        or_fail (not_zero (add (of_scalar e) (neg (of_scalar draws.e_j))))
          (protocol "pi_a sq: e_c zero")
    z_c ←
        or_fail (not_zero (add (of_scalar draws.r) (of_scalar (product e_c t))))
          (protocol "pi_a sq: z_c zero")
    ok (
        proof_bytes (pick bit e_c draws.e_j) (pick bit z_c draws.z_j) (pick bit draws.e_j e_c)
          (pick bit draws.z_j z_c))

  -- `squaring::prove`.
  unfoldable pub prove_squaring : Draws → Statement → Witness → Result Bytes
  prove_squaring draws st w = do
    fail_if (leb 2 w.choice) (protocol "pi_a sq: choice out of range")
    fail_if (point_eq st.thimbles.0 st.thimbles.1) (protocol "pi_a sq: A_1 == A_2")
    y ← targets st.ctxt st.thimbles
    prove_branch draws (not (w.choice == 0)) st w.t y

  abbrev pub both_points : Option Point → Option Point → Option (Point × Point)
  both_points none v = none
  both_points (some u) none = none
  both_points (some u) (some v) = some (u, v)

  abbrev pub recompute : Point → Scalar → Scalar → Point → Option (Point × Point)
  recompute d e z y = both_points (not_inf (commit_u e z d)) (not_inf (commit_v e z d y))

  -- `(e0 + e1).into_option() == Some(e)`.
  abbrev pub sums_to : Option Scalar → Scalar → Bool
  sums_to none e = false
  sums_to (some s) e = scalar_eq s e

  abbrev pub agrees :
      Statement → Scalar → Scalar → Option (Point × Point) → Option (Point × Point) → Bool
  agrees st e_0 e_1 none second = false
  agrees st e_0 e_1 (some first) none = false
  agrees st e_0 e_1 (some (u_0, v_0)) (some (u_1, v_1)) =
      sums_to (not_zero (add (of_scalar e_0) (of_scalar e_1))) (challenge st (u_0, u_1) (v_0, v_1))

  unfoldable pub verify_scalars : Statement → Scalar → Scalar → Scalar → Scalar → Result Bool
  verify_scalars st e_0 z_0 e_1 z_1 = do
    y ← targets st.ctxt st.thimbles
    ok (agrees st e_0 e_1 (recompute st.d_point e_0 z_0 y.0) (recompute st.d_point e_1 z_1 y.1))

  abbrev pub verify_read :
      Statement → Option Scalar → Option Scalar → Option Scalar → Option Scalar → Result Bool
  verify_read st none z_0 e_1 z_1 = ok false
  verify_read st (some e_0) none e_1 z_1 = ok false
  verify_read st (some e_0) (some z_0) none z_1 = ok false
  verify_read st (some e_0) (some z_0) (some e_1) none = ok false
  verify_read st (some e_0) (some z_0) (some e_1) (some z_1) = verify_scalars st e_0 z_0 e_1 z_1

  abbrev pub read_at : ℕ → Bytes → Option Scalar
  read_at from bytes = scalar.from_slice (take 32 (drop from bytes))

  -- `squaring::verify`.
  unfoldable pub verify_squaring : Statement → Bytes → Result Bool
  unfolding verify_scalars
  verify_squaring st bytes =
      if not (length bytes == 128)
      then ok false
      else if point_eq st.thimbles.0 st.thimbles.1
      then ok false
      else verify_read st (read_at 0 bytes) (read_at 32 bytes) (read_at 64 bytes) (read_at 96 bytes)

  abbrev poseidon_disabled : {A : Type 0} → Result A
  poseidon_disabled = err (
      protocol
        "pi_a::Scheme::Poseidon is disabled pending a soundness fix (unbound Σ/Bulletproofs commitments); use Scheme::Squaring")

  -- `prove` and `verify`, under either scheme.
  unfoldable pub prove : Scheme → Draws → Statement → Witness → Result Bytes
  prove squaring draws st w = prove_squaring draws st w
  prove poseidon draws st w = poseidon_disabled

  unfoldable pub verify : Scheme → Statement → Bytes → Result Bool
  verify squaring st proof = verify_squaring st proof
  verify poseidon st proof = poseidon_disabled
