-- ===== src/Sigma/Adaptor.antt =====
-- The sigma part of `π_a` in src/sigma.rs: the Pedersen commitment to the winning thimble's scalar, and
-- the proof that it opens to one of the thimbles.
pub mod Complete
pub mod Nums
pub mod Frame
use babilonia.Prelude.{
  ℕ, zero, suc, Bool, true, false, ◌&&◌, ltb, Option, none, some, List, [], ◌∷◌, ◌++◌, length, take,
  drop, Result, ok, err, protocol, decode, ok_or, fail_if, ◌>>=◌, ◌>>◌, not, ◌==◌, ◌||◌, ◌%◌, ◌/◌,
  ◌*◌,
}
use babilonia.Bytes.{Bytes, to_le_bytes}
use babilonia.Text.{codes}
use babilonia.Sigma.Curve.{Curve, challenge, commitment, unwrap}
use babilonia.Sigma.Dlog.{
  DlogProof, dlog_to_bytes, dlog_from_bytes, get_scalar, prove_dlog, verify_dlog,
}
use babilonia.Sigma.OrDlog.{OrProof, prove_or_dlog, verify_or_dlog}
use babilonia.Sigma.Statements.{minus}

unfoldable pub dom_nums_h : Bytes
dom_nums_h = codes "babilonia/sigma/pedersen-H/v1"

unfoldable pub dom_pad : Bytes
dom_pad = codes "babilonia/sigma/pad/v1"

module _ (curve : Curve) where
  open curve use {
    Scalar, Point, of_scalar, of_point, not_inf, add_points, times, base_point_mul, scalar, point,
    sha256, reduce_from,
  }

  -- The point that a counter gives in `nums_h`, if its hash is a coordinate.
  unfoldable pub candidate : ℕ → Option Point
  candidate ctr = point.from_slice (2 ∷ sha256 (dom_nums_h ++ to_le_bytes 4 ctr))

  unfoldable pub first_point : ℕ → ℕ → Option Point
  first_point zero ctr = none
  first_point (suc left) ctr = elim (candidate ctr) [
    | some p ↦ some p
    | none ↦ first_point left (suc ctr)
  ]

  -- `nums_h`, over the counters of `u32`.
  unfoldable pub nums_h : Option Point
  unfolding first_point candidate
  nums_h = first_point 0x1_0000_0000 0

  -- `h_p`, the pad.
  unfoldable pub h_p : Scalar → Scalar
  h_p d = reduce_from (sha256 (dom_pad ++ scalar.serialize d))

  -- `OrProof::to_bytes` and `from_bytes`.
  unfoldable pub put_scalars : List Scalar → Bytes
  put_scalars [] = []
  put_scalars (s ∷ ss) = scalar.serialize s ++ put_scalars ss

  unfoldable pub or_to_bytes : OrProof curve → Bytes
  unfolding put_scalars
  or_to_bytes proof = put_scalars proof.e ++ put_scalars proof.z

  unfoldable pub get_scalars : ℕ → Bytes → Result (List Scalar)
  get_scalars zero b = ok []
  get_scalars (suc m) b = do
    s ← get_scalar curve (take 32 b)
    ss ← get_scalars m (drop 32 b)
    ok (s ∷ ss)

  unfoldable pub or_from_bytes : Bytes → Result (OrProof curve)
  or_from_bytes b = do
    fail_if (length b == 0 || not (length b % 64 == 0)) (decode "or-dlog proof length")
    let m = length b / 64
    e ← get_scalars m b
    z ← get_scalars m (drop (32 * m) b)
    ok (record { e = e; z = z })

  pub record AdaptorProof : Type 0 where
    pub c_a : Point
    pub d_pok : DlogProof curve
    pub adaptor_or : OrProof curve

  -- `AdaptorProof::to_bytes` and `from_bytes`.
  unfoldable pub adaptor_to_bytes : AdaptorProof → Bytes
  adaptor_to_bytes proof =
      point.serialize proof.c_a ++ (dlog_to_bytes curve proof.d_pok ++ or_to_bytes proof.adaptor_or)

  unfoldable pub adaptor_from_bytes : Bytes → Result AdaptorProof
  adaptor_from_bytes b = do
    fail_if (ltb (length b) 97) (decode "adaptor proof too short")
    c_a ← ok_or (point.from_slice (take 33 b)) (decode "adaptor proof C_a")
    d_pok ← dlog_from_bytes curve (take 64 (drop 33 b))
    adaptor_or ← or_from_bytes (drop 97 b)
    ok (record { c_a = c_a; d_pok = d_pok; adaptor_or = adaptor_or })

  -- `or_targets`: `C_a − A_c` for each thimble.
  unfoldable pub or_targets : Point → List Point → Result (List Point)
  or_targets c_a [] = ok []
  or_targets c_a (a ∷ as_rest) = do
    t ← minus curve c_a a (protocol "C_a − A_c is the identity")
    ts ← or_targets c_a as_rest
    ok (t ∷ ts)

  -- The base that `nums_h` found.
  module _ (b_ped : Point) where
    unfoldable pub pedersen_commit : Scalar → Scalar → Result Point
    pedersen_commit value blind =
        ok_or
          (not_inf (
            add_points (of_point (base_point_mul value))
              (times (of_scalar blind) (of_point b_ped))))
          (protocol "pedersen commitment is the identity")

    -- The randomness of the two proofs.
    pub record Nonces : Type 0 where
      pub k : Scalar
      pub draws : ℕ → Scalar × Scalar
      pub rho : Scalar

    unfoldable pub prove_adaptor :
        Nonces → Scalar → Scalar → Scalar → ℕ → List Point → Point → Bytes → Result AdaptorProof
    prove_adaptor nonces a_c blind d guess thimbles d_point ctx = do
      c_a ← pedersen_commit a_c blind
      d_pok ← prove_dlog curve nonces.k d d_point ctx
      targets ← or_targets c_a thimbles
      adaptor_or ← prove_or_dlog curve b_ped nonces.draws nonces.rho targets blind guess ctx
      ok (record { c_a = c_a; d_pok = d_pok; adaptor_or = adaptor_or })

    abbrev pub opens : Result (List Point) → AdaptorProof → Bytes → Bool
    opens (err e) proof ctx = false
    opens (ok targets) proof ctx = verify_or_dlog curve b_ped targets proof.adaptor_or ctx

    unfoldable pub verify_adaptor : AdaptorProof → List Point → Point → Bytes → Bool
    verify_adaptor proof thimbles d_point ctx =
        verify_dlog curve d_point ctx proof.d_pok && opens (or_targets proof.c_a thimbles) proof ctx

    abbrev decoded : Result AdaptorProof → List Point → Point → Bytes → Bool
    decoded (err e) thimbles d_point ctx = false
    decoded (ok proof) thimbles d_point ctx = verify_adaptor proof thimbles d_point ctx

    unfoldable pub verify_adaptor_bytes : Bytes → List Point → Point → Bytes → Bool
    unfolding verify_adaptor
    verify_adaptor_bytes bytes thimbles d_point ctx =
        decoded (adaptor_from_bytes bytes) thimbles d_point ctx
