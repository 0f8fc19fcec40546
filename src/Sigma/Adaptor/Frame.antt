-- ===== src/Sigma/Adaptor/Frame.antt =====
-- The bytes of an adaptor proof.
use babilonia.Prelude.{
  ◌*◌, ◌/◌, ◌%◌, ◌<◌, ◌≡◌, ◌∙◌, refl, sym, ap, true, false, ◌==◌, ltb, List, [], ◌∷◌, ◌++◌,
  append_assoc, append-nil, length, drop, take-front, drop-front, length-append, arith, ok,
}
use babilonia.Bytes.{Bytes}
use babilonia.Sigma.Curve.{Curve}
use babilonia.Sigma.Dlog.{
  get_scalar, dlog_to_bytes, dlog_to_bytes-length, dlog_from_bytes-dlog_to_bytes,
}
use babilonia.Sigma.OrDlog.{OrProof}
use babilonia.Sigma.Adaptor.{
  AdaptorProof, put_scalars, get_scalars, or_to_bytes, or_from_bytes, adaptor_to_bytes,
  adaptor_from_bytes,
}

module _ (curve : Curve) where
  open curve use {Scalar, Point, scalar, point}

  put_scalars-length : (ss : List Scalar) → length (put_scalars curve ss) ≡ 32 * length ss
  unfolding put_scalars
  put_scalars-length [] = omega arith
  put_scalars-length (s ∷ ss) = omega (
    arith,
    length-append (scalar.serialize s) (put_scalars curve ss),
    scalar.length-serialize s,
    put_scalars-length ss,
  )

  get_scalars-put_scalars :
      (ss : List Scalar) (rest : Bytes)
      → get_scalars curve (length ss) (put_scalars curve ss ++ rest) ≡ ok ss
  unfolding get_scalars put_scalars get_scalar
  get_scalars-put_scalars [] rest = refl
  get_scalars-put_scalars (s ∷ ss) rest =
      let front : length (scalar.serialize s) ≡ 32 = scalar.length-serialize s in
      rw
        (
          append_assoc (scalar.serialize s) (put_scalars curve ss) rest,
          take-front 32 (scalar.serialize s) (put_scalars curve ss ++ rest) front,
          drop-front 32 (scalar.serialize s) (put_scalars curve ss ++ rest) front,
          scalar.from_slice-serialize s,
          get_scalars-put_scalars ss rest,
        )
        refl

  read_all : (ss : List Scalar) → get_scalars curve (length ss) (put_scalars curve ss) ≡ ok ss
  read_all ss =
      ap (get_scalars curve (length ss)) (sym (append-nil (put_scalars curve ss)))
      ∙ get_scalars-put_scalars ss []

  -- An or-proof with as many answers as challenges, and at least one, is read back from its bytes.
  pub or_from_bytes-or_to_bytes :
      (proof : OrProof curve)
      → length proof.z ≡ length proof.e
      → 0 < length proof.e
      → or_from_bytes curve (or_to_bytes curve proof) ≡ ok proof
  unfolding or_from_bytes or_to_bytes
  or_from_bytes-or_to_bytes proof same some_branch =
      let e = put_scalars curve proof.e in
      let z = put_scalars curve proof.z in
      let e_long : length e ≡ 32 * length proof.e = put_scalars-length proof.e in
      let long : length (e ++ z) ≡ 64 * length proof.e =
        omega (arith, length-append e z, e_long, put_scalars-length proof.z, same) in
      let fits : ((length (e ++ z) == 0) ≡ false) × ((length (e ++ z) % 64 == 0) ≡ true) =
        (ground (arith, long, some_branch), ground (arith, long)) in
      let count : length (e ++ z) / 64 ≡ length proof.e = omega (arith, long) in
      rw
        (
          fits.0,
          fits.1,
          count,
          get_scalars-put_scalars proof.e z,
          drop-front (32 * length proof.e) e z e_long,
        )
        (rw (sym same, read_all proof.z) refl)

  -- A well-formed adaptor proof is read back from its bytes.
  pub adaptor_from_bytes-adaptor_to_bytes :
      (proof : AdaptorProof curve)
      → length proof.adaptor_or.z ≡ length proof.adaptor_or.e
      → 0 < length proof.adaptor_or.e
      → adaptor_from_bytes curve (adaptor_to_bytes curve proof) ≡ ok proof
  unfolding adaptor_from_bytes adaptor_to_bytes
  adaptor_from_bytes-adaptor_to_bytes proof same some_branch =
      let c = point.serialize proof.c_a in
      let d = dlog_to_bytes curve proof.d_pok in
      let o = or_to_bytes curve proof.adaptor_or in
      let c_long : length c ≡ 33 = point.length-serialize proof.c_a in
      let d_long : length d ≡ 64 = dlog_to_bytes-length curve proof.d_pok in
      let long : (ltb (length (c ++ (d ++ o))) 97) ≡ false =
        ground (arith, length-append c (d ++ o), length-append d o, c_long, d_long) in
      let behind : drop 97 (c ++ (d ++ o)) ≡ o =
        ap (drop 97) (sym (append_assoc c d o))
        ∙ drop-front 97 (c ++ d) o (omega (arith, length-append c d, c_long, d_long)) in
      rw
        (
          long,
          take-front 33 c (d ++ o) c_long,
          point.from_slice-serialize proof.c_a,
          drop-front 33 c (d ++ o) c_long,
          take-front 64 d o d_long,
          dlog_from_bytes-dlog_to_bytes curve proof.d_pok,
          behind,
          or_from_bytes-or_to_bytes proof.adaptor_or same some_branch,
        )
        refl
