-- ===== src/Sigma/Curve.antt =====
-- What src/sigma.rs takes from the library `secp`: scalars that are not zero and points that are not
-- at infinity, the sums and products of them that may be, the two byte codecs, and SHA-256.
use babilonia.Prelude.{
  ◌≡◌, ◌∙◌, sym, ap, Bool, true, Option, some, List, [], ◌∷◌, ◌++◌, length, Result, ok, ok_or,
  ok_or-eq-some, secp,
}
use babilonia.Bytes.{Bytes, to_le_bytes}
use babilonia.Messages.Reader.{Fixed}

-- `unwrap()` of a sum that is zero or at infinity panics.
unfoldable pub unwrap : {A : Type 0} → Option A → Result A
unwrap o = ok_or o (secp "unwrap of the neutral element")

pub unwrap-eq-some : {A : Type 0} (o : Option A) (a : A) → unwrap o ≡ ok a → o ≡ some a
unfolding unwrap
unwrap-eq-some o a h = ok_or-eq-some o _ a h

pub record Curve : Type 1 where
  pub Scalar : Type 0
  pub MaybeScalar : Type 0
  pub Point : Type 0
  pub MaybePoint : Type 0
  pub scalar : Fixed 32 Scalar
  pub point : Fixed 33 Point
  -- `MaybeScalar::from` and `into_option`, `MaybePoint::from` and `not_inf`.
  pub of_scalar : Scalar → MaybeScalar
  pub not_zero : MaybeScalar → Option Scalar
  pub of_point : Point → MaybePoint
  pub not_inf : MaybePoint → Option Point
  pub add : MaybeScalar → MaybeScalar → MaybeScalar
  pub neg : MaybeScalar → MaybeScalar
  pub mul : MaybeScalar → MaybeScalar → MaybeScalar
  pub zero : MaybeScalar
  pub add_points : MaybePoint → MaybePoint → MaybePoint
  pub neg_point : MaybePoint → MaybePoint
  pub infinity : MaybePoint
  -- The product of a scalar and a point.
  pub times : MaybeScalar → MaybePoint → MaybePoint
  pub generator : Point
  pub base_point_mul : Scalar → Point
  pub scalar_eq : Scalar → Scalar → Bool
  pub maybe_eq : MaybeScalar → MaybeScalar → Bool
  pub sha256 : Bytes → Bytes
  -- `Scalar::reduce_from`.
  pub reduce_from : Bytes → Scalar

module _ (curve : Curve) where
  open curve use {
    Scalar, MaybeScalar, Point, MaybePoint, of_scalar, not_zero, of_point, not_inf, add, neg, mul,
    zero, add_points, neg_point, infinity, times, generator, base_point_mul, scalar_eq, maybe_eq,
  }

  -- The scalars are a commutative group under addition that acts on the group of points.
  pub record CurveLaws : Type 0 where
    pub add_assoc : (a b c : MaybeScalar) → add (add a b) c ≡ add a (add b c)
    pub add_comm : (a b : MaybeScalar) → add a b ≡ add b a
    pub add-zero : (a : MaybeScalar) → add a zero ≡ a
    pub add-neg : (a : MaybeScalar) → add a (neg a) ≡ zero
    pub points_assoc :
        (p q r : MaybePoint) → add_points (add_points p q) r ≡ add_points p (add_points q r)
    pub points_comm : (p q : MaybePoint) → add_points p q ≡ add_points q p
    pub points-infinity : (p : MaybePoint) → add_points p infinity ≡ p
    pub points-neg : (p : MaybePoint) → add_points p (neg_point p) ≡ infinity
    pub times-add :
        (a b : MaybeScalar) (p : MaybePoint)
        → times (add a b) p ≡ add_points (times a p) (times b p)
    pub times-mul : (a b : MaybeScalar) (p : MaybePoint) → times (mul a b) p ≡ times a (times b p)
    pub times-zero : (p : MaybePoint) → times zero p ≡ infinity
    pub base_point_mul_lem :
        (s : Scalar) → of_point (base_point_mul s) ≡ times (of_scalar s) (of_point generator)
    pub of_scalar-not_zero : (a : MaybeScalar) (s : Scalar) → not_zero a ≡ some s → of_scalar s ≡ a
    pub not_inf-of_point : (p : Point) → not_inf (of_point p) ≡ some p
    pub of_point-not_inf : (q : MaybePoint) (p : Point) → not_inf q ≡ some p → of_point p ≡ q
    pub scalar_eq_refl : (s : Scalar) → scalar_eq s s ≡ true
    pub maybe_eq_refl : (a : MaybeScalar) → maybe_eq a a ≡ true

  -- `challenge`: the domain, the context with its length, and the points.
  unfoldable pub put_points : List Point → Bytes
  put_points [] = []
  put_points (p ∷ ps) = curve.point.serialize p ++ put_points ps

  unfoldable pub challenge : Bytes → Bytes → List Point → Scalar
  unfolding put_points
  challenge domain ctx points =
      curve.reduce_from
        (curve.sha256 (domain ++ (to_le_bytes 4 (length ctx) ++ (ctx ++ put_points points))))

  -- `R' = s·B − e·P`, which a verifier recomputes.
  unfoldable pub commitment : Scalar → Scalar → MaybePoint → Point → MaybePoint
  commitment s e base p =
      add_points (times (of_scalar s) base) (times (neg (of_scalar e)) (of_point p))

  module _ (laws : CurveLaws) where
    open laws use {
      add_assoc, add_comm, add-neg, add-zero, points_assoc, points-infinity, times-add, times-mul,
      times-zero,
    }

    -- `(k + e·x)·B − e·(x·B) = k·B`.
    pub cancel :
        (k e x : MaybeScalar) (b : MaybePoint)
        → add_points (times (add k (mul e x)) b) (times (neg e) (times x b)) ≡ times k b
    cancel k e x b =
        ap (λ q. add_points q (times (neg e) (times x b))) (times-add k (mul e x) b)
        ∙ points_assoc (times k b) (times (mul e x) b) (times (neg e) (times x b))
        ∙ ap (λ q. add_points (times k b) (add_points q (times (neg e) (times x b))))
            (times-mul e x b)
        ∙ ap (add_points (times k b)) (sym (times-add e (neg e) (times x b)))
        ∙ ap (λ a. add_points (times k b) (times a (times x b))) (add-neg e)
        ∙ ap (add_points (times k b)) (times-zero (times x b))
        ∙ points-infinity (times k b)

    -- `(e − o) + o = e`.
    pub sub_add : (e o : MaybeScalar) → add (add e (neg o)) o ≡ e
    sub_add e o = add_assoc e (neg o) o ∙ ap (add e) (add_comm (neg o) o ∙ add-neg o) ∙ add-zero e

    -- An honest answer gives back the commitment.
    pub commitment_of_answer :
        (k x e s : Scalar) (base : MaybePoint) (p : Point)
        → of_point p ≡ times (of_scalar x) base
        → not_zero (add (of_scalar k) (mul (of_scalar e) (of_scalar x))) ≡ some s
        → commitment s e base p ≡ times (of_scalar k) base
    unfolding commitment
    commitment_of_answer k x e s base p is_p is_s =
        ap (λ q. add_points (times (of_scalar s) base) (times (neg (of_scalar e)) q)) is_p
        ∙ ap (λ a. add_points (times a base) (times (neg (of_scalar e)) (times (of_scalar x) base)))
            (laws.of_scalar-not_zero _ s is_s)
        ∙ cancel (of_scalar k) (of_scalar e) (of_scalar x) base

    -- What a verifier recomputes from an honest answer is the prover's commitment `k·G`.
    pub recovered :
        (k x e s : Scalar) (p : Point)
        → of_point p ≡ times (of_scalar x) (of_point generator)
        → not_zero (add (of_scalar k) (mul (of_scalar e) (of_scalar x))) ≡ some s
        → not_inf (commitment s e (of_point generator) p) ≡ some (base_point_mul k)
    recovered k x e s p is_p is_s =
        ap not_inf (
          commitment_of_answer k x e s (of_point generator) p is_p is_s
          ∙ sym (laws.base_point_mul_lem k))
        ∙ laws.not_inf-of_point (base_point_mul k)
