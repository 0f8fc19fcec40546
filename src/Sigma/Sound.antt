-- ===== src/Sigma/Sound.antt =====
-- What an accepted proof of src/sigma.rs means: two answers to one commitment give the logarithm.
use babilonia.Prelude.{◌≡◌, ◌∙◌, sym, ap}
use babilonia.Sigma.Curve.{Curve, CurveLaws, commitment}

module _ (curve : Curve) (laws : CurveLaws curve) where
  open curve use {
    Scalar, MaybeScalar, Point, MaybePoint, of_scalar, of_point, not_inf, add, neg, mul, add_points,
    neg_point, infinity, times, generator,
  }
  open laws use {
    points_assoc, points_comm, points-neg, points-infinity, times-add, times-mul, times-zero,
    add-neg,
  }

  plus_minus : (a b : MaybePoint) → add_points (add_points a b) (neg_point b) ≡ a
  plus_minus a b =
      points_assoc a b (neg_point b) ∙ ap (add_points a) (points-neg b) ∙ points-infinity a

  minus_plus : (a b : MaybePoint) → add_points (add_points a (neg_point b)) b ≡ a
  minus_plus a b =
      points_assoc a (neg_point b) b
      ∙ ap (add_points a) (points_comm (neg_point b) b ∙ points-neg b)
      ∙ points-infinity a

  -- The product by a negated scalar is the negated product.
  times-neg : (a : MaybeScalar) (p : MaybePoint) → times (neg a) p ≡ neg_point (times a p)
  times-neg a p =
      sym (plus_minus (times (neg a) p) (times a p))
      ∙ ap (λ q. add_points q (neg_point (times a p)))
          (points_comm (times (neg a) p) (times a p)
            ∙ sym (times-add a (neg a) p)
            ∙ ap (λ s. times s p) (add-neg a)
            ∙ times-zero p)
      ∙ points_comm infinity (neg_point (times a p))
      ∙ points-infinity (neg_point (times a p))

  -- From `a − x = b − y` follows `a − b = x − y`.
  cross :
      (a b x y : MaybePoint)
      → add_points a (neg_point x) ≡ add_points b (neg_point y)
      → add_points a (neg_point b) ≡ add_points x (neg_point y)
  cross a b x y h =
      ap (λ q. add_points q (neg_point b))
        (sym (minus_plus a x)
          ∙ ap (λ q. add_points q x) (h ∙ points_comm b (neg_point y))
          ∙ points_comm (add_points (neg_point y) b) x
          ∙ sym (points_assoc x (neg_point y) b))
      ∙ plus_minus (add_points x (neg_point y)) b

  difference :
      (a b : MaybeScalar) (p : MaybePoint)
      → add_points (times a p) (neg_point (times b p)) ≡ times (add a (neg b)) p
  difference a b p = ap (add_points (times a p)) (sym (times-neg b p)) ∙ sym (times-add a (neg b) p)

  -- Over any curve and for any base: two answers `s` and `s'` to challenges `e` and `e'` with one
  -- recomputed commitment give the logarithm of the point, where `u` is the inverse of `e − e'`.
  pub commitment-extracts :
      (s e s' e' : Scalar) (base : MaybePoint) (p : Point) (u : MaybeScalar)
      → commitment curve s e base p ≡ commitment curve s' e' base p
      → times (mul u (add (of_scalar e) (neg (of_scalar e')))) (of_point p) ≡ of_point p
      → times (mul u (add (of_scalar s) (neg (of_scalar s')))) base ≡ of_point p
  unfolding commitment
  commitment-extracts s e s' e' base p u same inverse =
      let negated : add_points (times (of_scalar s) base)
            (neg_point (times (of_scalar e) (of_point p)))
          ≡ add_points (times (of_scalar s') base) (neg_point (times (of_scalar e') (of_point p))) =
        ap (add_points (times (of_scalar s) base)) (sym (times-neg (of_scalar e) (of_point p)))
        ∙ same
        ∙ ap (add_points (times (of_scalar s') base)) (times-neg (of_scalar e') (of_point p)) in
      times-mul u (add (of_scalar s) (neg (of_scalar s'))) base
      ∙ ap (times u) (
          sym (difference (of_scalar s) (of_scalar s') base)
          ∙ cross (times (of_scalar s) base) (times (of_scalar s') base)
              (times (of_scalar e) (of_point p)) (times (of_scalar e') (of_point p)) negated
          ∙ difference (of_scalar e) (of_scalar e') (of_point p))
      ∙ sym (times-mul u (add (of_scalar e) (neg (of_scalar e'))) (of_point p))
      ∙ inverse
