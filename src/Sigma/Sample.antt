-- ===== src/Sigma/Sample.antt =====
-- The curve of three elements: the points are the scalars, and none is the neutral element.
use babilonia.Prelude.{◌≡◌, refl, sym, Bool, true, false, not, ◌&&◌, Option, none, some, arith}
use babilonia.Messages.Sample.{two_values, zeros}
use babilonia.Sigma.Curve.{Curve, CurveLaws}

abbrev Three : Type 0
Three = Option Bool

-- `some false` is 1 and `some true` is 2.
abbrev add : Three → Three → Three
add none b = b
add (some a) none = some a
add (some false) (some false) = some true
add (some true) (some true) = some false
add (some false) (some true) = none
add (some true) (some false) = none

abbrev neg : Three → Three
neg none = none
neg (some a) = some (not a)

abbrev mul : Three → Three → Three
mul none b = none
mul (some false) b = b
mul (some true) b = neg b

abbrev same : Bool → Bool → Bool
same true b = b
same false b = not b

abbrev equal : Three → Three → Bool
equal none none = true
equal none (some b) = false
equal (some a) none = false
equal (some a) (some b) = same a b

equal_lem : (a b : Three) → equal a b ≡ true → a ≡ b
equal_lem none none h = refl
equal_lem none (some b) h = ground arith
equal_lem (some a) none h = ground arith
equal_lem (some true) (some true) h = refl
equal_lem (some false) (some false) h = refl
equal_lem (some true) (some false) h = ground arith
equal_lem (some false) (some true) h = ground arith

equal_refl : (a : Three) → equal a a ≡ true
equal_refl none = refl
equal_refl (some true) = refl
equal_refl (some false) = refl

abbrev every : (Three → Bool) → Bool
every f = f none && f (some false) && f (some true)

every_lem : (f : Three → Bool) → every f ≡ true → (a : Three) → f a ≡ true
every_lem f h none = ground arith
every_lem f h (some false) = ground arith
every_lem f h (some true) = ground arith

two_of :
    (l r : Three → Three → Three)
    → every (λ a. every (λ b. equal (l a b) (r a b))) ≡ true
    → (a b : Three) → l a b ≡ r a b
two_of l r h a b = equal_lem _ _ (
    every_lem (λ y. equal (l a y) (r a y)) (every_lem (λ x. every (λ y. equal (l x y) (r x y))) h a)
      b)

three_of :
    (l r : Three → Three → Three → Three)
    → every (λ a. every (λ b. every (λ c. equal (l a b c) (r a b c)))) ≡ true
    → (a b c : Three) → l a b c ≡ r a b c
three_of l r h a b c = equal_lem _ _ (
    every_lem (λ z. equal (l a b z) (r a b z))
      (every_lem (λ y. every (λ z. equal (l a y z) (r a y z)))
        (every_lem (λ x. every (λ y. every (λ z. equal (l x y z) (r x y z)))) h a) b)
      c)

abbrev pub sample_curve : Curve
sample_curve = record {
  Scalar = Bool;
  MaybeScalar = Three;
  Point = Bool;
  MaybePoint = Three;
  scalar = two_values 31;
  point = two_values 32;
  of_scalar = λ s. some s;
  not_zero = λ a. a;
  of_point = λ p. some p;
  not_inf = λ q. q;
  add = add;
  neg = neg;
  mul = mul;
  zero = none;
  add_points = add;
  neg_point = neg;
  infinity = none;
  times = mul;
  generator = false;
  base_point_mul = λ s. s;
  scalar_eq = same;
  maybe_eq = equal;
  sha256 = λ b. zeros 32;
  reduce_from = λ b. false;
}

pub sample_laws : CurveLaws sample_curve
sample_laws = record {
  add_assoc = three_of (λ a b c. add (add a b) c) (λ a b c. add a (add b c)) refl;
  add_comm = two_of (λ a b. add a b) (λ a b. add b a) refl;
  add-zero = λ a. two_of (λ x y. add x none) (λ x y. x) refl a none;
  add-neg = λ a. two_of (λ x y. add x (neg x)) (λ x y. none) refl a none;
  points_assoc = three_of (λ a b c. add (add a b) c) (λ a b c. add a (add b c)) refl;
  points_comm = two_of (λ a b. add a b) (λ a b. add b a) refl;
  points-infinity = λ a. two_of (λ x y. add x none) (λ x y. x) refl a none;
  points-neg = λ a. two_of (λ x y. add x (neg x)) (λ x y. none) refl a none;
  times-add = three_of (λ a b p. mul (add a b) p) (λ a b p. add (mul a p) (mul b p)) refl;
  times-mul = three_of (λ a b p. mul (mul a b) p) (λ a b p. mul a (mul b p)) refl;
  times-zero = λ p. refl;
  base_point_mul_lem = λ s. two_of (λ x y. x) (λ x y. mul x (some false)) refl (some s) none;
  of_scalar-not_zero = λ a s h. sym h;
  not_inf-of_point = λ p. refl;
  of_point-not_inf = λ q p h. sym h;
  scalar_eq_refl = λ s. equal_refl (some s);
  maybe_eq_refl = equal_refl;
}
