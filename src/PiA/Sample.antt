-- ===== src/PiA/Sample.antt =====
-- The curve of five elements, whose points are its scalars, and its products.
use babilonia.Prelude.{
  ℕ, suc, ◌+◌, ◌*◌, ◌-◌, ◌%◌, ◌==◌, ◌≡◌, ◌∙◌, refl, sym, ap, Bool, true, ◌&&◌, if◌then◌else◌,
  Option, none, some, [], ◌∷◌, arith,
}
use babilonia.Bytes.{Bytes}
use babilonia.Messages.Reader.{Fixed}
use babilonia.Messages.Sample.{zeros, length-zeros}
use babilonia.Sigma.Curve.{Curve, CurveLaws}
use babilonia.PiA.{Products}
use babilonia.PiA.Complete.{ProductLaws}

pub data Nonzero : Type 0 where
  one two three four : Nonzero

abbrev number : Nonzero → ℕ
number one = 1
number two = 2
number three = 3
number four = 4

abbrev nonzero : ℕ → Nonzero
nonzero n = if n == 1 then one else if n == 2 then two else if n == 3 then three else four

abbrev of_bytes : Bytes → Option Nonzero
of_bytes [] = none
of_bytes (c ∷ cs) = some (nonzero c)

pub nonzero-number : (a : Nonzero) → nonzero (number a) ≡ a
nonzero-number one = refl
nonzero-number two = refl
nonzero-number three = refl
nonzero-number four = refl

abbrev four_values : (n : ℕ) → Fixed (suc n) Nonzero
four_values n = record {
  serialize = λ a. number a ∷ zeros n;
  from_slice = of_bytes;
  length-serialize = λ a. ap suc (length-zeros n);
  from_slice-serialize = λ a. ap some (nonzero-number a);
}

abbrev Five : Type 0
Five = Option Nonzero

abbrev value : Five → ℕ
value none = 0
value (some a) = number a

abbrev reduce : ℕ → Five
reduce n = if n % 5 == 0 then none else some (nonzero (n % 5))

abbrev add : Five → Five → Five
add a b = reduce (value a + value b)

abbrev neg : Five → Five
neg a = reduce (5 - value a)

abbrev mul : Five → Five → Five
mul a b = reduce (value a * value b)

abbrev equal : Five → Five → Bool
equal a b = value a == value b

reduce-value : (a : Five) → reduce (value a) ≡ a
reduce-value none = refl
reduce-value (some one) = refl
reduce-value (some two) = refl
reduce-value (some three) = refl
reduce-value (some four) = refl

same_number : (m n : ℕ) → (m == n) ≡ true → m ≡ n
same_number m n h = ground arith

equal_lem : (a b : Five) → equal a b ≡ true → a ≡ b
equal_lem a b h =
    sym (reduce-value a) ∙ ap reduce (same_number (value a) (value b) h) ∙ reduce-value b

abbrev every : (Five → Bool) → Bool
every f = f none && (f (some one) && (f (some two) && (f (some three) && f (some four))))

every_lem : (f : Five → Bool) → every f ≡ true → (a : Five) → f a ≡ true
every_lem f h none = ground arith
every_lem f h (some one) = ground arith
every_lem f h (some two) = ground arith
every_lem f h (some three) = ground arith
every_lem f h (some four) = ground arith

two_of :
    (l r : Five → Five → Five)
    → every (λ a. every (λ b. equal (l a b) (r a b))) ≡ true
    → (a b : Five) → l a b ≡ r a b
two_of l r h a b = equal_lem _ _ (
    every_lem (λ y. equal (l a y) (r a y)) (every_lem (λ x. every (λ y. equal (l x y) (r x y))) h a)
      b)

three_of :
    (l r : Five → Five → Five → Five)
    → every (λ a. every (λ b. every (λ c. equal (l a b c) (r a b c)))) ≡ true
    → (a b c : Five) → l a b c ≡ r a b c
three_of l r h a b c = equal_lem _ _ (
    every_lem (λ z. equal (l a b z) (r a b z))
      (every_lem (λ y. every (λ z. equal (l a y z) (r a y z)))
        (every_lem (λ x. every (λ y. every (λ z. equal (l x y z) (r x y z)))) h a) b)
      c)

equal_refl : (a : Five) → equal a a ≡ true
equal_refl a = ground arith

abbrev pub five : Curve
five = record {
  Scalar = Nonzero;
  MaybeScalar = Five;
  Point = Nonzero;
  MaybePoint = Five;
  scalar = four_values 31;
  point = four_values 32;
  of_scalar = λ s. some s;
  not_zero = λ a. a;
  of_point = λ p. some p;
  not_inf = λ q. q;
  add = add;
  neg = neg;
  mul = mul;
  zero = none;
  add_points = add;
  neg_point = neg;
  infinity = none;
  times = mul;
  generator = one;
  base_point_mul = λ s. s;
  scalar_eq = λ a b. number a == number b;
  maybe_eq = equal;
  sha256 = λ b. zeros 32;
  reduce_from = λ b. one;
}

pub five_laws : CurveLaws five
five_laws = record {
  add_assoc = three_of (λ a b c. add (add a b) c) (λ a b c. add a (add b c)) refl;
  add_comm = two_of (λ a b. add a b) (λ a b. add b a) refl;
  add-zero = λ a. two_of (λ x y. add x none) (λ x y. x) refl a none;
  add-neg = λ a. two_of (λ x y. add x (neg x)) (λ x y. none) refl a none;
  points_assoc = three_of (λ a b c. add (add a b) c) (λ a b c. add a (add b c)) refl;
  points_comm = two_of (λ a b. add a b) (λ a b. add b a) refl;
  points-infinity = λ a. two_of (λ x y. add x none) (λ x y. x) refl a none;
  points-neg = λ a. two_of (λ x y. add x (neg x)) (λ x y. none) refl a none;
  times-add = three_of (λ a b p. mul (add a b) p) (λ a b p. add (mul a p) (mul b p)) refl;
  times-mul = three_of (λ a b p. mul (mul a b) p) (λ a b p. mul a (mul b p)) refl;
  times-zero = λ p. two_of (λ x y. mul none x) (λ x y. none) refl p none;
  base_point_mul_lem = λ s. two_of (λ x y. x) (λ x y. mul x (some one)) refl (some s) none;
  of_scalar-not_zero = λ a s h. sym h;
  not_inf-of_point = λ p. refl;
  of_point-not_inf = λ q p h. sym h;
  scalar_eq_refl = λ s. equal_refl (some s);
  maybe_eq_refl = equal_refl;
}

abbrev pub five_products : Products five
five_products = record {
  product = λ a b. nonzero (number a * number b % 5);
  scale = λ a b. nonzero (number a * number b % 5);
  point_eq = λ a b. number a == number b;
}

products_lem : (a b : Nonzero) → some (nonzero (number a * number b % 5)) ≡ mul (some a) (some b)
products_lem one b = ground arith
products_lem two b = ground arith
products_lem three b = ground arith
products_lem four b = ground arith

pub five_product_laws : ProductLaws five five_products
five_product_laws = record {
  product_lem = products_lem;
  scale_lem = products_lem;
  not_zero-of_scalar = λ s. refl;
}
