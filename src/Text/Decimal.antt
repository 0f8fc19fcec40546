-- ===== src/Text/Decimal.antt =====
-- `to_string` and `parse` of the unsigned integers of the standard library.
use babilonia.Prelude.{
  ℕ, zero, suc, ◌+◌, ◌*◌, ◌-◌, ◌/◌, ◌%◌, ◌^◌, ◌<◌, ◌≡◌, refl, Bool, true, false, ◌&&◌, Option, none,
  some, [], ◌∷◌, ◌++◌, leb, ltb, ◌==◌, if◌then◌else◌, arith, All,
}
use babilonia.Text.{Text}

unfoldable pub is_digit : ℕ → Bool
is_digit c = leb b'0' c && leb c b'9'

-- At most `fuel` digits; twenty are enough for 64 bits.
unfoldable pub digits : ℕ → ℕ → Text
digits zero n = []
digits (suc fuel) n =
    let rest = digits fuel (n / 10) in
    if ltb n 10 then (n + b'0') ∷ [] else rest ++ (n % 10 + b'0') ∷ []

unfoldable pub to_decimal : ℕ → Text
unfolding digits
to_decimal n = digits 20 n

-- The number that the digits add to what was read before.
unfoldable pub read_digits : ℕ → Text → Option ℕ
read_digits value [] = some value
read_digits value (c ∷ cs) =
    let rest = read_digits (10 * value + (c - b'0')) cs in if is_digit c then rest else none

abbrev pub below : ℕ → Option ℕ → Option ℕ
below bound none = none
below bound (some n) = if ltb n bound then some n else none

-- One sign may stand in front of at least one digit.
abbrev unsigned : Text → Option ℕ
unsigned [] = none
unsigned (c ∷ cs) = read_digits 0 (c ∷ cs)

unfoldable pub parse_unsigned : Text → Option ℕ
unfolding read_digits is_digit
parse_unsigned [] = none
parse_unsigned (c ∷ cs) = if c == b'+' then unsigned cs else read_digits 0 (c ∷ cs)

-- `parse::<uN>()`, which refuses a number that does not fit.
unfoldable pub parse_uint : ℕ → Text → Option ℕ
unfolding parse_unsigned
parse_uint width t = below (2 ^ width) (parse_unsigned t)

abbrev then_digits : Option ℕ → Text → Option ℕ
then_digits none t = none
then_digits (some n) t = read_digits n t

read_digits-append :
    (value : ℕ) (s t : Text) → read_digits value (s ++ t) ≡ then_digits (read_digits value s) t
unfolding read_digits
read_digits-append value [] t = refl
read_digits-append value (c ∷ cs) t =
    ground (arith, read_digits-append (10 * value + (c - b'0')) cs t)

pow_suc : (n : ℕ) → 10 ^ suc n ≡ 10 * 10 ^ n
pow_suc n = omega arith

pub read_digits-digits :
    (fuel n : ℕ) → n < 10 ^ suc fuel → read_digits 0 (digits (suc fuel) n) ≡ some n
unfolding digits read_digits is_digit
read_digits-digits zero n h = ground arith
read_digits-digits (suc fuel) n h = ground (
  arith,
  read_digits-append 0 (digits (suc fuel) (n / 10)) ((n % 10 + b'0') ∷ []),
  read_digits-digits fuel (n / 10) (omega (arith, pow_suc (suc fuel))),
)

unfoldable pub AllDigits : Text → Type 0
AllDigits = All (λ c. is_digit c ≡ true)

AllDigits-append : (s t : Text) → AllDigits s → AllDigits t → AllDigits (s ++ t)
unfolding AllDigits
AllDigits-append [] t h k = k
AllDigits-append (c ∷ cs) t h k = (h.0, AllDigits-append cs t h.1 k)

abbrev pub is_nil : Text → Bool
is_nil [] = true
is_nil (c ∷ cs) = false

is_nil-append : (s t : Text) → is_nil t ≡ false → is_nil (s ++ t) ≡ false
is_nil-append [] t h = h
is_nil-append (c ∷ cs) t h = refl

AllDigits-if :
    (b : Bool) (s t : Text)
    → (b ≡ true → AllDigits s)
    → AllDigits t
    → AllDigits (if b then s else t)
AllDigits-if true s t h k = h refl
AllDigits-if false s t h k = k

pub digits-AllDigits : (fuel n : ℕ) → AllDigits (digits fuel n)
unfolding digits AllDigits is_digit
digits-AllDigits zero n = tt
digits-AllDigits (suc fuel) n =
    AllDigits-if (ltb n 10) ((n + b'0') ∷ []) (digits fuel (n / 10) ++ (n % 10 + b'0') ∷ [])
      (λ small. (ground arith, tt))
      (AllDigits-append (digits fuel (n / 10)) ((n % 10 + b'0') ∷ [])
        (digits-AllDigits fuel (n / 10)) (ground arith, tt))

pub digits-is_nil : (fuel n : ℕ) → is_nil (digits (suc fuel) n) ≡ false
unfolding digits
digits-is_nil fuel n =
    ground (arith, is_nil-append (digits fuel (n / 10)) ((n % 10 + b'0') ∷ []) refl)

parse_digits : (t : Text) → is_nil t ≡ false → AllDigits t → parse_unsigned t ≡ read_digits 0 t
unfolding parse_unsigned AllDigits is_digit
parse_digits [] h k = ground arith
parse_digits (c ∷ cs) h k = ground (arith, k.0)

-- What `to_string` prints is parsed back, if it fits the width.
pub parse_uint-to_decimal :
    (width n : ℕ) → n < 2 ^ width → n < 2 ^ 64 → parse_uint width (to_decimal n) ≡ some n
unfolding parse_uint to_decimal
parse_uint-to_decimal width n h k =
    let big : 2 ^ 64 < 10 ^ 20 = omega arith in
    rw
      (
        parse_digits (digits 20 n) (digits-is_nil 19 n) (digits-AllDigits 20 n),
        read_digits-digits 19 n (omega (arith, big)),
      )
      (ground arith)

pub to_decimal-is_nil : (n : ℕ) → is_nil (to_decimal n) ≡ false
unfolding to_decimal
to_decimal-is_nil n = digits-is_nil 19 n
