-- ===== src/Bet/Amounts.antt =====
-- The amounts of src/bet.rs and src/setup.rs. A `bitcoin::Amount` is a `u64` of satoshis: a checked
-- operation is refused outside of it, and `5 * fee.to_sat()` is a product of `u64`s, which wraps.
-- `+` on amounts panics past a `u64`; sums of two stakes are taken to fit.
use babilonia.Prelude.{
  ℕ, ◌+◌, ◌-◌, ◌*◌, ◌%◌, ◌^◌, ◌≤◌, ◌<◌, ◌≡◌, ◌≢◌, Option, none, some, Bool, false, arith, ltb, leb,
  ◌==◌, if◌then◌else◌, Result, ok, protocol, ok_or, ◌>>=◌, ◌>>◌, fail_if,
}

abbrev pub checked_add : ℕ → ℕ → Option ℕ
checked_add a b = if ltb (a + b) (2 ^ 64) then some (a + b) else none

abbrev pub checked_sub : ℕ → ℕ → Option ℕ
checked_sub a b = if leb b a then some (a - b) else none

abbrev pub then_sub : Option ℕ → ℕ → Option ℕ
then_sub none b = none
then_sub (some a) b = checked_sub a b

-- The product of a `u64` fee.
abbrev pub times_fee : ℕ → ℕ → ℕ
times_fee n fee = n * fee % 2 ^ 64

abbrev is_some_of : Option ℕ → ℕ → Bool
is_some_of none s = false
is_some_of (some a) s = a == s

-- `Bet::funding_amounts`: the pot `U1` and the player's change.
unfoldable pub funding_amounts : ℕ → ℕ → ℕ → ℕ → Result (ℕ × ℕ)
funding_amounts f_a f_b b fee = do
  u1_value ← ok_or (then_sub (checked_add f_a b) fee) (protocol "funding amount underflow")
  c_b ← ok_or (checked_sub f_b b) (protocol "player input below stake")
  ok (u1_value, c_b)

-- `Bet::check_park`.
unfoldable pub check_park : ℕ → ℕ → ℕ → ℕ → Result (Unit {0})
check_park u1_value a b fee = do
  let s = a + b
  c_a ← ok_or (checked_sub u1_value s) (protocol "pot below stake — dealer input too small")
  fail_if (ltb c_a (times_fee 5 fee))
      (protocol "parked surplus below 5·fee floor — dealer input too small")
  fail_if (is_some_of (checked_sub c_a fee) s)
      (protocol "settlement would have two equal outputs (c_A_out == S)")

-- The settlement's second output, `c_A_out` (`tx_graph` of src/setup.rs and `build_coop_tx`).
unfoldable pub settlement_rest : ℕ → ℕ → ℕ → Option ℕ
settlement_rest u1_value s fee = then_sub (checked_sub u1_value s) fee

-- What the funding pays for equals what it spends: the pot, the change and the fee.
pub funding_amounts_conserve :
    (f_a f_b b fee u1_value c_b : ℕ)
    → funding_amounts f_a f_b b fee ≡ ok (u1_value, c_b)
    → u1_value + c_b + fee ≡ f_a + f_b
unfolding funding_amounts
funding_amounts_conserve f_a f_b b fee u1_value c_b h = ground arith

-- If five fees fit in 64 bits, a pot that passes the check leaves the settlement's second output
-- defined, at least four fees, and different from the first, the two stakes; with these and the fee
-- it makes up the pot.
pub check_park_sound :
    (u1_value a b fee : ℕ)
    → 5 * fee < 2 ^ 64
    → check_park u1_value a b fee ≡ ok tt
    → (c : ℕ) × (settlement_rest u1_value (a + b) fee ≡ some c)
      × (4 * fee ≤ c)
      × (c ≢ a + b)
      × (c + (a + b) + fee ≡ u1_value)
unfolding check_park settlement_rest
check_park_sound u1_value a b fee small h =
    (u1_value - (a + b) - fee, ground arith, ground arith, ground arith, ground arith)

-- If six fees fit in 64 bits, a dealer's input covers the need of `fund_pot`, his stake and six fees,
-- the funding amounts are computed, and the pot is not twice the stakes and a fee, which would make
-- the settlement's two outputs equal, then the pot passes the check.
pub need_covers_floor :
    (f_a a b fee u1_value c_b f_b : ℕ)
    → 6 * fee < 2 ^ 64
    → a + times_fee 6 fee ≤ f_a
    → funding_amounts f_a f_b b fee ≡ ok (u1_value, c_b)
    → u1_value ≢ a + b + (a + b) + fee
    → check_park u1_value a b fee ≡ ok tt
unfolding check_park funding_amounts
need_covers_floor f_a a b fee u1_value c_b f_b small need h ne = ground arith
