-- ===== src/Tx/Split.antt =====
-- `split_payment` of src/txgraph.rs.
use babilonia.Prelude.{
  ℕ, ◌+◌, ◌-◌, ◌/◌, ◌≤◌, ◌<◌, ◌≡◌, arith, ltb, ◌==◌, if◌then◌else◌, Result, ok, err, protocol,
}

-- `DUST`.
abbrev pub dust : ℕ
dust = 330

-- A third goes to change, the rest is the payment.
unfoldable pub split_payment : ℕ → Result (ℕ × ℕ)
split_payment total =
    let change = total / 3 in
    if ltb total change
    then err (protocol "claim total underflow")
    else let pay = total - change in
      if ltb change dust
      then err (protocol "claim too small to split into two non-dust outputs")
      else if pay == change
      then err (protocol "2-out split produced two equal outputs")
      else ok (pay, change)

-- A split succeeds from 990 satoshis on; its parts are unequal, not dust, and add up to the total.
pub split_payment_lem :
    (total : ℕ)
    → 990 ≤ total
    → (pay : ℕ) × (change : ℕ) × (split_payment total ≡ ok (pay, change))
      × (pay + change ≡ total)
      × (dust ≤ change)
      × (change < pay)
unfolding split_payment
split_payment_lem total h =
    (total - total / 3, total / 3, ground arith, omega arith, omega arith, omega arith)

-- Below 990 satoshis it fails as too small; no total meets the other two errors.
pub split_payment_small :
    (total : ℕ)
    → total < 990
    → split_payment total ≡ err (protocol "claim too small to split into two non-dust outputs")
unfolding split_payment
split_payment_small total h = ground arith
