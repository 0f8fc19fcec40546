-- ===== src/Tx/Order.antt =====
-- The order and the equality of outpoints, outputs and transactions, as `sort` and `!=` use them.
use native.Mathlib.Decide.{ℕ_discrete}
use babilonia.Prelude.{ℕ, Bool, true, false, List, [], ◌∷◌, ltb, leb, ◌==◌, if◌then◌else◌}
use babilonia.Bytes.{Bytes}
use babilonia.Tx.{OutPoint, Transaction}

-- Byte strings, lexicographically: the first less than, equal to, or greater than the second.
unfoldable pub compare_bytes : Bytes → Bytes → ℕ
compare_bytes [] [] = 1
compare_bytes [] (y ∷ ys) = 0
compare_bytes (x ∷ xs) [] = 2
compare_bytes (x ∷ xs) (y ∷ ys) = if ltb x y then 0 else if ltb y x then 2 else compare_bytes xs ys

-- A script or a transaction id with a number, compared in this order.
unfoldable pub le_pair : Bytes × ℕ → Bytes × ℕ → Bool
unfolding compare_bytes
le_pair (a, n) (b, m) =
    let c = compare_bytes a b in if c == 0 then true else if c == 1 then leb n m else false

abbrev pub outpoint_pair : OutPoint → Bytes × ℕ
outpoint_pair o = (o.txid, o.vout)

unfoldable pub le_outpoint : OutPoint → OutPoint → Bool
unfolding le_pair
le_outpoint a b = le_pair (outpoint_pair a) (outpoint_pair b)

unfoldable pub outpoints-discrete : Discrete (List OutPoint)
outpoints-discrete = hlevel ℕ_discrete

unfoldable pub pairs-discrete : Discrete (List (Bytes × ℕ))
pairs-discrete = hlevel ℕ_discrete

unfoldable pub bytes-discrete : Discrete Bytes
bytes-discrete = hlevel ℕ_discrete

pub transaction-discrete : Discrete Transaction
transaction-discrete = hlevel ℕ_discrete
