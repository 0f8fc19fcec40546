-- ===== src/Bet/Joint.antt =====
-- What the dealer's check of the player's funding, `verify_funding_psbt` of src/bet.rs, lets through.
use mathlib.Core.List.{Perm}
use mathlib.Core.Bool.{decide}
use babilonia.Prelude.{
  arith, ℕ, ◌≡◌, refl, true, Option, none, some, List, [], ◌∷◌, sort, perm_of_sort-eq, Result, ok,
  err,
}
use babilonia.Bytes.{Bytes}
use babilonia.Tx.{OutPoint, Transaction}
use babilonia.Tx.Order.{le_pair, le_outpoint, outpoints-discrete, pairs-discrete}
use babilonia.Bet.Library.{Library, Network}
use babilonia.Bet.Agreement.{spent, paid, verify_funding_psbt}

eq_of_decide : {A : Type 0} {x y : A} (d : Dec (x ≡ y)) → decide d ≡ true → x ≡ y
unfolding decide
eq_of_decide (yes p) h = p
eq_of_decide (no n) h = ground arith

module _ (lib : Library) (network : Network) (psbt : Bytes) (inputs : OutPoint × OutPoint)
    (u1 change : Bytes × ℕ) where
  want_in : List OutPoint
  want_in = inputs.0 ∷ inputs.1 ∷ []

  module _ (h : verify_funding_psbt lib network psbt inputs u1.0 u1.1 change ≡ ok tt) where
    has_tx :
        (o : Option Transaction) → lib.unsigned_tx psbt ≡ o → (tx : Transaction) × (o ≡ some tx)
    unfolding verify_funding_psbt
    has_tx none e = ground arith
    has_tx (some tx) e = (tx, refl)

    has_spk :
        (r : Result Bytes)
        → lib.script_of_address change.0 network ≡ r
        → (spk : Bytes) × (r ≡ ok spk)
    unfolding verify_funding_psbt
    has_spk (err x) e = ground arith
    has_spk (ok spk) e = (spk, refl)

    module _ (tx : Transaction) (spk : Bytes) (is_tx : lib.unsigned_tx psbt ≡ some tx)
        (is_spk : lib.script_of_address change.0 network ≡ ok spk) where
      spends_both : Perm (spent tx.input) want_in
      unfolding verify_funding_psbt want_in
      spends_both = perm_of_sort-eq le_outpoint _ _ (
          eq_of_decide
            (outpoints-discrete (sort le_outpoint (spent tx.input)) (sort le_outpoint want_in))
            (ground arith))

      pays_both : Perm (paid tx.output) (u1 ∷ (spk, change.1) ∷ [])
      unfolding verify_funding_psbt
      pays_both = perm_of_sort-eq le_pair _ _ (
          eq_of_decide
            (pairs-discrete (sort le_pair (paid tx.output))
              (sort le_pair (u1 ∷ (spk, change.1) ∷ [])))
            (ground arith))

    -- A funding that passes the dealer's check is a transaction that spends the two inputs and
    -- nothing else, and pays the pot and the player's change and nothing else, each once.
    pub verify_funding_psbt_sound :
        (tx : Transaction) × (spk : Bytes) × (lib.unsigned_tx psbt ≡ some tx)
        × (lib.script_of_address change.0 network ≡ ok spk)
        × Perm (spent tx.input) (inputs.0 ∷ inputs.1 ∷ [])
        × Perm (paid tx.output) (u1 ∷ (spk, change.1) ∷ [])
    unfolding want_in
    verify_funding_psbt_sound =
        let (tx, is_tx) = has_tx (lib.unsigned_tx psbt) refl in
        let (spk, is_spk) = has_spk (lib.script_of_address change.0 network) refl in
        (tx, spk, is_tx, is_spk, spends_both tx spk is_tx is_spk, pays_both tx spk is_tx is_spk)
