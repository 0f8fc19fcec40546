-- ===== src/Bet/Locate.antt =====
-- What `locate_u1` of src/bet.rs finds.
use mathlib.Core.Bool.{decide}
use babilonia.Prelude.{
  arith, ℕ, suc, ◌+◌, ◌≡◌, refl, ap, sym, ◌∙◌, Option, none, some, List, [], ◌∷◌, ok, get_elem?,
  if◌then◌else◌,
}
use babilonia.Bytes.{Bytes}
use babilonia.Tx.{OutPoint, TxOut, Transaction}
use babilonia.Tx.Order.{bytes-discrete}
use babilonia.Bet.Library.{Library}
use babilonia.Bet.Agreement.{position, located, locate_u1}
use babilonia.Setup.Graph.{tx_out}

-- The output at the place found, counted from where the search began.
position-get_elem? :
    (spk : Bytes) (i : ℕ) (outs : List TxOut) (j v : ℕ)
    → position spk i outs ≡ some (j, v)
    → (k : ℕ) × (j ≡ i + k) × (get_elem? outs k ≡ some (tx_out v spk))
unfolding position decide
position-get_elem? spk i [] j v h = ground arith
position-get_elem? spk i (o ∷ os) j v h =
    at_head (bytes-discrete o.script_pubkey spk) (position-get_elem? spk (suc i) os j v) h
  where
    at_head :
        (d : Dec (o.script_pubkey ≡ spk))
        → (position spk (suc i) os ≡ some (j, v)
            → (k : ℕ) × (j ≡ suc i + k) × (get_elem? os k ≡ some (tx_out v spk)))
        → (if decide d then some (i, o.value) else position spk (suc i) os) ≡ some (j, v)
        → (k : ℕ) × (j ≡ i + k) × (get_elem? (o ∷ os) k ≡ some (tx_out v spk))
    at_head (yes e) rest here = (0, ground arith, ground arith)
    at_head (no n) rest later =
        let (k, is_j, found) = rest later in (suc k, omega (arith, is_j), found)

module _ (lib : Library) where
  -- If the pot is located, it is the output of this transaction at the place found, and that output
  -- pays the value found to the script.
  pub locate_u1_lem :
      (tx : Transaction) (spk : Bytes) (pot : OutPoint) (value : ℕ)
      → locate_u1 lib tx spk ≡ ok (pot, value)
      → (pot.txid ≡ lib.compute_txid tx) × (get_elem? tx.output pot.vout ≡ some (tx_out value spk))
  unfolding locate_u1
  locate_u1_lem tx spk pot value h = found (position spk 0 tx.output) refl h
    where
      found :
          (o : Option (ℕ × ℕ))
          → position spk 0 tx.output ≡ o
          → located lib tx o ≡ ok (pot, value)
          → (pot.txid ≡ lib.compute_txid tx)
            × (get_elem? tx.output pot.vout ≡ some (tx_out value spk))
      found none e l = cc
      found (some (j, v)) e l =
          let (k, is_j, at) = position-get_elem? spk 0 tx.output j v e in
          let same_id : lib.compute_txid tx ≡ pot.txid = ground arith in
          let same_vout : j ≡ pot.vout = ground arith in
          let same_value : v ≡ value = ground arith in
          (
            sym same_id,
            ap (get_elem? tx.output) (sym same_vout ∙ is_j ∙ omega arith)
                ∙ at
                ∙ ap (λ r. some (tx_out r spk)) same_value,
          )
