-- ===== src/Bet/Agreement.antt =====
-- The joint funding transaction of src/bet.rs: `u1_taproot`, `build_funding_psbt`,
-- `verify_funding_psbt` and `locate_u1`.
use mathlib.Core.Bool.{decide}
use babilonia.Prelude.{
  ℕ, suc, not, Option, none, some, List, [], ◌∷◌, sort, if◌then◌else◌, Result, ok, err, decode,
  protocol, ok_or, fail_if, ◌>>=◌, ◌>>◌,
}
use babilonia.Bytes.{Bytes}
use babilonia.Tx.{OutPoint, TxIn, TxOut, Transaction}
use babilonia.Tx.Order.{le_pair, le_outpoint, outpoints-discrete, pairs-discrete, bytes-discrete}
use babilonia.Bet.Library.{Library, Network}

abbrev pub spent : List TxIn → List OutPoint
spent [] = []
spent (i ∷ is) = i.previous_output ∷ spent is

abbrev pub paid : List TxOut → List (Bytes × ℕ)
paid [] = []
paid (o ∷ os) = (o.script_pubkey, o.value) ∷ paid os

-- `iter().position(|o| o.script_pubkey == spk)`, with the output found.
unfoldable pub position : Bytes → ℕ → List TxOut → Option (ℕ × ℕ)
position spk i [] = none
position spk i (o ∷ os) =
    if decide (bytes-discrete o.script_pubkey spk)
    then some (i, o.value)
    else position spk (suc i) os

module _ (lib : Library) where
  -- The aggregate of the two keys, the script of `U1`, and its address.
  unfoldable pub u1_taproot : Network → lib.PublicKey → lib.PublicKey → Result (Bytes × Bytes)
  u1_taproot network p_a p_b = do
    u1 ← lib.taproot_key p_a p_b
    addr ← ok_or (lib.address_of_script u1.1 network) (protocol "bad U1 address")
    ok (u1.1, addr)

  -- The dealer's check of the PSBT that the player built, whatever the orders in it.
  unfoldable pub verify_funding_psbt :
      Network → Bytes → OutPoint × OutPoint → Bytes → ℕ → Bytes × ℕ → Result (Unit {0})
  verify_funding_psbt network psbt inputs u1_spk u1_value bob_change = do
    tx ← ok_or (lib.unsigned_tx psbt) (decode "funding psbt")
    let got_in = sort le_outpoint (spent tx.input)
    let want_in = sort le_outpoint (inputs.0 ∷ inputs.1 ∷ [])
    fail_if (not (decide (outpoints-discrete got_in want_in)))
        (protocol "funding tx spends unexpected inputs")
    change_spk ← lib.script_of_address bob_change.0 network
    let want_out = sort le_pair ((u1_spk, u1_value) ∷ (change_spk, bob_change.1) ∷ [])
    let got_out = sort le_pair (paid tx.output)
    fail_if (not (decide (pairs-discrete got_out want_out)))
        (protocol "funding tx has unexpected outputs")

  abbrev pub located : Transaction → Option (ℕ × ℕ) → Result (OutPoint × ℕ)
  located tx none = err (protocol "U1 output not found in TX1")
  located tx (some (i, value)) = ok (record { txid = lib.compute_txid tx; vout = i }, value)

  unfoldable pub locate_u1 : Transaction → Bytes → Result (OutPoint × ℕ)
  unfolding position
  locate_u1 tx u1_spk = located tx (position u1_spk 0 tx.output)
