-- ===== src/Tx.antt =====
-- The transactions of src/txgraph.rs: the shape of a `bitcoin::Transaction`, and the builders of
-- the refund, the settlement and the claim spend. A script and a witness item are their bytes,
-- an amount is its satoshis.
pub mod Shuffle
pub mod Split
pub mod Order
use babilonia.Prelude.{ℕ, List, [], ◌∷◌}
use babilonia.Bytes.{Bytes}

-- `bitcoin::OutPoint`; a transaction id is 32 bytes.
pub record OutPoint : Type 0 where
  pub txid : Bytes
  pub vout : ℕ

pub record TxIn : Type 0 where
  pub previous_output : OutPoint
  pub script_sig : Bytes
  pub sequence : ℕ
  pub witness : List Bytes

pub record TxOut : Type 0 where
  pub value : ℕ
  pub script_pubkey : Bytes

pub record Transaction : Type 0 where
  pub version : ℕ
  pub lock_time : ℕ
  pub input : List TxIn
  pub output : List TxOut

-- The constants of `bitcoin::Sequence`.
abbrev pub enable_locktime_no_rbf : ℕ
enable_locktime_no_rbf = 0xffff_fffe

abbrev pub enable_rbf_no_locktime : ℕ
enable_rbf_no_locktime = 0xffff_fffd

-- `Sequence::default()` is the final sequence.
abbrev pub final_sequence : ℕ
final_sequence = 0xffff_ffff

abbrev spend_input : OutPoint × ℕ → TxIn
spend_input (o, s) = record { previous_output = o; script_sig = []; sequence = s; witness = [] }

abbrev inputs_of : List (OutPoint × ℕ) → List TxIn
inputs_of [] = []
inputs_of (i ∷ is) = spend_input i ∷ inputs_of is

-- `spend_inputs`.
unfoldable pub spend_inputs : List (OutPoint × ℕ) → List TxOut → ℕ → Transaction
spend_inputs inputs outputs lock_time = record {
  version = 2;
  lock_time = lock_time;
  input = inputs_of inputs;
  output = outputs;
}

unfoldable pub build_refund : OutPoint → List TxOut → ℕ → Transaction
unfolding spend_inputs
build_refund u1 outputs refund_locktime =
    spend_inputs ((u1, enable_locktime_no_rbf) ∷ []) outputs refund_locktime

unfoldable pub build_settlement : OutPoint → List TxOut → Transaction
unfolding spend_inputs
build_settlement u1 outputs = spend_inputs ((u1, enable_rbf_no_locktime) ∷ []) outputs 0

unfoldable pub build_claim_spend : OutPoint → ℕ → List TxOut → Transaction
unfolding spend_inputs
build_claim_spend claim sequence outputs = spend_inputs ((claim, sequence) ∷ []) outputs 0
