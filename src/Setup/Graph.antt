-- ===== src/Setup/Graph.antt =====
-- `tx_graph` of src/setup.rs: the settlement and the refund that both parties build.
use babilonia.Prelude.{ℕ, ◌+◌, [], ◌∷◌, ◌++◌, Result, ok, protocol, ok_or, ◌>>=◌}
use babilonia.Bytes.{Bytes, ascii}
use babilonia.Tx.{TxOut, Transaction, build_refund, build_settlement}
use babilonia.Tx.Shuffle.{shuffle_seeded}
use babilonia.Bet.Library.{Library}
use babilonia.Bet.State.{GameParams}
use babilonia.Bet.Amounts.{settlement_rest}

pub record Graph : Type 0 where
  pub settle_tx : Transaction
  pub settle_sighash : Bytes
  pub refund_tx : Transaction
  pub refund_sighash : Bytes

abbrev pub tx_out : ℕ → Bytes → TxOut
tx_out value spk = record { value = value; script_pubkey = spk }

module _ (lib : Library) where
  -- The two keys, one behind the other.
  unfoldable pub ctx_keys : lib.wire.Point → lib.wire.Point → Bytes
  ctx_keys p_a p_b = lib.wire.point.serialize p_a ++ lib.wire.point.serialize p_b

  unfoldable pub order_seed : Bytes → Bytes → Bytes
  order_seed domain shared = lib.sha256 (domain ++ shared)

  -- `u1_spk` is the script of the pot, `p_a` the dealer's key, `k` the claim key.
  unfoldable pub tx_graph :
      Bytes → lib.PublicKey → lib.wire.Point → GameParams → Bytes → Result Graph
  unfolding order_seed
  tx_graph u1_spk p_a k params shared = do
    let prevout = tx_out params.u1_value u1_spk
    claim ← lib.claim_output k (lib.to_point p_a) params.alice_timeout
    let s = params.alice_stake + params.bob_stake
    c_a_out ←
        ok_or (settlement_rest params.u1_value s params.fee)
          (protocol "settlement: c_A_out underflow")
    alice_spk ← lib.payout_spk params.alice_payout
    let settle_outs =
        shuffle_seeded lib.sha256 (tx_out s claim.0 ∷ tx_out c_a_out alice_spk ∷ [])
          (order_seed (ascii "babilonia/settle-order") shared)
    let settle_tx = build_settlement params.u1_outpoint settle_outs
    settle_sighash ← lib.key_spend_sighash settle_tx 0 (prevout ∷ [])
    refund_locktime ←
        ok_or (lib.lock_height params.refund_locktime) (protocol "bad refund locktime")
    f_a_out ←
        ok_or (settlement_rest params.u1_value params.bob_stake params.fee)
          (protocol "refund: F_A_out underflow")
    bob_spk ← lib.payout_spk params.bob_payout
    let refund_outs =
        shuffle_seeded lib.sha256 (tx_out f_a_out alice_spk ∷ tx_out params.bob_stake bob_spk ∷ [])
          (order_seed (ascii "babilonia/refund-order") shared)
    let refund_tx = build_refund params.u1_outpoint refund_outs refund_locktime
    refund_sighash ← lib.key_spend_sighash refund_tx 0 (prevout ∷ [])
    ok (record {
      settle_tx = settle_tx;
      settle_sighash = settle_sighash;
      refund_tx = refund_tx;
      refund_sighash = refund_sighash;
    })
