-- ===== src/Setup/Value.antt =====
-- What the settlement and the refund of `tx_graph` pay, and to whom.
use mathlib.Core.List.{Perm}
use babilonia.Prelude.{arith, ℕ, ◌+◌, ◌-◌, ◌≡◌, some, List, [], ◌∷◌, ok, sym, subst}
use babilonia.Bytes.{Bytes, ascii}
use babilonia.Tx.{TxOut, build_refund, build_settlement, spend_inputs}
use babilonia.Tx.Shuffle.{shuffle_seeded, shuffle_seeded-perm}
use babilonia.Bet.Library.{Library}
use babilonia.Bet.State.{GameParams}
use babilonia.Bet.Agreement.{spent}
use babilonia.Bet.Amounts.{settlement_rest}
use babilonia.Setup.Graph.{Graph, tx_graph, tx_out, order_seed}

module _ (lib : Library) (p : GameParams) (claim : Bytes × lib.SpendInfo) (alice bob : Bytes) where
  abbrev settled_rest : ℕ
  settled_rest = p.u1_value - (p.alice_stake + p.bob_stake) - p.fee

  abbrev refunded_rest : ℕ
  refunded_rest = p.u1_value - p.bob_stake - p.fee

  abbrev settle_outs : List TxOut
  settle_outs = tx_out (p.alice_stake + p.bob_stake) claim.0 ∷ tx_out settled_rest alice ∷ []

  abbrev refund_outs : List TxOut
  refund_outs = tx_out refunded_rest alice ∷ tx_out p.bob_stake bob ∷ []

  module _ (u1_spk : Bytes) (p_a : lib.PublicKey) (k : lib.wire.Point) (shared : Bytes) (g : Graph)
      (is_claim : lib.claim_output k (lib.to_point p_a) p.alice_timeout ≡ ok claim)
      (is_alice : lib.payout_spk p.alice_payout ≡ ok alice)
      (is_bob : lib.payout_spk p.bob_payout ≡ ok bob)
      (is_graph : tx_graph lib u1_spk p_a k p shared ≡ ok g) where
    settlement-output :
        g.settle_tx.output
        ≡ shuffle_seeded lib.sha256 settle_outs
            (order_seed lib (ascii "babilonia/settle-order") shared)
    unfolding tx_graph build_settlement spend_inputs settlement_rest order_seed
    settlement-output = ground arith

    refund-output :
        g.refund_tx.output
        ≡ shuffle_seeded lib.sha256 refund_outs
            (order_seed lib (ascii "babilonia/refund-order") shared)
    unfolding tx_graph build_refund spend_inputs settlement_rest order_seed
    refund-output = ground arith

    -- If the graph is built, for the claim output and the payout scripts given, the settlement pays
    -- the stakes to the claim output and the rest to the dealer, and the refund the rest to the
    -- dealer and the player's stake back to him, each in some order; each spends the pot alone, what
    -- it pays and the fee are the pot's value, and the refund has the locktime agreed.
    pub tx_graph_pays :
        Perm g.settle_tx.output settle_outs
        × Perm g.refund_tx.output refund_outs
        × (spent g.settle_tx.input ≡ p.u1_outpoint ∷ [])
        × (spent g.refund_tx.input ≡ p.u1_outpoint ∷ [])
        × (settled_rest + (p.alice_stake + p.bob_stake) + p.fee ≡ p.u1_value)
        × (refunded_rest + p.bob_stake + p.fee ≡ p.u1_value)
        × (lib.lock_height p.refund_locktime ≡ some g.refund_tx.lock_time)
    unfolding tx_graph build_settlement build_refund spend_inputs settlement_rest
    tx_graph_pays = (
      subst (λ l. Perm l settle_outs) (sym settlement-output)
          (shuffle_seeded-perm lib.sha256 settle_outs _),
      subst (λ l. Perm l refund_outs) (sym refund-output)
          (shuffle_seeded-perm lib.sha256 refund_outs _),
      ground arith,
      ground arith,
      ground arith,
      ground arith,
      ground arith,
    )
