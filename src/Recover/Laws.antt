-- ===== src/Recover/Laws.antt =====
-- What src/recover.rs does on each branch, and that `assess` and `recover` agree.
use babilonia.Prelude.{
  arith, ℕ, ◌≡◌, Bool, true, false, if◌then◌else◌, Option, some, [], ◌∷◌, ok, err, ok_or, protocol,
}
use babilonia.Tx.{OutPoint, Transaction}
use babilonia.Action.{pure, lift, ◌>>=◌, ◌>>◌}
use babilonia.Bet.Library.{Library}
use babilonia.Bet.State.{BetRecord, SetupData}
use babilonia.Bet.Env.{Env}
use babilonia.Bet.Persist.{set_witness}
use babilonia.Recover.{
  Situation, Assessment, Report, Desk, R, look, publish, o_k_outpoint, settle_action,
  observe_and_claim, reclaim_action, recover, recover_live, recover_settled, broadcast_refund,
  assess, assess_setup, assess_live, assess_settled, refunded, refund_possible, waiting_for_dealer,
  reclaimed, settlement_due, claim_due, reclaim_due,
}

module _ (lib : Library) (env : Env lib) where
  -- What the chain answers about a record, and that asking changes nothing.
  pub record Sight (rec : BetRecord lib) (setup : SetupData lib) (w : env.World) : Type 0 where
    pub u1_live : Bool
    pub height : ℕ
    pub settlement : Option Transaction
    pub o_k : OutPoint
    pub o_k_live : Bool
    pub confs : Option ℕ
    pub sees_u1 : env.utxo_unspent rec.params.u1_outpoint w ≡ (ok u1_live, w)
    pub sees_height : env.block_height w ≡ (ok height, w)
    pub sees_settlement :
        env.get_transaction (lib.compute_txid setup.settle_tx) w ≡ (ok settlement, w)
    pub finds_o_k : o_k_outpoint lib env setup rec.params.alice_timeout ≡ ok o_k
    pub sees_o_k : env.utxo_unspent o_k w ≡ (ok o_k_live, w)
    pub sees_confs : env.confirmations (lib.compute_txid setup.settle_tx) w ≡ (ok confs, w)

  -- The action that a situation calls for; the reclaim, past the check that it is mature.
  pub due : BetRecord lib → SetupData lib → Situation → R lib env Report
  due rec setup settlement_due = settle_action lib env rec setup
  due rec setup claim_due = observe_and_claim lib env rec setup
  due rec setup reclaim_due = do
    tx ← lift (ok_or setup.reclaim_tx (protocol "no pre-signed reclaim tx in record"))
    publish lib env tx
    pure reclaimed
  due rec setup _ = lift (err (protocol "nothing is due"))

  abbrev assessed : Situation → Bool → Assessment
  assessed situation actionable = record { situation = situation; actionable = actionable }

  -- If a record with a setup is assessed as actionable, and the chain answers the questions asked
  -- without a change, then `recover` takes the action that the situation calls for; a reclaim is past
  -- its check that the settlement is mature.
  pub assess-recover :
      (rec : BetRecord lib) (setup : SetupData lib) (s : Desk lib env.World)
      (sight : Sight rec setup s.world) (situation : Situation)
      → rec.setup ≡ some setup
      → assess lib env rec s ≡ (ok (assessed situation true), s)
      → recover lib env rec s ≡ due rec setup situation s
  unfolding assess assess_setup assess_live assess_settled recover recover_live recover_settled
      reclaim_action look due ◌>>=◌
  assess-recover rec setup s sight situation is_setup h = ground arith

  -- If a record with a setup is assessed as waiting for the dealer, or as one whose refund is possible,
  -- and the chain answers the questions asked without a change, then the pot is unspent, and
  -- `broadcast_refund` broadcasts the refund with its signature in the second case, and in the first
  -- fails with no change.
  pub assess-broadcast_refund :
      (rec : BetRecord lib) (setup : SetupData lib) (s : Desk lib env.World)
      (sight : Sight rec setup s.world) (possible : Bool)
      → rec.setup ≡ some setup
      → assess lib env rec s
        ≡ (ok (assessed (if possible then refund_possible else waiting_for_dealer) false), s)
      → (sight.u1_live ≡ true)
        × (broadcast_refund lib env rec s ≡ (
            if possible
            then (do
              publish lib env
                  (set_witness setup.refund_tx (lib.signature_bytes setup.refund_sig ∷ []))
              pure refunded)
                s
            else (err (protocol "refund not spendable yet (before its locktime)"), s)))
  unfolding assess assess_setup assess_live assess_settled broadcast_refund look ◌>>=◌
  assess-broadcast_refund rec setup s sight true is_setup h = (ground arith, ground arith)
  assess-broadcast_refund rec setup s sight false is_setup h = (ground arith, ground arith)
