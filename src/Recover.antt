-- ===== src/Recover.antt =====
-- src/recover.rs: what a party does from a record, with no live peer. A summary is what it says of
-- the situation, without the numbers that its text shows.
pub mod Laws
use babilonia.Prelude.{
  Error, ℕ, ◌+◌, Bool, true, false, leb, ltb, if◌then◌else◌, Option, none, some, List, [], ◌∷◌,
  Result, ok, err, protocol, ok_or,
}
use babilonia.Bytes.{Bytes}
use babilonia.Tx.{OutPoint, Transaction, build_claim_spend, final_sequence}
use babilonia.Tx.Shuffle.{shuffle_seeded}
use babilonia.Tx.Split.{split_payment}
use babilonia.Action.{Action, pure, raise, lift, raise_if, ◌>>=◌, ◌>>◌}
use babilonia.Bet.Library.{Library}
use babilonia.Bet.State.{
  AliceSecrets, BobSecrets, BetRole, BetRecord, SetupData, Phase, dealer, player, pick, funded,
  setup_done, funding_broadcast, settled, observed, done,
}
use babilonia.Bet.Env.{Env, Log, succeeded, broadcast}
use babilonia.Bet.Amounts.{checked_sub}
use babilonia.Bet.Persist.{set_witness}
use babilonia.Bet.Claim.{find_o_k, first_witness}
use babilonia.Reveal.{extract_a_c, claim_secret, won}
use babilonia.Setup.Graph.{tx_out}

-- The situations that `assess` tells apart.
pub data Situation : Type 0 where
  resolved setup_incomplete settlement_due waiting_for_dealer refund_possible spent_elsewhere :
      Situation
  claimed claim_due reclaim_due waiting_for_player : Situation

pub record Assessment : Type 0 where
  pub situation : Situation
  pub actionable : Bool

-- The reports of the actions that were taken.
pub data Report : Type 0 where
  settled_again lost claimed_pot reclaimed refunded : Report

abbrev is_done : Phase → Bool
is_done done = true
is_done _ = false

abbrev or_zero : Option ℕ → ℕ
or_zero none = 0
or_zero (some n) = n

abbrev is_none : {A : Type 0} → Option A → Bool
is_none none = true
is_none (some a) = false

-- The chain and the wallet, and what was broadcast.
pub record Desk (lib : Library) (W : Type 0) : Type 0 where
  pub world : W
  pub log : Log lib

module _ (lib : Library) (env : Env lib) where
  abbrev pub R : Type 0 → Type 0
  R A = Action (Desk lib env.World) A

  unfoldable pub look : {A : Type 0} → Action env.World A → R A
  look f s = let (r, w) = f s.world in (r, record s { world = w })

  unfoldable pub publish : Transaction → R Bytes
  publish tx s =
      let (r, w) = env.broadcast_tx tx s.world in
      (r, record { world = w; log = (broadcast tx, succeeded lib env r) ∷ s.log })

  abbrev pub as_dealer : Error → BetRole lib → Result (AliceSecrets lib)
  as_dealer e (dealer s) = ok s
  as_dealer e (player s) = err e

  abbrev pub as_player : BetRole lib → Result (BobSecrets lib)
  as_player (player s) = ok s
  as_player (dealer s) = err (protocol "only the player observes/claims")

  unfoldable pub o_k_of : SetupData lib → Result (Bytes × lib.SpendInfo) → Result OutPoint
  o_k_of setup (err e) = err e
  o_k_of setup (ok claim) =
      ok_or (find_o_k claim.0 (lib.compute_txid setup.settle_tx) setup.settle_tx)
        (protocol "O_K not found in settlement outputs")

  unfoldable pub o_k_outpoint : SetupData lib → ℕ → Result OutPoint
  unfolding o_k_of
  o_k_outpoint setup alice_timeout = o_k_of setup (lib.claim_output setup.k setup.p_a alice_timeout)

  unfoldable pub settle_action : BetRecord lib → SetupData lib → R Report
  settle_action rec setup = do
    a ← lift (as_dealer (protocol "only the dealer settles") rec.role)
    sig ← lift (ok_or (lib.adapt setup.settle_pre a.d) (protocol "settlement adapt failed"))
    publish (set_witness setup.settle_tx (lib.signature_bytes sig ∷ []))
    pure settled_again

  -- The player's spend of the claim output by its key.
  unfoldable pub claim_pot :
      BetRecord lib → SetupData lib → BobSecrets lib → lib.wire.Scalar → R Report
  claim_pot rec setup b a_c = do
    claim ← lift (lib.claim_output setup.k setup.p_a rec.params.alice_timeout)
    let value = rec.params.alice_stake + rec.params.bob_stake
    out_value ← lift (ok_or (checked_sub value rec.params.fee) (protocol "fee exceeds claim"))
    split ← lift (split_payment out_value)
    pay_addr ← look env.receive_address
    change_addr ← look env.change_address
    claim_out ← lift (o_k_outpoint setup rec.params.alice_timeout)
    seed ← look env.random_seed
    let outs =
        shuffle_seeded lib.sha256
          (tx_out split.0 (lib.script_pubkey pay_addr)
            ∷ tx_out split.1 (lib.script_pubkey change_addr)
            ∷ [])
          seed
    let tx = build_claim_spend claim_out final_sequence outs
    claim_sk ← lift (claim_secret lib (lib.secret_scalar b.claim.sk) a_c)
    sighash ← lift (lib.key_spend_sighash tx 0 (tx_out value claim.0 ∷ []))
    sig ← lift (lib.sign_key_path claim_sk claim.1 sighash)
    publish (set_witness tx (sig ∷ []))
    pure claimed_pot

  unfoldable pub observe_and_claim : BetRecord lib → SetupData lib → R Report
  unfolding claim_pot
  observe_and_claim rec setup = do
    b ← lift (as_player rec.role)
    found ← look (env.get_transaction (lib.compute_txid setup.settle_tx))
    stx ← lift (ok_or found (protocol "settlement not on-chain yet"))
    sig ← lift (ok_or (first_witness stx.input) (protocol "no settlement witness"))
    a_c ← lift (
        extract_a_c lib (protocol "could not extract d from settlement") rec.params.pi_a_scheme
          setup.settle_pre setup.ctxt sig)
    if won lib a_c (pick b.guess setup.thimble_0 setup.thimble_1)
        then claim_pot rec setup b a_c
        else pure lost

  unfoldable pub reclaim_action : BetRecord lib → SetupData lib → R Report
  reclaim_action rec setup = do
    lift (as_dealer (protocol "only the dealer reclaims") rec.role)
    confs ← look (env.confirmations (lib.compute_txid setup.settle_tx))
    raise_if (ltb (or_zero confs) rec.params.alice_timeout)
        (protocol "timeout leaf not mature yet (needs alice_timeout confirmations)")
    tx ← lift (ok_or setup.reclaim_tx (protocol "no pre-signed reclaim tx in record"))
    publish tx
    pure reclaimed

  -- `rec.setup` of a record.
  abbrev pub setup_of : Error → BetRecord lib → Result (SetupData lib)
  setup_of e rec = ok_or rec.setup e

  unfoldable pub recover_live : BetRecord lib → SetupData lib → BetRole lib → R Report
  recover_live rec setup (dealer s) = settle_action rec setup
  recover_live rec setup (player s) =
      raise (protocol "only the dealer can settle; wait, or `refund` after the locktime")

  unfoldable pub recover_settled : BetRecord lib → SetupData lib → BetRole lib → R Report
  recover_settled rec setup (dealer s) = reclaim_action rec setup
  recover_settled rec setup (player s) = observe_and_claim rec setup

  unfoldable pub recover : BetRecord lib → R Report
  unfolding recover_live recover_settled
  recover rec = do
    setup ← lift (setup_of (protocol "no setup in record — nothing to recover") rec)
    u1_live ← look (env.utxo_unspent rec.params.u1_outpoint)
    if u1_live then recover_live rec setup rec.role else do
      settlement ← look (env.get_transaction (lib.compute_txid setup.settle_tx))
      raise_if (is_none settlement)
          (protocol "U1 already spent by another path (refunded?) — nothing to recover")
      recover_settled rec setup rec.role

  unfoldable pub broadcast_refund : BetRecord lib → R Report
  broadcast_refund rec = do
    setup ← lift (setup_of (protocol "no setup — no refund exists") rec)
    height ← look env.block_height
    raise_if (ltb height rec.params.refund_locktime)
        (protocol "refund not spendable yet (before its locktime)")
    publish (set_witness setup.refund_tx (lib.signature_bytes setup.refund_sig ∷ []))
    pure refunded

  abbrev mk : Situation → Bool → Assessment
  mk situation actionable = record { situation = situation; actionable = actionable }

  -- The pot is unspent.
  unfoldable pub assess_live : BetRole lib → Bool → Assessment
  assess_live (dealer s) refundable = mk settlement_due true
  assess_live (player s) refundable =
      mk (if refundable then refund_possible else waiting_for_dealer) false

  -- The settlement is on the chain, and its claim output is unspent.
  unfoldable pub assess_settled : BetRecord lib → Bytes → BetRole lib → R Assessment
  assess_settled rec settle_txid (player s) = pure (mk claim_due true)
  assess_settled rec settle_txid (dealer s) = do
    confs ← look (env.confirmations settle_txid)
    pure (
        if leb rec.params.alice_timeout (or_zero confs)
        then mk reclaim_due true
        else mk waiting_for_player false)

  unfoldable pub assess_setup : BetRecord lib → Option (SetupData lib) → R Assessment
  unfolding assess_live assess_settled
  assess_setup rec none = pure (mk setup_incomplete false)
  assess_setup rec (some setup) = do
    u1_live ← look (env.utxo_unspent rec.params.u1_outpoint)
    height ← look env.block_height
    if u1_live then pure (assess_live rec.role (leb rec.params.refund_locktime height)) else do
      settlement ← look (env.get_transaction (lib.compute_txid setup.settle_tx))
      if is_none settlement then pure (mk spent_elsewhere false) else do
        claim_out ← lift (o_k_outpoint setup rec.params.alice_timeout)
        unspent ← look (env.utxo_unspent claim_out)
        if unspent
            then assess_settled rec (lib.compute_txid setup.settle_tx) rec.role
            else pure (mk claimed false)

  unfoldable pub assess : BetRecord lib → R Assessment
  unfolding assess_setup
  assess rec = if is_done rec.phase then pure (mk resolved false) else assess_setup rec rec.setup
