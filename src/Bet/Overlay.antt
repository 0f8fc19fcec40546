-- ===== src/Bet/Overlay.antt =====
-- The cooperative overlay of src/bet.rs: the dealer's half and the player's half.
use mathlib.Core.Bool.{decide}
use babilonia.Prelude.{
  ℕ, zero, suc, Bool, true, false, not, if◌then◌else◌, Option, none, some, List, [], ◌∷◌, Result,
  ok, err, protocol, ok_or, get_elem?,
}
use babilonia.Bytes.{Bytes}
use babilonia.Tx.{OutPoint, TxOut, Transaction, build_settlement}
use babilonia.Tx.Shuffle.{shuffle_seeded}
use babilonia.Tx.Order.{outpoints-discrete}
use babilonia.Action.{pure, lift, raise_if, ignore, gets, ◌>>=◌, ◌>>◌}
use babilonia.Game.{Outcome, dealer_wins}
use babilonia.Messages.Funding.{CoopReveal, encode_coop_reveal, decode_coop_reveal}
use babilonia.Bet.Library.{Library}
use babilonia.Bet.State.{
  BetRole, AliceSecrets, BobSecrets, SetupResult, GameParams, dealer, player, pick, done,
}
use babilonia.Bet.Env.{Env, M, call, act, ask, sent, broadcast, step_budget}
use babilonia.Bet.Amounts.{settlement_rest}
use babilonia.Bet.Agreement.{spent}
use babilonia.Bet.Persist.{state, persist, wait_confirmed, recv_deadline, set_witness}
use babilonia.Bet.Claim.{pot, settle_txid, keep_a_c}
use babilonia.Reveal.{extract_a_c, won}
use babilonia.Setup.Graph.{tx_out}

module _ (lib : Library) (env : Env lib) where
  abbrev pot_output : GameParams → Transaction → Option TxOut
  pot_output p tx = get_elem? tx.output p.u1_outpoint.vout

  -- The output of the funding transaction that the pot is.
  unfoldable pub u1_prevout : M lib env TxOut
  u1_prevout = do
    funding ← ask lib env (λ b. b.funding_tx)
    tx ← lift (ok_or funding (protocol "no funding tx"))
    p ← ask lib env (λ b. b.params)
    lift (ok_or (pot_output p tx) (protocol "U1 output missing from funding tx"))

  unfoldable pub build_coop_tx : M lib env Transaction
  build_coop_tx = do
    s ← pot lib env
    p ← ask lib env (λ b. b.params)
    c_a_out ← lift (ok_or (settlement_rest p.u1_value s p.fee) (protocol "coop: c_A_out underflow"))
    s_addr ← call lib env env.receive_address
    c_addr ← call lib env env.change_address
    seed ← call lib env env.random_seed
    let outs =
        shuffle_seeded lib.sha256
          (tx_out s (lib.script_pubkey s_addr) ∷ tx_out c_a_out (lib.script_pubkey c_addr) ∷ [])
          seed
    pure (build_settlement p.u1_outpoint outs)

  abbrev is_some : {A : Type 0} → Option A → Bool
  is_some none = false
  is_some (some a) = true

  -- One round of the dealer's watch: the overlay, the settlement, or neither.
  unfoldable pub watch_round :
      Bytes → Bytes → M lib env (Option Outcome) → M lib env (Option Outcome)
  watch_round coop_txid settled rest = do
    coop ← call lib env (env.get_transaction coop_txid)
    if is_some coop then pure (some dealer_wins) else do
      settlement ← call lib env (env.get_transaction settled)
      if is_some settlement then pure none else rest

  unfoldable pub watch_overlay : ℕ → Bytes → Bytes → M lib env (Option Outcome)
  unfolding watch_round
  watch_overlay zero coop_txid settled = watch_round coop_txid settled (pure none)
  watch_overlay (suc n) coop_txid settled =
      watch_round coop_txid settled (watch_overlay n coop_txid settled)

  unfoldable pub dealer_secrets : BetRole lib → Result (AliceSecrets lib)
  dealer_secrets (dealer s) = ok s
  dealer_secrets (player s) = err (protocol "only the dealer runs the coop reveal")

  unfoldable pub dealer_cooperative : M lib env (Option Outcome)
  unfolding watch_overlay dealer_secrets
  dealer_cooperative = do
    role ← ask lib env (λ b. b.role)
    a ← lift (dealer_secrets role)
    s ← state lib env
    final_sig ← lift (ok_or (lib.adapt s.settle_pre a.d) (protocol "settlement adapt failed"))
    coop_tx ← build_coop_tx
    prevout ← u1_prevout
    sighash ← lift (lib.key_spend_sighash coop_tx 0 (prevout ∷ []))
    round_1 ← lift (lib.first_round s.keyagg 0 a.identity.sk s.coop_seed)
    round_2 ← lift (lib.sign round_1.0 1 s.coop_peer_nonce a.identity.sk sighash)
    let frame = encode_coop_reveal lib.wire (record {
      settle_sig = lib.signature_bytes final_sig;
      coop_tx = coop_tx;
      alice_partial = round_2.1;
    })
    act lib env (sent frame) (env.send frame)
    settled ← settle_txid lib env
    network ← ask lib env (λ b. b.network)
    n ← gets (λ st. env.rounds (step_budget network) st.world)
    watch_overlay n (lib.compute_txid coop_tx) settled

  unfoldable pub player_secrets : BetRole lib → Result (BobSecrets lib)
  player_secrets (player s) = ok s
  player_secrets (dealer s) = err (protocol "only the player answers the coop reveal")

  -- `tx.input.first().map(|i| i.previous_output) == Some(u1)`.
  abbrev spends : List OutPoint → OutPoint → Bool
  spends [] u1 = false
  spends (o ∷ os) u1 = decide (outpoints-discrete (o ∷ []) (u1 ∷ []))

  -- Won: the settlement is broadcast, and the claim is left to the way on the chain.
  unfoldable pub coop_won : SetupResult lib → CoopReveal lib.wire → M lib env (Option Outcome)
  coop_won s reveal = do
    let settlement = set_witness s.settle_tx (reveal.settle_sig ∷ [])
    ignore (act lib env (broadcast settlement) (env.broadcast_tx settlement))
    pure none

  -- Lost: the dealer's spend of the pot is completed and broadcast.
  unfoldable pub coop_lost :
      SetupResult lib → lib.SecretKey → CoopReveal lib.wire → M lib env (Option Outcome)
  coop_lost s b_sk reveal = do
    p ← ask lib env (λ b. b.params)
    raise_if (not (spends (spent reveal.coop_tx.input) p.u1_outpoint))
        (protocol "coop tx does not spend U1")
    prevout ← u1_prevout
    sighash ← lift (lib.key_spend_sighash reveal.coop_tx 0 (prevout ∷ []))
    round_1 ← lift (lib.first_round s.keyagg 1 b_sk s.coop_seed)
    round_2 ← lift (lib.sign round_1.0 0 s.coop_peer_nonce b_sk sighash)
    round_3 ← lift (lib.receive round_2.0 0 reveal.alice_partial)
    sig ← lift (lib.finalize_plain round_3)
    let tx = set_witness reveal.coop_tx (lib.signature_bytes sig ∷ [])
    txid ← act lib env (broadcast tx) (env.broadcast_tx tx)
    wait_confirmed lib env txid 1
    persist lib env done
    pure (some dealer_wins)

  unfoldable pub answer_reveal :
      BobSecrets lib → SetupResult lib → Option Bytes → M lib env (Option Outcome)
  unfolding coop_won coop_lost
  answer_reveal b s none = pure none
  answer_reveal b s (some frame) = do
    reveal ← lift (decode_coop_reveal lib.wire frame)
    scheme ← ask lib env (λ bet. bet.params.pi_a_scheme)
    a_c ← lift (
        extract_a_c lib (protocol "could not extract d from the reveal") scheme s.settle_pre s.ctxt
          reveal.settle_sig)
    keep_a_c lib env a_c
    if won lib a_c (pick b.guess s.thimble_0 s.thimble_1)
        then coop_won s reveal
        else coop_lost s b.funding.sk reveal

  unfoldable pub player_cooperative : M lib env (Option Outcome)
  unfolding answer_reveal player_secrets
  player_cooperative = do
    role ← ask lib env (λ b. b.role)
    b ← lift (player_secrets role)
    s ← state lib env
    network ← ask lib env (λ bet. bet.network)
    frame ← recv_deadline lib env (step_budget network)
    answer_reveal b s frame
