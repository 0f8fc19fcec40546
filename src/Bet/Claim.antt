-- ===== src/Bet/Claim.antt =====
-- The claim output of src/bet.rs: its outpoint and value, its spends by the player and by the dealer,
-- and what each party observes.
use babilonia.Prelude.{
  ℕ, zero, suc, ◌+◌, Bool, if◌then◌else◌, Option, none, some, List, [], ◌∷◌, Result, ok, err,
  protocol, ok_or,
}
use babilonia.Bytes.{Bytes}
use babilonia.Tx.{OutPoint, TxIn, Transaction, build_claim_spend}
use babilonia.Tx.Shuffle.{shuffle_seeded}
use babilonia.Tx.Split.{split_payment}
use babilonia.Action.{pure, lift, gets, ◌>>=◌, ◌>>◌}
use babilonia.Game.{Outcome, player_wins, dealer_wins}
use babilonia.Bet.Library.{Library}
use babilonia.Bet.State.{BetRole, Bet, dealer, player, pick, observed}
use babilonia.Bet.Env.{Env, M, call, act, ask, update, broadcast, step_budget}
use babilonia.Bet.Amounts.{checked_sub}
use babilonia.Bet.Agreement.{position}
use babilonia.Bet.Persist.{state, persist, poll_tx, wait_confirmed, set_witness}
use babilonia.Reveal.{extract_a_c, won}
use babilonia.Setup.Graph.{tx_out}

-- `tx.input[0].witness.iter().next()`; a transaction of the chain has an input.
abbrev first_item : List Bytes → Option Bytes
first_item [] = none
first_item (w ∷ ws) = some w

abbrev pub first_witness : List TxIn → Option Bytes
first_witness [] = none
first_witness (i ∷ is) = first_item i.witness

abbrev vout_of : Bytes → Option (ℕ × ℕ) → Option OutPoint
vout_of txid none = none
vout_of txid (some (i, value)) = some (record { txid = txid; vout = i })

-- `O_K`, by the script of the claim output.
unfoldable pub find_o_k : Bytes → Bytes → Transaction → Option OutPoint
unfolding position
find_o_k spk txid tx = vout_of txid (position spk 0 tx.output)

module _ (lib : Library) (env : Env lib) where
  -- The value of the claim output, `Bet::pot`.
  unfoldable pub pot : M lib env ℕ
  pot = ask lib env (λ b. b.params.alice_stake + b.params.bob_stake)

  unfoldable pub claim_output : M lib env (Bytes × lib.SpendInfo)
  claim_output = do
    s ← state lib env
    p ← ask lib env (λ b. b.params)
    lift (lib.claim_output s.k s.p_a p.alice_timeout)

  unfoldable pub settle_txid : M lib env Bytes
  settle_txid = do s ← state lib env; pure (lib.compute_txid s.settle_tx)

  unfoldable pub o_k_outpoint : M lib env OutPoint
  o_k_outpoint = do
    s ← state lib env
    claim ← claim_output
    lift (
        ok_or (find_o_k claim.0 (lib.compute_txid s.settle_tx) s.settle_tx)
          (protocol "O_K not found in settlement outputs"))

  abbrev with_a_c : lib.wire.Scalar → Bet lib → Bet lib
  with_a_c a_c b = record b { recovered_a_c = some a_c }

  -- `self.recovered_a_c = Some(a_c)`.
  unfoldable pub keep_a_c : lib.wire.Scalar → M lib env (Unit {0})
  keep_a_c a_c = update lib env (with_a_c a_c)

  unfoldable pub player_observe : Bool → M lib env Outcome
  player_observe guess = do
    s ← state lib env
    txid ← settle_txid
    network ← ask lib env (λ b. b.network)
    tx ← poll_tx lib env txid (step_budget network)
    sig ← lift (ok_or (first_witness tx.input) (protocol "no settlement witness"))
    scheme ← ask lib env (λ b. b.params.pi_a_scheme)
    a_c ← lift (
        extract_a_c lib (protocol "could not extract d from settlement") scheme s.settle_pre s.ctxt
          sig)
    keep_a_c a_c
    persist lib env observed
    pure (if won lib a_c (pick guess s.thimble_0 s.thimble_1) then player_wins else dealer_wins)

  unfoldable pub watch_claim : ℕ → OutPoint → M lib env Outcome
  watch_claim zero claim = do
    unspent ← call lib env (env.utxo_unspent claim)
    pure (if unspent then dealer_wins else player_wins)
  watch_claim (suc n) claim = do
    unspent ← call lib env (env.utxo_unspent claim)
    if unspent then watch_claim n claim else pure player_wins

  unfoldable pub dealer_observe : M lib env Outcome
  unfolding watch_claim
  dealer_observe = do
    claim ← o_k_outpoint
    network ← ask lib env (λ b. b.network)
    n ← gets (λ s. env.rounds (step_budget network + step_budget network) s.world)
    watch_claim n claim

  -- The unsigned spend of the claim output, its value and its spend information.
  pub record ClaimSpend : Type 0 where
    pub tx : Transaction
    pub value : ℕ
    pub claim : Bytes × lib.SpendInfo

  unfoldable pub build_claim_spend_tx : ℕ → M lib env ClaimSpend
  build_claim_spend_tx sequence = do
    claim ← claim_output
    value ← pot
    claim_out ← o_k_outpoint
    fee ← ask lib env (λ b. b.params.fee)
    out_value ← lift (ok_or (checked_sub value fee) (protocol "fee exceeds claim"))
    split ← lift (split_payment out_value)
    pay_addr ← call lib env env.receive_address
    change_addr ← call lib env env.change_address
    seed ← call lib env env.random_seed
    let outs =
        shuffle_seeded lib.sha256
          (tx_out split.0 (lib.script_pubkey pay_addr)
            ∷ tx_out split.1 (lib.script_pubkey change_addr)
            ∷ [])
          seed
    pure (record { tx = build_claim_spend claim_out sequence outs; value = value; claim = claim })

  unfoldable pub reclaim_key : BetRole lib → Result lib.SecretKey
  reclaim_key (dealer s) = ok s.identity.sk
  reclaim_key (player s) = err (protocol "only the dealer reclaims")

  unfoldable pub build_reclaim_tx : M lib env Transaction
  unfolding reclaim_key
  build_reclaim_tx = do
    role ← ask lib env (λ b. b.role)
    sk ← lift (reclaim_key role)
    timeout ← ask lib env (λ b. b.params.alice_timeout)
    spend ← build_claim_spend_tx timeout
    sighash ←
        lift
          (lib.leaf_spend_sighash spend.tx 0 (tx_out spend.value spend.claim.0 ∷ []) spend.claim.1)
    sig ← lift (lib.sign_leaf (lib.secret_scalar sk) sighash)
    cb ← lift (lib.control_block spend.claim.1)
    pure (set_witness spend.tx (sig ∷ lib.leaf_script spend.claim.1 ∷ cb ∷ []))

  unfoldable pub submit_claim : Transaction → M lib env (Unit {0})
  submit_claim tx = do
    txid ← act lib env (broadcast tx) (env.broadcast_tx tx)
    wait_confirmed lib env txid 1
