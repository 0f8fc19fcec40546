-- ===== src/Bet/Quiet/Ops.antt =====
-- The operations of a bet that sign no funding are quiet: each keeps what is stable.
use babilonia.Prelude.{ℕ, zero, suc, Option, none, some}
use babilonia.Bytes.{Bytes}
use babilonia.Tx.{Transaction}
use babilonia.Action.Keeps.{Keeps, Keeps-pure, Keeps-bind, keeps_rules}
use babilonia.Bet.Library.{Library}
use babilonia.Bet.State.{Phase, Bet, BetRole, AliceSecrets, BobSecrets, GameParams, dealer, player}
use babilonia.Bet.Env.{Env, St, M}
use babilonia.Bet.Quiet.{IsStable, Keeps-call, Keeps-if, Keeps-or_else, quiet_rules}
use babilonia.Bet.Persist.{
  state, persist_refund_in, persist_refund, persist_in, persist, wait_loop, wait_confirmed,
  poll_loop, poll_tx, received, recv_loop, recv_deadline, rounds,
}
use babilonia.Bet.Claim.{
  pot, claim_output, settle_txid, o_k_outpoint, keep_a_c, build_claim_spend_tx, build_reclaim_tx,
  submit_claim,
}
use babilonia.Bet.Verbs.{run_setup, prebuild_reclaim}
use babilonia.Setup.Drivers.{send_frame, run_alice, run_bob}

module _ {lib : Library} {env : Env lib} {P : St lib env → Type 0}
    (stable : IsStable lib env P) where
  pub state-Keeps : Keeps P (state lib env)
  unfolding state
  state-Keeps = search (keeps_rules)

  pub persist-Keeps : (phase : Phase) → Keeps P (persist lib env phase)
  unfolding persist persist_in
  persist-Keeps phase = search (keeps_rules, by_dir)
    where
      by_dir :
          (dir : Option Bytes) (phase : Phase) (b : Bet lib)
          → Keeps P (persist_in lib env dir phase b)
      by_dir none phase b = search (keeps_rules)
      by_dir (some dir) phase b = search (keeps_rules, quiet_rules, stable)

  pub persist_refund-Keeps : Keeps P (persist_refund lib env)
  unfolding persist_refund persist_refund_in
  persist_refund-Keeps = search (keeps_rules, by_dir)
    where
      by_dir : (dir : Option Bytes) → Keeps P (persist_refund_in lib env dir)
      by_dir none = search (keeps_rules)
      by_dir (some dir) = search (keeps_rules, quiet_rules, stable, state-Keeps)

  pub wait_loop-Keeps : (n : ℕ) (txid : Bytes) (c : ℕ) → Keeps P (wait_loop lib env n txid c)
  unfolding wait_loop
  wait_loop-Keeps zero txid c = search (keeps_rules, quiet_rules, stable)
  wait_loop-Keeps (suc n) txid c =
      Keeps-bind _ _ (Keeps-call stable _)
        (λ o. Keeps-if _ _ _ (Keeps-pure _) (wait_loop-Keeps n txid c))

  pub wait_confirmed-Keeps : (txid : Bytes) (c : ℕ) → Keeps P (wait_confirmed lib env txid c)
  unfolding wait_confirmed rounds
  wait_confirmed-Keeps txid c = search (keeps_rules, wait_loop-Keeps)

  pub poll_loop-Keeps : (n : ℕ) (txid : Bytes) → Keeps P (poll_loop lib env n txid)
  unfolding poll_loop
  poll_loop-Keeps zero txid = search (keeps_rules, quiet_rules, stable)
  poll_loop-Keeps (suc n) txid =
      Keeps-bind _ _ (Keeps-call stable _) (λ o. Keeps-or_else o _ (poll_loop-Keeps n txid))

  pub poll_tx-Keeps : (txid : Bytes) (t : ℕ) → Keeps P (poll_tx lib env txid t)
  unfolding poll_tx rounds
  poll_tx-Keeps txid t = search (keeps_rules, poll_loop-Keeps)

  pub received-Keeps :
      (o : Option Bytes) (m : M lib env (Option Bytes)) → Keeps P m → Keeps P (received lib env o m)
  unfolding received
  received-Keeps none m k = k
  received-Keeps (some frame) m k = search (keeps_rules)

  pub recv_loop-Keeps : (n : ℕ) → Keeps P (recv_loop lib env n)
  unfolding recv_loop
  recv_loop-Keeps zero = search (keeps_rules, quiet_rules, stable)
  recv_loop-Keeps (suc n) =
      Keeps-bind _ _ (Keeps-call stable _) (λ o. received-Keeps o _ (recv_loop-Keeps n))

  pub recv_deadline-Keeps : (t : ℕ) → Keeps P (recv_deadline lib env t)
  unfolding recv_deadline rounds
  recv_deadline-Keeps t = search (keeps_rules, recv_loop-Keeps)

  pub run_alice-Keeps :
      (p : GameParams) (s : AliceSecrets lib) (k : lib.PublicKey)
      → Keeps P (run_alice lib env p s k)
  unfolding run_alice send_frame
  run_alice-Keeps p s k = search (keeps_rules, quiet_rules, stable) depth 60 fits 3000

  pub run_bob-Keeps :
      (p : GameParams) (s : BobSecrets lib) (k : lib.PublicKey) → Keeps P (run_bob lib env p s k)
  unfolding run_bob send_frame
  run_bob-Keeps p s k = search (keeps_rules, quiet_rules, stable) depth 60 fits 3000

  pub run_setup-Keeps : (r : BetRole lib) (k : lib.PublicKey) → Keeps P (run_setup lib env r k)
  unfolding run_setup
  run_setup-Keeps (dealer s) k = search (keeps_rules, run_alice-Keeps)
  run_setup-Keeps (player s) k = search (keeps_rules, run_bob-Keeps)

  pub settle_txid-Keeps : Keeps P (settle_txid lib env)
  unfolding settle_txid
  settle_txid-Keeps = search (keeps_rules, state-Keeps)

  pub claim_output-Keeps : Keeps P (claim_output lib env)
  unfolding claim_output
  claim_output-Keeps = search (keeps_rules, state-Keeps)

  pub o_k_outpoint-Keeps : Keeps P (o_k_outpoint lib env)
  unfolding o_k_outpoint
  o_k_outpoint-Keeps = search (keeps_rules, state-Keeps, claim_output-Keeps)

  pub pot-Keeps : Keeps P (pot lib env)
  unfolding pot
  pot-Keeps = search (keeps_rules)

  pub keep_a_c-Keeps : (a : lib.wire.Scalar) → Keeps P (keep_a_c lib env a)
  unfolding keep_a_c
  keep_a_c-Keeps a = search (quiet_rules, stable)

  pub build_claim_spend_tx-Keeps : (n : ℕ) → Keeps P (build_claim_spend_tx lib env n)
  unfolding build_claim_spend_tx
  build_claim_spend_tx-Keeps n =
      search (keeps_rules, quiet_rules, stable, claim_output-Keeps, pot-Keeps, o_k_outpoint-Keeps)
        depth 30

  pub build_reclaim_tx-Keeps : Keeps P (build_reclaim_tx lib env)
  unfolding build_reclaim_tx
  build_reclaim_tx-Keeps = search (keeps_rules, build_claim_spend_tx-Keeps) depth 20

  pub submit_claim-Keeps : (tx : Transaction) → Keeps P (submit_claim lib env tx)
  unfolding submit_claim
  submit_claim-Keeps tx = search (keeps_rules, quiet_rules, stable, wait_confirmed-Keeps)

  pub prebuild_reclaim-Keeps : (r : BetRole lib) → Keeps P (prebuild_reclaim lib env r)
  unfolding prebuild_reclaim
  prebuild_reclaim-Keeps (dealer s) =
      search (keeps_rules, quiet_rules, stable, build_reclaim_tx-Keeps)
  prebuild_reclaim-Keeps (player s) = search (keeps_rules)
