-- ===== src/Bet/Verbs.antt =====
-- The verbs of src/bet.rs, `impl BetChain for Bet`; `fund_pot` and `broadcast_funding` are in Funding.
use babilonia.Prelude.{Option, some, [], ◌∷◌, protocol, ok_or}
use babilonia.Tx.{Transaction, final_sequence}
use babilonia.Action.{pure, raise, lift, ◌>>=◌, ◌>>◌}
use babilonia.Game.{Outcome, BetChain}
use babilonia.Bet.Library.{Library}
use babilonia.Bet.State.{BetRole, SetupResult, Bet, dealer, player, setup_done, settled, done}
use babilonia.Bet.Env.{Env, St, M, act, ask, update, broadcast}
use babilonia.Bet.Persist.{state, persist, persist_refund, wait_confirmed, set_witness}
use babilonia.Bet.Funding.{fund_pot, broadcast_funding}
use babilonia.Bet.Claim.{
  settle_txid, player_observe, dealer_observe, build_claim_spend_tx, build_reclaim_tx, submit_claim,
}
use babilonia.Bet.Overlay.{dealer_cooperative, player_cooperative}
use babilonia.Setup.Graph.{tx_out}
use babilonia.Setup.Drivers.{run_alice, run_bob}
use babilonia.Reveal.{claim_secret}

module _ (lib : Library) (env : Env lib) where
  unfoldable pub run_setup : BetRole lib → lib.PublicKey → M lib env (SetupResult lib)
  run_setup (dealer s) peer = do p ← ask lib env (λ b. b.params); run_alice lib env p s peer
  run_setup (player s) peer = do p ← ask lib env (λ b. b.params); run_bob lib env p s peer

  abbrev with_setup : SetupResult lib → Bet lib → Bet lib
  with_setup s b = record b { setup = some s }

  abbrev with_reclaim : Transaction → Bet lib → Bet lib
  with_reclaim tx b = record b { reclaim_tx = some tx }

  -- The dealer's reclaim is built before any funding is broadcast.
  unfoldable pub prebuild_reclaim : BetRole lib → M lib env (Unit {0})
  prebuild_reclaim (player s) = pure tt
  prebuild_reclaim (dealer s) = do tx ← build_reclaim_tx lib env; update lib env (with_reclaim tx)

  unfoldable pub setup : M lib env (Unit {0})
  unfolding run_setup prebuild_reclaim
  setup = do
    peer ← ask lib env (λ b. b.peer_key)
    peer_key ←
        lift (ok_or peer (protocol "peer funding key missing — fund_pot must run before setup"))
    role ← ask lib env (λ b. b.role)
    result ← run_setup role peer_key
    update lib env (with_setup result)
    prebuild_reclaim role
    persist_refund lib env
    persist lib env setup_done

  unfoldable pub resolve_as : BetRole lib → M lib env (Option Outcome)
  resolve_as (dealer s) = dealer_cooperative lib env
  resolve_as (player s) = player_cooperative lib env

  unfoldable pub try_cooperative_resolve : M lib env (Option Outcome)
  unfolding resolve_as
  try_cooperative_resolve = do role ← ask lib env (λ b. b.role); resolve_as role

  unfoldable pub settle_as : BetRole lib → M lib env (Unit {0})
  settle_as (player s) = raise (protocol "only the dealer settles")
  settle_as (dealer a) = do
    s ← state lib env
    sig ← lift (ok_or (lib.adapt s.settle_pre a.d) (protocol "settlement adapt failed"))
    let tx = set_witness s.settle_tx (lib.signature_bytes sig ∷ [])
    txid ← act lib env (broadcast tx) (env.broadcast_tx tx)
    wait_confirmed lib env txid 1
    persist lib env settled

  unfoldable pub settle : M lib env (Unit {0})
  unfolding settle_as
  settle = do role ← ask lib env (λ b. b.role); settle_as role

  unfoldable pub observe_as : BetRole lib → M lib env Outcome
  observe_as (dealer s) = do outcome ← dealer_observe lib env; persist lib env done; pure outcome
  observe_as (player s) = player_observe lib env s.guess

  unfoldable pub observe_outcome : M lib env Outcome
  unfolding observe_as
  observe_outcome = do role ← ask lib env (λ b. b.role); observe_as role

  unfoldable pub claim_as : BetRole lib → M lib env (Unit {0})
  claim_as (dealer s) = raise (protocol "only the player claims a win")
  claim_as (player b) = do
    recovered ← ask lib env (λ bet. bet.recovered_a_c)
    a_c ← lift (ok_or recovered (protocol "outcome not observed"))
    claim_sk ← lift (claim_secret lib (lib.secret_scalar b.claim.sk) a_c)
    spend ← build_claim_spend_tx lib env final_sequence
    sighash ← lift (lib.key_spend_sighash spend.tx 0 (tx_out spend.value spend.claim.0 ∷ []))
    sig ← lift (lib.sign_key_path claim_sk spend.claim.1 sighash)
    submit_claim lib env (set_witness spend.tx (sig ∷ []))
    persist lib env done

  unfoldable pub claim_win : M lib env (Unit {0})
  unfolding claim_as
  claim_win = do role ← ask lib env (λ b. b.role); claim_as role

  unfoldable pub dealer_take_on_loss : M lib env (Unit {0})
  dealer_take_on_loss = do
    txid ← settle_txid lib env
    timeout ← ask lib env (λ b. b.params.alice_timeout)
    wait_confirmed lib env txid timeout
    reclaim ← ask lib env (λ b. b.reclaim_tx)
    tx ← lift (ok_or reclaim (protocol "reclaim tx not pre-built at setup"))
    submit_claim lib env tx

  abbrev pub bet_chain : BetChain (St lib env)
  bet_chain = record {
    fund_pot = fund_pot lib env;
    setup = setup;
    broadcast_funding = broadcast_funding lib env;
    try_cooperative_resolve = try_cooperative_resolve;
    settle = settle;
    observe_outcome = observe_outcome;
    claim_win = claim_win;
    dealer_take_on_loss = dealer_take_on_loss;
  }
