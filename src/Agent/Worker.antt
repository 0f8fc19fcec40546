-- ===== src/Agent/Worker.antt =====
-- The peer worker of src/agent.rs: its loop over incoming frames and instructions, and the bets that
-- it plays. Where the worker ends, its slot in the node is cleared.
use babilonia.Prelude.{
  Bool, true, false, if◌then◌else◌, Option, none, some, List, [], ◌∷◌, Result, ok, err,
}
use babilonia.Bytes.{Bytes}
use babilonia.Text.{◌=ᵗ◌}
use babilonia.Action.{Action}
use babilonia.Game.{Outcome, play_dealer, play_player}
use babilonia.Terms.{ProposeTerms, encode_terms, decode_terms, scheme_of, scheme_supported}
use babilonia.Tx.{OutPoint}
use babilonia.Messages.Sample.{zeros}
use babilonia.Bet.Library.{Library}
use babilonia.Bet.State.{GameParams, BetRole, dealer, player, new_bet}
use babilonia.Bet.Env.{Env, St}
use babilonia.Bet.Verbs.{bet_chain}
use babilonia.Agent.Config.{Config}
use babilonia.Agent.Policy.{AcceptDecision, accept, reject, ask}
use babilonia.Agent.Events.{Note, Failure, WorkerEvent, Instr}
use babilonia.Agent.Node.{Policies, Worker, Backend, Node, outside, report}
use babilonia.Agent.Core.Recovery.{respond}

-- `OutPoint::null()`.
abbrev null_outpoint : OutPoint
null_outpoint = record { txid = zeros 32; vout = 0xffff_ffff }

-- `ProposeTerms::game_params`; the rest is filled in by `fund_pot`.
unfoldable pub game_params : ProposeTerms → GameParams
game_params t = record {
  u1_outpoint = null_outpoint;
  u1_value = 0;
  alice_stake = t.stake_sats;
  bob_stake = t.stake_sats;
  fee = t.fee_sats;
  refund_locktime = t.refund_locktime;
  alice_timeout = t.alice_timeout;
  pi_a_scheme = scheme_of t;
  alice_payout = [];
  bob_payout = [];
}

unfoldable pub msg_accept : Bytes
msg_accept = 2 ∷ []

unfoldable pub msg_reject : Bytes
msg_reject = 3 ∷ []

module _ (lib : Library) (env : Env lib) (policies : Policies) (backend : Backend lib env) where
  abbrev Handler : Type 0
  Handler = Node lib env → Node lib env

  abbrev pub set_worker : Option Worker → Handler
  set_worker w n = record n { worker = w }

  abbrev tell : Note → Handler
  tell m = report lib env (WorkerEvent.info m)

  abbrev fail : Failure → Handler
  fail f = report lib env (WorkerEvent.error f)

  -- A bet from its start to its end, over the node's world.
  abbrev ends : Result Outcome → WorkerEvent
  ends (ok o) = WorkerEvent.outcome o
  ends (err e) = WorkerEvent.error (Failure.bet_failed e)

  abbrev side_is_dealer : BetRole lib → Bool
  side_is_dealer (dealer s) = true
  side_is_dealer (player s) = false

  unfoldable pub begin_bet : Config → ProposeTerms → BetRole lib → Bytes → env.World → St lib env
  begin_bet config t role id w = record {
    bet = new_bet lib config.network (game_params t) role id config.state_dir;
    world = w;
    log = [];
  }

  unfoldable pub play_role : BetRole lib → Action (St lib env) Outcome
  play_role (dealer s) = play_dealer (bet_chain lib env)
  play_role (player s) = play_player (bet_chain lib env)

  unfoldable pub play_open : Config → ProposeTerms → BetRole lib → Handler
  unfolding begin_bet
  play_open config t role n =
      let (id, w) = backend.fresh_id n.world in
      let (r, s) = play_role role (begin_bet config t role id w) in
      report lib env (ends r) (record n {
        world = s.world;
        played =
            record {
              terms = t;
              is_dealer = side_is_dealer role;
              dir = config.state_dir;
              log = s.log;
            }
            ∷ n.played;
      })

  -- `play`: the wallet and the chain are both opened first, the chain also without a wallet.
  unfoldable pub play : Config → ProposeTerms → BetRole lib → Handler
  unfolding play_open
  play config t role =
      respond lib env (outside lib env backend.wallet)
        (λ opened.
          respond lib env (outside lib env backend.chain) (λ done. play_open config t role)
            (λ e. fail Failure.no_wallet_or_chain))
        (λ e.
          respond lib env (outside lib env backend.chain) (λ done. fail Failure.no_wallet_or_chain)
            (λ f. fail Failure.no_wallet_or_chain))

  unfoldable pub run_dealer : Config → ProposeTerms → Handler
  unfolding play
  run_dealer config t n =
      let (alice, w) = backend.fresh_dealer n.world in
      play config t (dealer alice) (record n { world = w })

  unfoldable pub run_player : Config → ProposeTerms → Handler
  unfolding play
  run_player config t n =
      let (bob, w) = backend.fresh_player n.world in
      play config t (player bob) (record n { world = w })

  unfoldable pub on_reply : Config → ProposeTerms → Bytes → Handler
  unfolding run_dealer
  on_reply config t resp =
      if resp =ᵗ msg_accept
      then run_dealer config t
      else if resp =ᵗ msg_reject
      then tell Note.peer_rejected
      else fail Failure.unexpected_reply

  -- `run_proposer`.
  unfoldable pub run_proposer : Config → ProposeTerms → Handler
  unfolding on_reply
  run_proposer config t =
      respond lib env (outside lib env (env.send (encode_terms t)))
        (λ done.
          respond lib env (outside lib env env.recv) (on_reply config t)
            (λ e. fail (Failure.propose_failed e)))
        (λ e. fail Failure.propose_send_failed)

  -- `if transport.send(MSG_ACCEPT).is_ok() { run_player(..) }`.
  unfoldable pub accept_terms : Config → ProposeTerms → Handler
  unfolding run_player
  accept_terms config t =
      respond lib env (outside lib env (env.send msg_accept)) (λ done. run_player config t)
        (λ e n. n)

  -- `let _ = transport.send(MSG_REJECT);`.
  unfoldable pub send_reject : Handler
  send_reject n = (outside lib env (env.send msg_reject) n).1

  unfoldable pub on_decision : Config → ProposeTerms → AcceptDecision → Handler
  unfolding accept_terms send_reject
  on_decision config t accept n = accept_terms config t (tell (Note.accepting t.stake_sats) n)
  on_decision config t reject n = send_reject n
  on_decision config t ask n =
      set_worker (some (record { config = config; pending_terms = some t }))
        (report lib env (WorkerEvent.proposed t.stake_sats) n)

  unfoldable pub on_proposal : Config → Option ProposeTerms → Handler
  unfolding on_decision send_reject
  on_proposal config none n = n
  on_proposal config (some t) n =
      if scheme_supported t
      then on_decision config t (policies.decide t.stake_sats config) n
      else send_reject (tell Note.disabled_scheme n)

  unfoldable pub on_frame : Config → Option Bytes → Handler
  unfolding on_proposal
  on_frame config none n = n
  on_frame config (some frame) n = on_proposal config (decode_terms frame) n

  -- The first half of a turn: a frame that may have come in. The peer may be gone.
  unfoldable pub poll_frame : Worker → Handler
  unfolding on_frame
  poll_frame w =
      respond lib env (outside lib env env.try_recv) (on_frame w.config) (λ e. set_worker none)

  unfoldable pub accept_pending : Worker → Option ProposeTerms → Handler
  unfolding accept_terms
  accept_pending w none n = n
  accept_pending w (some t) n =
      accept_terms w.config t (set_worker (some (record w { pending_terms = none })) n)

  -- The second half: an instruction that may wait.
  unfoldable pub on_instr : Worker → Instr → Handler
  unfolding run_proposer accept_pending send_reject
  on_instr w (Instr.propose t) n = run_proposer w.config t n
  on_instr w Instr.accept n = accept_pending w w.pending_terms n
  on_instr w Instr.reject n = set_worker (some (record w { pending_terms = none })) (send_reject n)
  on_instr w (Instr.config c) n = set_worker (some (record w { config = c })) n
  on_instr w Instr.quit n = set_worker none n

  unfoldable pub poll_instr : Worker → List Instr → Handler
  unfolding on_instr
  poll_instr w [] n = n
  poll_instr w (i ∷ is) n = on_instr w i (record n { instrs = is })
