-- ===== src/Agent/Core.antt =====
-- The handlers of the node core's loop (`impl NodeCore` of src/agent.rs).
pub mod Recovery
use babilonia.Prelude.{
  ℕ, ◌+◌, ◌%◌, ◌^◌, Bool, true, false, ◌==◌, if◌then◌else◌, Option, none, some, List, [], ◌∷◌,
  Error, Result, ok, err, ◌⊎◌, inl, inr,
}
use babilonia.Bytes.{Bytes}
use babilonia.Text.{Text}
use babilonia.Action.{Action, pure, ◌>>=◌, ◌>>◌}
use babilonia.Terms.{ProposeTerms}
use babilonia.Bet.Library.{Library, Scheme, squaring, poseidon}
use babilonia.Bet.Env.{Env}
use babilonia.Agent.Config.{Config, apply, to_text}
use babilonia.Agent.Events.{Command, Event, Note, Failure, WorkerEvent, Input, Instr}
use babilonia.Agent.Node.{
  Policies, Peer, Worker, NodeCore, Backend, Node, H, outside, emit, set_core, instruct,
}
use babilonia.Agent.Core.Recovery.{respond, recover_cmd}

unfoldable pub refund_locktime_offset : ℕ
refund_locktime_offset = 100

-- `height + REFUND_LOCKTIME_OFFSET` of `u32`.
unfoldable pub refund_height : ℕ → ℕ
unfolding refund_locktime_offset
refund_height height = (height + refund_locktime_offset) % 2 ^ 32

abbrev scheme_byte : Scheme → ℕ
scheme_byte poseidon = 1
scheme_byte squaring = 0

unfoldable pub terms_of : Config → ℕ → ℕ → ProposeTerms
unfolding refund_height
terms_of config stake height = record {
  stake_sats = stake;
  fee_sats = config.fee_sats;
  refund_locktime = refund_height height;
  alice_timeout = config.alice_timeout;
  scheme = scheme_byte config.pi_a_scheme;
}

unfoldable pub msg_hello : Bytes
msg_hello = 0 ∷ []

module _ (lib : Library) (env : Env lib) (policies : Policies) (backend : Backend lib env) where
  abbrev Handler : Type 0
  Handler = Node lib env → Node lib env

  abbrev fail : Failure → Handler
  fail f = emit lib env (Event.error f)

  abbrev tell : Note → Handler
  tell m = emit lib env (Event.info m)

  unfoldable pub connect : Text → Handler
  connect addr =
      respond lib env (outside lib env (backend.dial addr))
        (λ done n.
          set_core lib env (λ c. record c { dialed = some addr }) (tell (Note.dialing addr) n))
        (λ e. fail (Failure.dial e))

  unfoldable pub propose_at : Config → ℕ → ℕ → Handler
  propose_at config stake height n =
      tell (Note.proposed_bet stake)
        (instruct lib env (Instr.propose (terms_of config stake height)) n)

  unfoldable pub propose_stake : Config → Option ℕ → Handler
  unfolding propose_at
  propose_stake config none = fail Failure.declined
  propose_stake config (some stake) =
      respond lib env (do outside lib env backend.chain; outside lib env env.block_height)
        (λ height. propose_at config stake height) (λ e. fail (Failure.height e))

  -- `NodeCore::propose`.
  unfoldable pub propose_to : Config → Option Peer → Handler
  unfolding propose_stake
  propose_to config none = fail Failure.no_peer
  propose_to config (some peer) =
      respond lib env (do outside lib env backend.wallet; outside lib env backend.utxo_values)
        (λ utxos. propose_stake config (policies.stake_sats utxos config))
        (λ e. fail (Failure.utxos e))

  unfoldable pub propose : Handler
  unfolding propose_to
  propose n = propose_to n.core.config n.core.peer n

  -- `NodeCore::decide`: the bet that is pending has this id, and there is a peer.
  abbrev pub matches : Option (ℕ × ℕ) → Option Peer → ℕ → Bool
  matches none peer id = false
  matches (some (pid, stake)) none id = false
  matches (some (pid, stake)) (some peer) id = pid == id

  abbrev pub answer : Bool → Handler
  answer true n = instruct lib env Instr.accept n
  answer false n =
      set_core lib env (λ c. record c { pending = none }) (instruct lib env Instr.reject n)

  unfoldable pub decide : ℕ → Bool → Handler
  decide id accept n =
      if matches n.core.pending n.core.peer id
      then answer accept n
      else fail (Failure.no_pending_bet id) n

  unfoldable pub save_to : Option Text → Config → Handler
  save_to none config n = n
  save_to (some path) config n =
      respond lib env (outside lib env (backend.write_config path (to_text backend.names config)))
        (λ done n. n) (λ e. fail (Failure.save_config e)) n

  unfoldable pub push_config : Option Peer → Config → Handler
  push_config none config n = n
  push_config (some peer) config n = instruct lib env (Instr.config config) n

  unfoldable pub keep_setting : Text → Text → Text ⊎ Config → Handler
  unfolding save_to push_config
  keep_setting key value (inl message) n = fail (Failure.refused message) n
  keep_setting key value (inr config) n =
      let set = set_core lib env (λ c. record c { config = config }) n in
      let saved = save_to set.core.config_path config set in
      tell (Note.setting key value) (push_config saved.core.peer config saved)

  -- `NodeCore::set_config`.
  unfoldable pub set_config : Text → Text → Handler
  unfolding keep_setting
  set_config key value n = keep_setting key value (apply backend.names n.core.config key value) n

  -- `NodeCore::handle_worker`; the count of the bets stays below 2 ^ 64.
  unfoldable pub addr_of : Option Peer → Text
  addr_of none = []
  addr_of (some peer) = peer.addr

  unfoldable pub handle_worker : WorkerEvent → Handler
  unfolding addr_of
  handle_worker (WorkerEvent.proposed stake) n =
      let id = n.core.next_bet_id in
      let counted =
        set_core lib env
          (λ c. record c { next_bet_id = c.next_bet_id + 1; pending = some (id, stake) }) n in
      emit lib env (Event.proposed id (addr_of n.core.peer) stake) counted
  handle_worker (WorkerEvent.outcome o) n =
      emit lib env (Event.outcome o) (set_core lib env (λ c. record c { pending = none }) n)
  handle_worker (WorkerEvent.info m) n = tell m n
  handle_worker (WorkerEvent.error f) n = fail f n

  -- `NodeCore::spawn_peer`; the transport stays in the world. A dialer says hello to it first.
  unfoldable pub say_hello : Bool → env.World → env.World
  say_hello false w = w
  say_hello true w = (env.send msg_hello w).1

  unfoldable pub spawn_peer : Text → Bool → Handler
  unfolding say_hello
  spawn_peer addr send_hello n = record n {
    core = record n.core { peer = some (record { addr = addr }) };
    worker = some (record { config = n.core.config; pending_terms = none });
    instrs = [];
    world = say_hello send_hello n.world;
  }

  abbrev is_some : Option Text → Bool
  is_some none = false
  is_some (some t) = true

  unfoldable pub register : Option Text → Handler
  unfolding spawn_peer
  register none n = n
  register (some addr) n =
      emit lib env (Event.connected addr) (spawn_peer addr (is_some n.core.dialed) n)

  -- `NodeCore::poll_accept`.
  unfoldable pub poll_without : Option Peer → Handler
  unfolding register
  poll_without (some peer) n = n
  poll_without none n =
      respond lib env (outside lib env (backend.accept n.core.dialed)) register (λ e n'. n') n

  unfoldable pub poll_accept : Handler
  unfolding poll_without
  poll_accept n = poll_without n.core.peer n

  -- The end of `NodeCore::run`: the worker is told to quit, if there is one.
  abbrev pub quit_to : Option Peer → Handler
  quit_to none n = n
  quit_to (some peer) n = instruct lib env Instr.quit n

  -- `NodeCore::handle_command`.
  unfoldable pub handle_command : Command → Handler
  unfolding connect propose decide set_config
  handle_command (Command.connect addr) = connect addr
  handle_command Command.propose = propose
  handle_command (Command.accept id) = decide id true
  handle_command (Command.reject id) = decide id false
  handle_command Command.receive =
      respond lib env (do outside lib env backend.wallet; outside lib env env.receive_address)
        (λ a. emit lib env (Event.address a)) (λ e. fail (Failure.receive e))
  handle_command Command.balance =
      respond lib env (do outside lib env backend.wallet; outside lib env backend.balance)
        (λ b. emit lib env (Event.balance b)) (λ e. fail (Failure.balance e))
  handle_command (Command.send address sats) =
      respond lib env
        (do outside lib env backend.wallet; outside lib env (backend.send_to address sats))
        (λ txid. tell (Note.sent_to sats address txid)) (λ e. fail (Failure.send e))
  handle_command (Command.set key value) = set_config key value
  handle_command Command.show_config = λ n. emit lib env (Event.config n.core.config) n
  handle_command (Command.recover id refund) = recover_cmd lib env backend id refund
  handle_command Command.quit = λ n. record (quit_to n.core.peer n) { running = false }

  -- One turn of `NodeCore::run`.
  unfoldable pub handle : Input → Handler
  unfolding handle_command handle_worker poll_accept
  handle (Input.command c) = handle_command c
  handle (Input.worker e) = handle_worker e
  handle Input.tick = poll_accept
