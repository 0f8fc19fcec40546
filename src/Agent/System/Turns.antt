-- ===== src/Agent/System/Turns.antt =====
-- Each turn of the core keeps the node good.
use babilonia.Prelude.{ℕ, ◌+◌, Bool, true, false, Option, none, some, List, ◌∷◌, arith}
use babilonia.Text.{Text}
use babilonia.Bet.Library.{Library}
use babilonia.Bet.Env.{Env}
use babilonia.Agent.Events.{Command, Event, Note, Failure, WorkerEvent, Input, Instr}
use babilonia.Agent.Node.{Policies, Peer, Backend, Node}
use babilonia.Agent.Core.{
  handle_worker, addr_of, spawn_peer, register, poll_without, poll_accept, handle_command, handle,
  quit_to,
}
use babilonia.Agent.System.Recovery.{recover_cmd-Preserves}
use babilonia.Agent.System.Commands.{
  still, connect-Preserves, propose-Preserves, decide-Preserves, set_config-Preserves, opened-Keeps,
  forget_pending,
}
use babilonia.Agent.System.Kept.{
  FreshIds, Shown, IsGood, Preserves, outside-Keeps, respond-Preserves, emit-Preserves,
  info-Preserves, error-Preserves, then-Preserves, instruct-Preserves,
}

module _ (lib : Library) (env : Env lib) (policies : Policies) (backend : Backend lib env) where
  shown_next :
      (next : ℕ) (from : Text) (stake : ℕ) (es : List Event)
      → FreshIds next es
      → FreshIds (next + 1) (Event.proposed next from stake ∷ es)
  shown_next next from stake es h = (omega arith, h)

  pub handle_worker-Preserves :
      (e : WorkerEvent) → Preserves lib env (handle_worker lib env policies backend e)
  unfolding handle_worker
  handle_worker-Preserves (WorkerEvent.proposed stake) = record {
    good = λ n h. record {
      config = h.config;
      worker = h.worker;
      instrs = h.instrs;
      played = h.played;
      fresh =
          shown_next n.core.next_bet_id (addr_of lib env policies backend n.core.peer) stake
            n.events h.fresh;
      shown = Shown.now (addr_of lib env policies backend n.core.peer) n.events;
    };
  }
  handle_worker-Preserves (WorkerEvent.outcome o) =
      then-Preserves lib env _ _ (forget_pending lib env policies backend)
        (emit-Preserves lib env (Event.outcome o) (λ next es h. h))
  handle_worker-Preserves (WorkerEvent.info m) = info-Preserves lib env m
  handle_worker-Preserves (WorkerEvent.error f) = error-Preserves lib env f

  spawn_peer-Preserves :
      (addr : Text) (send_hello : Bool)
      → Preserves lib env (spawn_peer lib env policies backend addr send_hello)
  unfolding spawn_peer
  spawn_peer-Preserves addr send_hello = record {
    good = λ n h. record {
      config = h.config;
      worker = record { config = h.config; pending = tt };
      instrs = tt;
      played = h.played;
      fresh = h.fresh;
      shown = h.shown;
    };
  }

  register-Preserves : (o : Option Text) → Preserves lib env (register lib env policies backend o)
  unfolding register
  register-Preserves none = still lib env policies backend
  register-Preserves (some addr) = record {
    good = λ n h.
        (emit-Preserves lib env (Event.connected addr) (λ next es k. k)).good _
          ((spawn_peer-Preserves addr _).good n h);
  }

  poll_without-Preserves :
      (o : Option Peer) → Preserves lib env (poll_without lib env policies backend o)
  unfolding poll_without
  poll_without-Preserves (some peer) = still lib env policies backend
  poll_without-Preserves none = record {
    good = λ n h.
        (respond-Preserves lib env _ _ _ (outside-Keeps lib env (backend.accept n.core.dialed))
            register-Preserves (λ e. still lib env policies backend)).good
          n h;
  }

  stops : (n : Node lib env) → IsGood lib env n → IsGood lib env (record n { running = false })
  stops n h = record {
    config = h.config;
    worker = h.worker;
    instrs = h.instrs;
    played = h.played;
    fresh = h.fresh;
    shown = h.shown;
  }

  quit_to-Preserves : (o : Option Peer) → Preserves lib env (quit_to lib env policies backend o)
  quit_to-Preserves none = still lib env policies backend
  quit_to-Preserves (some peer) = instruct-Preserves lib env Instr.quit tt

  pub handle_command-Preserves :
      (c : Command) → Preserves lib env (handle_command lib env policies backend c)
  unfolding handle_command
  handle_command-Preserves (Command.connect addr) = connect-Preserves lib env policies backend addr
  handle_command-Preserves Command.propose = propose-Preserves lib env policies backend
  handle_command-Preserves (Command.accept id) = decide-Preserves lib env policies backend id true
  handle_command-Preserves (Command.reject id) = decide-Preserves lib env policies backend id false
  handle_command-Preserves Command.receive =
      respond-Preserves lib env _ _ _
        (opened-Keeps lib env policies backend backend.wallet env.receive_address)
        (λ a. emit-Preserves lib env (Event.address a) (λ next es h. h))
        (λ e. error-Preserves lib env (Failure.receive e))
  handle_command-Preserves Command.balance =
      respond-Preserves lib env _ _ _
        (opened-Keeps lib env policies backend backend.wallet backend.balance)
        (λ b. emit-Preserves lib env (Event.balance b) (λ next es h. h))
        (λ e. error-Preserves lib env (Failure.balance e))
  handle_command-Preserves (Command.send address sats) =
      respond-Preserves lib env _ _ _
        (opened-Keeps lib env policies backend backend.wallet (backend.send_to address sats))
        (λ txid. info-Preserves lib env (Note.sent_to sats address txid))
        (λ e. error-Preserves lib env (Failure.send e))
  handle_command-Preserves (Command.set key value) =
      set_config-Preserves lib env policies backend key value
  handle_command-Preserves Command.show_config = record {
    good = λ n h. (emit-Preserves lib env (Event.config n.core.config) (λ next es k. k)).good n h;
  }
  handle_command-Preserves (Command.recover id refund) =
      recover_cmd-Preserves lib env backend id refund
  handle_command-Preserves Command.quit = record {
    good = λ n h. stops _ ((quit_to-Preserves n.core.peer).good n h);
  }

  pub handle-Preserves : (i : Input) → Preserves lib env (handle lib env policies backend i)
  unfolding handle poll_accept
  handle-Preserves (Input.command c) = handle_command-Preserves c
  handle-Preserves (Input.worker e) = handle_worker-Preserves e
  handle-Preserves Input.tick = record {
    good = λ n h. (poll_without-Preserves n.core.peer).good n h;
  }
