-- ===== src/Agent/Events.antt =====
-- What goes over the channels of src/agent.rs. A message is what it says, by a constructor; the
-- source formats it to a text.
use babilonia.Prelude.{ℕ, Error, Option, Bool}
use babilonia.Text.{Text}
use babilonia.Game.{Outcome}
use babilonia.Terms.{ProposeTerms}
use babilonia.Recover.{Assessment, Report}
use babilonia.Agent.Config.{Config}

pub data Command : Type 0 where
  connect : Text → Command
  propose : Command
  accept reject : ℕ → Command
  receive balance : Command
  send : Text → ℕ → Command
  set : Text → Text → Command
  show_config : Command
  recover : Option Text → Bool → Command
  quit : Command

-- The messages of `Info`.
pub data Note : Type 0 where
  dialing : Text → Note
  sent_to : ℕ → Text → Text → Note
  proposed_bet : ℕ → Note
  setting : Text → Text → Note
  recoverable : Text → Assessment → Note
  nothing_recoverable : Text → Note
  recovered : Text → Report → Note
  disabled_scheme : Note
  accepting : ℕ → Note
  peer_rejected : Note

-- The messages of `Error`.
pub data Failure : Type 0 where
  dial receive balance send recover_chain recover_load utxos height save_config : Error → Failure
  no_peer declined no_state_dir : Failure
  recover_failed : Text → Error → Failure
  no_bet_matching : Text → Failure
  no_pending_bet : ℕ → Failure
  refused : Text → Failure
  propose_send_failed unexpected_reply no_wallet_or_chain : Failure
  propose_failed bet_failed : Error → Failure

pub data Event : Type 0 where
  connected : Text → Event
  proposed : ℕ → Text → ℕ → Event
  outcome : Outcome → Event
  address : Text → Event
  balance : ℕ → Event
  config : Config → Event
  info : Note → Event
  error : Failure → Event

-- From a worker to the core.
pub data WorkerEvent : Type 0 where
  proposed : ℕ → WorkerEvent
  outcome : Outcome → WorkerEvent
  info : Note → WorkerEvent
  error : Failure → WorkerEvent

-- The core's inputs.
pub data Input : Type 0 where
  command : Command → Input
  worker : WorkerEvent → Input
  tick : Input

-- From the core to a worker.
pub data Instr : Type 0 where
  propose : ProposeTerms → Instr
  accept reject : Instr
  config : Config → Instr
  quit : Instr
