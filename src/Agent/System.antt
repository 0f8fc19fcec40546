-- ===== src/Agent/System.antt =====
-- A whole node of src/agent.rs: the user, the core's loop and the peer's worker take turns in any
-- order, and the outside (the peer, the chain, the wallet) changes in between as it likes.
pub mod Kept
pub mod Recovery
pub mod Commands
pub mod Turns
pub mod Bets
pub mod Safe
use babilonia.Prelude.{◌+◌, ◌≡◌, true, false, Option, none, some, List, [], ◌∷◌, ◌++◌}
use babilonia.Text.{Text}
use babilonia.Bet.Library.{Library}
use babilonia.Bet.Env.{Env}
use babilonia.Agent.Config.{Config}
use babilonia.Agent.Events.{Command, Input}
use babilonia.Agent.Node.{Policies, Worker, NodeCore, Backend, Node}
use babilonia.Agent.Core.{handle, spawn_peer}
use babilonia.Agent.Worker.{poll_frame, poll_instr}

module _ (lib : Library) (env : Env lib) where
  -- `NodeCore::new`, and `with_config_path` with the directory beside the file.
  unfoldable pub new : Config → env.World → Node lib env
  new config w = record {
    core = record {
      config = config;
      config_path = none;
      peer = none;
      dialed = none;
      pending = none;
      next_bet_id = 1;
    };
    worker = none;
    inputs = [];
    instrs = [];
    events = [];
    played = [];
    log = [];
    running = true;
    world = w;
  }

  unfoldable pub with_config_path : Text → Option Text → Node lib env → Node lib env
  with_config_path path dir n = record n {
    core = record n.core {
      config = record n.core.config { state_dir = dir };
      config_path = some path;
    };
  }

  module _ (policies : Policies) (backend : Backend lib env) where
    -- `NodeCore::with_seeded_peer`.
    unfoldable pub with_seeded_peer : Text → Node lib env → Node lib env
    unfolding spawn_peer
    with_seeded_peer addr n = spawn_peer lib env policies backend addr false n

    -- One turn of a part of the node.
    pub data Step : Node lib env → Node lib env → Type 0 where
      -- The user enters a command, or the timer ticks.
      arrives : (n : Node lib env) (i : Input) → Step n (record n { inputs = n.inputs ++ i ∷ [] })
      -- The core takes its next input.
      core_turn :
          (n : Node lib env) (i : Input) (is : List Input)
          → n.running ≡ true
          → n.inputs ≡ i ∷ is
          → Step n (handle lib env policies backend i (record n { inputs = is }))
      -- The worker looks for a frame, then for an instruction.
      frame_turn :
          (n : Node lib env) (w : Worker)
          → n.worker ≡ some w
          → Step n (poll_frame lib env policies backend w n)
      instr_turn :
          (n : Node lib env) (w : Worker)
          → n.worker ≡ some w
          → Step n (poll_instr lib env policies backend w n.instrs n)
      outside_turn : (n : Node lib env) (w : env.World) → Step n (record n { world = w })

    pub data Reach (n : Node lib env) : Node lib env → Type 0 where
      here : Reach n n
      next : {m o : Node lib env} → Reach n m → Step m o → Reach n o
