-- ===== src/Agent/Node.antt =====
-- The state of a node (`NodeCore` of src/agent.rs) with its channels, its peer's worker and the
-- outside, and the calls of its `Backend`.
--
-- A worker lives as long as its peer; `peer` and `worker` are two sides of the one channel of
-- instructions, oldest first. Inputs come to the core oldest first, and events are kept newest first.
use babilonia.Prelude.{ℕ, Option, List, [], ◌∷◌, ◌++◌, Bool}
use babilonia.Bytes.{Bytes}
use babilonia.Text.{Text}
use babilonia.Action.{Action}
use babilonia.Terms.{ProposeTerms}
use babilonia.Bet.Library.{Library}
use babilonia.Bet.State.{BetRecord, AliceSecrets, BobSecrets}
use babilonia.Bet.Env.{Env, Log}
use babilonia.Agent.Config.{NetworkText, Config}
use babilonia.Agent.Policy
use babilonia.Agent.Policy.{AcceptDecision}
use babilonia.Agent.Events.{Event, WorkerEvent, Input, Instr}

-- The policies that may be swapped.
pub record Policies : Type 0 where
  pub stake_sats : List ℕ → Config → Option ℕ
  pub decide : ℕ → Config → AcceptDecision

abbrev pub default_policies : Policies
default_policies = record { stake_sats = Policy.stake_sats; decide = Policy.decide }

-- A file of the state directory: its stem and its extension.
pub record RecordPath : Type 0 where
  pub stem : Text
  pub extension : Option Text

pub record Peer : Type 0 where
  pub addr : Text

-- The locals of `peer_worker`.
pub record Worker : Type 0 where
  pub config : Config
  pub pending_terms : Option ProposeTerms

-- A bet that was played: its terms, its side, its directory and what it did on the outside.
pub record Played (lib : Library) : Type 0 where
  pub terms : ProposeTerms
  pub is_dealer : Bool
  pub dir : Option Bytes
  pub log : Log lib

pub record NodeCore : Type 0 where
  pub config : Config
  pub config_path : Option Text
  pub peer : Option Peer
  pub dialed : Option Text
  pub pending : Option (ℕ × ℕ)
  pub next_bet_id : ℕ

module _ (lib : Library) (env : Env lib) where
  open env use {World}

  -- The calls of `Backend`, the file system and the random draws, beside those of a bet. A handle to
  -- the wallet or to the chain may fail to open.
  pub record Backend : Type 0 where
    pub names : NetworkText
    pub dial : Text → Action World (Unit {0})
    pub accept : Option Text → Action World (Option Text)
    pub wallet : Action World (Unit {0})
    pub chain : Action World (Unit {0})
    pub balance : Action World ℕ
    pub send_to : Text → ℕ → Action World Text
    pub utxo_values : Action World (List ℕ)
    pub write_config : Text → Text → Action World (Unit {0})
    pub read_dir : Text → Action World (List RecordPath)
    pub load_record : Text → RecordPath → Action World (BetRecord lib)
    pub fresh_dealer : World → AliceSecrets lib × World
    pub fresh_player : World → BobSecrets lib × World
    pub fresh_id : World → Bytes × World

  pub record Node : Type 0 where
    pub core : NodeCore
    pub worker : Option Worker
    pub inputs : List Input
    pub instrs : List Instr
    pub events : List Event
    pub played : List (Played lib)
    -- What recoveries broadcast.
    pub log : Log lib
    pub running : Bool
    pub world : World

  abbrev pub H : Type 0 → Type 0
  H A = Action Node A

  -- A call of the outside.
  unfoldable pub outside : {A : Type 0} → Action World A → H A
  outside f n = let (r, w) = f n.world in (r, record n { world = w })

  -- `NodeCore::emit`.
  abbrev pub emit : Event → Node → Node
  emit e n = record n { events = e ∷ n.events }

  abbrev pub set_core : (NodeCore → NodeCore) → Node → Node
  set_core f n = record n { core = f n.core }

  -- `instr.send`, which fails once the worker is gone; that is ignored.
  abbrev pub instruct : Instr → Node → Node
  instruct i n = record n { instrs = n.instrs ++ i ∷ [] }

  -- `to_core.send`.
  abbrev pub report : WorkerEvent → Node → Node
  report e n = record n { inputs = n.inputs ++ Input.worker e ∷ [] }
