-- ===== src/Tests/Node.antt =====
-- A node at concrete inputs.
use babilonia.Prelude.{
  ◌≡◌, refl, true, false, none, some, List, [], ◌∷◌, ok, err, Option, ℕ, arith, Result, io, ◌++◌,
  ◌⊎◌,
}
use babilonia.Bytes.{Bytes, to_le_bytes, from_le_bytes}
use babilonia.Text.{Text, codes, ◌=ᵗ◌, is_whitespace}
use babilonia.Text.Lines.{ArePlain, is_plain}
use babilonia.Action.{Action}
use babilonia.Terms.{ProposeTerms, encode_terms, decode_terms, scheme_supported}
use babilonia.Bet.Library.{Network, bitcoin, testnet, signet, regtest}
use babilonia.Bet.Env.{Env}
use babilonia.Bet.Sample.{sample_library, sample_env, sample_dealer, sample_player}
use babilonia.Agent.Config.{NetworkText, default, load, to_text}
use babilonia.Agent.Config.Laws.{IsSound, load-IsSound, default-IsSound}
use babilonia.Agent.Config.File.{load-to_text}
use babilonia.Agent.Policy.{stake_sats, stake_sats_lem, IsMax, Sized}
use babilonia.Agent.Events.{Command, Input, WorkerEvent, Event, Instr}
use babilonia.Agent.Core.Recovery.{respond}
use babilonia.Agent.Policy
use babilonia.Agent.Node.{outside, Played, default_policies, Backend, Node, Worker}
use babilonia.Agent.Core.{handle}
use babilonia.Agent.Worker.{on_frame, poll_frame, poll_instr, on_instr, accept_terms, set_worker}
use babilonia.Agent.System
use babilonia.Agent.System.{
  Reach, here, next, arrives, core_turn, frame_turn, instr_turn, outside_turn,
}
use babilonia.Agent.System.Kept.{IsGood}
use babilonia.Agent.System.Safe.{reached-IsGood}
use babilonia.Agent.Consent.{frame_plays, AutoAccepts, last_proposal_wins, both_in, waiting}

abbrev show : Network → Text
show bitcoin = codes "bitcoin"
show testnet = codes "testnet"
show signet = codes "signet"
show regtest = codes "regtest"

abbrev parse : Text → Option Network
parse t = elim (t =ᵗ codes "regtest") [ true ↦ some regtest | false ↦ none ]

abbrev names : NetworkText
names = record { show = show; parse = parse }

-- The frames that are still to come, one at a time.
abbrev next_frame : List Bytes → Result (Option Bytes) × List Bytes
next_frame [] = (ok none, [])
next_frame (f ∷ fs) = (ok (some f), fs)

abbrev env : Env sample_library
env = record sample_env { try_recv = next_frame }

abbrev answer : {A : Type 0} → A → Action (List Bytes) A
answer a w = (ok a, w)

abbrev backend : Backend sample_library env
backend = record {
  names = names;
  dial = λ addr. answer tt;
  accept = λ expected. answer (some (codes "peer:1"));
  wallet = answer tt;
  chain = answer tt;
  balance = answer 5000;
  send_to = λ address sats. answer (codes "txid");
  utxo_values = answer (5000 ∷ 3000 ∷ []);
  write_config = λ path text. answer tt;
  read_dir = λ dir. answer [];
  load_record = λ dir p w. (err (io "no such file"), w);
  fresh_dealer = λ w. (sample_dealer, w);
  fresh_player = λ w. (sample_player, w);
  fresh_id = λ w. (codes "id", w);
}

abbrev terms : ℕ → ProposeTerms
terms stake = record {
  stake_sats = stake;
  fee_sats = 10;
  refund_locktime = 900;
  alice_timeout = 6;
  scheme = 0;
}

load-IsSound_example :
    IsSound (load names (some (codes "pi_a_scheme = poseidon\nstake_percent = 300\n")))
load-IsSound_example =
    load-IsSound names (some (codes "pi_a_scheme = poseidon\nstake_percent = 300\n"))

load-to_text_example : load names (some (to_text names default)) ≡ default
unfolding default ArePlain is_plain is_whitespace ◌=ᵗ◌
load-to_text_example =
    load-to_text names default refl (refl, (refl, (refl, (refl, (refl, (refl, (refl, tt)))))))
      default-IsSound

-- The peer proposes 1,000 satoshis, and the user accepts what is shown; before the worker learns of
-- it, the peer proposes 2,000.
abbrev begun : Node sample_library env
unfolding System.new
begun = System.new sample_library env default (encode_terms (terms 1000) ∷ [])

abbrev turn : Input → Node sample_library env → Node sample_library env
unfolding handle
turn i n = handle sample_library env default_policies backend i (record n { inputs = [] })

abbrev with_input : Input → Node sample_library env → Node sample_library env
with_input i n = record n { inputs = i ∷ [] }

abbrev frame : Node sample_library env → Node sample_library env
unfolding poll_frame
frame n = elim n.worker [
  | none ↦ n
  | some w ↦ poll_frame sample_library env default_policies backend w n
]

abbrev instr : Node sample_library env → Node sample_library env
unfolding poll_instr
instr n = elim n.worker [
  | none ↦ n
  | some w ↦ poll_instr sample_library env default_policies backend w n.instrs n
]

abbrev asked : Node sample_library env
asked = frame (turn Input.tick begun)

abbrev accepted : Node sample_library env
accepted =
    turn (Input.command (Command.accept 1)) (turn (Input.worker (WorkerEvent.proposed 1000)) asked)

abbrev swapped : Node sample_library env
swapped = frame (record accepted { world = encode_terms (terms 2000) ∷ [] })

abbrev played_stakes : List (Played sample_library) → List ℕ
played_stakes [] = []
played_stakes (p ∷ ps) = p.terms.stake_sats ∷ played_stakes ps

abbrev shown_stakes : List Event → List ℕ
shown_stakes [] = []
shown_stakes (Event.proposed id from stake ∷ es) = stake ∷ shown_stakes es
shown_stakes (Event.connected a ∷ es) = shown_stakes es
shown_stakes (Event.outcome o ∷ es) = shown_stakes es
shown_stakes (Event.address a ∷ es) = shown_stakes es
shown_stakes (Event.balance n ∷ es) = shown_stakes es
shown_stakes (Event.config c ∷ es) = shown_stakes es
shown_stakes (Event.info m ∷ es) = shown_stakes es
shown_stakes (Event.error f ∷ es) = shown_stakes es

-- The bet that is played is not the one that was shown and accepted.
swapped_terms :
    (shown_stakes (instr swapped).events ≡ 1000 ∷ [])
    × (played_stakes (instr swapped).played ≡ 2000 ∷ [])
unfolding encode_terms decode_terms default System.new handle poll_frame poll_instr respond outside
    to_le_bytes scheme_supported Policy.decide from_le_bytes
swapped_terms = (refl, refl)

reached-IsGood_example : IsGood sample_library env asked
unfolding encode_terms decode_terms default System.new handle poll_frame poll_instr respond outside
reached-IsGood_example =
    reached-IsGood sample_library env default_policies backend default
      (encode_terms (terms 1000) ∷ []) default-IsSound asked
      (next
        (next (next here (arrives begun Input.tick))
          (core_turn (with_input Input.tick begun) Input.tick [] refl refl))
        (frame_turn (turn Input.tick begun) _ refl))

stake_sats_lem_example :
    (m : ℕ) × IsMax (5000 ∷ 3000 ∷ []) m × Sized m default (stake_sats (5000 ∷ 3000 ∷ []) default)
unfolding default
stake_sats_lem_example = stake_sats_lem 5000 (3000 ∷ []) default (omega arith)

frame_plays_example :
    ((on_frame sample_library env default_policies backend default
        (some (encode_terms (terms 1000)))
        begun).played
      ≡ [])
    ⊎ ((t : ProposeTerms) × (decode_terms (encode_terms (terms 1000)) ≡ some t)
        × AutoAccepts default t)
unfolding System.new
frame_plays_example =
    frame_plays sample_library env backend default (encode_terms (terms 1000)) begun

abbrev both : Node sample_library env
both = both_in sample_library env default_policies backend default (terms 1000) (terms 2000) begun

abbrev second : Worker
second = waiting sample_library env default_policies backend default (terms 1000) (terms 2000) begun

last_proposal_wins_example :
    (both.inputs
      ≡ (begun.inputs ++ Input.worker (WorkerEvent.proposed 1000) ∷ [])
        ++ Input.worker (WorkerEvent.proposed 2000) ∷ [])
    × (both.worker ≡ some second)
    × (on_instr sample_library env default_policies backend second Instr.accept both
        ≡ accept_terms sample_library env default_policies backend default (terms 2000) (
            set_worker sample_library env default_policies backend
              (some (record { config = default; pending_terms = none }))
              both))
unfolding scheme_supported Policy.decide default
last_proposal_wins_example =
    last_proposal_wins sample_library env default_policies backend default (terms 1000) (terms 2000)
      begun refl refl refl refl
