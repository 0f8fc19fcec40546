-- ===== src/Lib.antt =====
-- Babilonia: a two-party bet over bitcoin, in which a dealer hides one of two thimbles and a player
-- guesses.
--
-- The program. Two parties fund a joint output (the pot, `U1`) and pre-sign a refund and an adaptor
-- settlement of it (src/setup.rs, over the frames of src/messages.rs and the transactions of
-- src/txgraph.rs). The dealer completes the settlement, which reveals the secret `d`; the player
-- decrypts the outcome with it (src/reveal.rs) and claims, or the dealer takes the pot after a
-- timeout. src/game.rs orders these steps over a trait, which src/bet.rs implements over a wallet,
-- a chain and a transport. Each phase is saved (src/persist.rs), and src/recover.rs goes on from a
-- record with no live peer.
--
-- The files.
--   Prelude, Bytes        shared names, results (`Error`, `Result` of src/lib.rs), sorting, integers
--                         as bytes, UTF-8
--   Action                methods over a state that may fail; what they keep, return and end with
--   Tx                    src/txgraph.rs: transactions, their builders, `shuffle_seeded`,
--                         `split_payment`; orders and decided equality
--   Messages              src/messages.rs: `Reader`, the nine frames, their round trips
--   Game                  src/game.rs: `play_dealer` and `play_player` over a record of verbs, and
--                         their runs over scripted verbs: Verbs (what they need and return),
--                         Stops (how they fail)
--   Bet                   src/bet.rs: Library (what it calls of other libraries), State (its
--                         fields), Env (wallet, chain, transport, disk), Amounts, Agreement,
--                         Funding, Claim, Overlay, Persist, Verbs (`impl BetChain for Bet`); Quiet
--                         and Safety prove the order of its effects, Joint and Locate the check
--                         of a funding and the place of the pot in it
--   Setup                 src/setup.rs: `tx_graph`, `run_alice`, `run_bob`
--   Reveal                src/reveal.rs
--   Recover               src/recover.rs
--   Terms                 the proposal of a bet in src/agent.rs, `ProposeTerms`
--   Text                  the texts of a configuration and of commands; decimals, lines
--   Agent                 src/agent.rs: Config (`Config`, its file), Policy (both default policies),
--                         Events (the channels), Node (`NodeCore`, its worker and `Backend`), Core
--                         (the handlers), Worker (`peer_worker` and `play`), System (a node as a
--                         step relation), Consent (what starts a bet)
--   Sigma                 src/sigma.rs over any curve: Dlog, Or2, Statements (the thimble proofs and
--                         `π_r`), OrDlog and Adaptor (the sigma part of `π_a`), Sound (what an
--                         accepted proof gives)
--   PiA                   src/pi_a.rs: both schemes' `prove` and `verify`, the squaring scheme over
--                         any curve; Complete (an honest proof is accepted), Sample
--   Params                src/params.rs, and the first phase of src/protocol.rs
--   Repl                  the commands of src/repl.rs; Hints (what a proposed bet tells to type)
--   Transport             src/transport/memory.rs, and the contract of src/transport/mod.rs
--   Tests                 the theorems at concrete inputs
--
-- How the model corresponds to the code. A struct is a record with its fields, `&mut self` a state
-- that is passed on, `?` the bind of `Action` or `Result`: what was changed before an error stays
-- changed. A call of the wallet, the chain, the transport or the disk is a field of `Env`, over a
-- world of its own: it answers anything, an error included, and may change that world. Each call
-- that acts outside is put on a log, newest first, with whether it succeeded. The functions of the
-- libraries `secp256k1`, `musig2` and `bitcoin`, the wrappers of src/musig.rs, and, where the
-- handshake calls them, the proofs of src/pi_a.rs and src/sigma.rs are fields of `Library`. A loop
-- that polls until a deadline goes round as often as the environment's clock says, `rounds`, and once more.
--
-- Amounts are satoshis in ℕ: a checked operation fails outside of 64 bits, a product of a fee wraps
-- at 64 bits; a sum of two stakes, which panics past 64 bits, is taken to fit. A panic on a value
-- that a library refuses is an error. Progress lines and the text of reports are left out.
--
-- A node's user, core, worker and surroundings take turns in any order, one turn at a time; a bet is
-- one turn of the worker. The messages of the node are constructors in place of formatted texts.
--
-- Not modelled: the RPC backends of src/agent.rs, the line editor of src/repl.rs,
-- src/transport/bip324.rs, the hash circuit of src/pi_a.rs (disabled), the format of
-- the saved records, and what is I/O (src/node.rs, the RPC wallet and chain, the binaries, basic-wallet).
pub mod Prelude
pub mod Bytes
pub mod Tx
pub mod Action
pub mod Game
pub mod Messages
pub mod Bet
pub mod Setup
pub mod Reveal
pub mod Recover
pub mod Tests
pub mod Terms
pub mod Text
pub mod Agent
pub mod Sigma
pub mod Transport
pub mod Repl
pub mod Params
pub mod PiA
