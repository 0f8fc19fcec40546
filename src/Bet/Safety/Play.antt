-- ===== src/Bet/Safety/Play.antt =====
-- A whole bet over the verbs of src/bet.rs.
use babilonia.Prelude.{refl, Result, ok, err, Option, none, some, []}
use babilonia.Bytes.{Bytes}
use babilonia.Action.{◌>>◌}
use babilonia.Action.Keeps.{
  Keeps, Keeps-pure, Triple, Ended, Triple-bind, Triple-Keeps, Triple-exists, Triple-after,
  keeps_rules,
}
use babilonia.Game.{
  Outcome, player_wins, dealer_wins, play_dealer, play_player, dealer_resolves, dealer_ends,
  player_resolves, player_ends,
}
use babilonia.Bet.Library.{Library, Network}
use babilonia.Setup.Refund.{Pot}
use babilonia.Bet.State.{GameParams, BetRole, new_bet}
use babilonia.Bet.Env.{Env, St, M}
use babilonia.Bet.Funding.{fund_pot}
use babilonia.Bet.Verbs.{setup, bet_chain}
use babilonia.Bet.Quiet.Verbs
use babilonia.Bet.Safety.{IsSafe, Opened, Armed, start, Armed-IsStable}
use babilonia.Bet.Safety.Fund.{Logged, fund_pot-Triple}
use babilonia.Bet.Safety.Setup.{setup-Triple}
use babilonia.Bet.Safety.Sign.{broadcast_funding-Keeps}

module _ (lib : Library) (env : Env lib) where
  dealer_resolves-Keeps :
      (dir : Bytes) (role : BetRole lib) (pot : Pot lib) (r : Option Outcome)
      → Keeps (Armed lib env dir role pot) (dealer_resolves (bet_chain lib env) r)
  unfolding dealer_resolves dealer_ends
  dealer_resolves-Keeps dir role pot (some outcome) = Keeps-pure outcome
  dealer_resolves-Keeps dir role pot none =
      search (keeps_rules, Armed-IsStable, Verbs.settle-Keeps, Verbs.observe_outcome-Keeps, ends)
    where
      ends :
          (outcome : Outcome)
          → Keeps (Armed lib env dir role pot) (dealer_ends (bet_chain lib env) outcome)
      ends dealer_wins = search (keeps_rules, Armed-IsStable, Verbs.dealer_take_on_loss-Keeps)
      ends player_wins = Keeps-pure player_wins

  player_resolves-Keeps :
      (dir : Bytes) (role : BetRole lib) (pot : Pot lib) (r : Option Outcome)
      → Keeps (Armed lib env dir role pot) (player_resolves (bet_chain lib env) r)
  unfolding player_resolves player_ends
  player_resolves-Keeps dir role pot (some outcome) = Keeps-pure outcome
  player_resolves-Keeps dir role pot none =
      search (keeps_rules, Armed-IsStable, Verbs.observe_outcome-Keeps, ends)
    where
      ends :
          (outcome : Outcome)
          → Keeps (Armed lib env dir role pot) (player_ends (bet_chain lib env) outcome)
      ends player_wins = search (keeps_rules, Armed-IsStable, Verbs.claim_win-Keeps)
      ends dealer_wins = Keeps-pure dealer_wins

  -- Whatever follows the setup, if it keeps the order.
  play-Triple :
      (dir : Bytes) (role : BetRole lib) (rest : M lib env Outcome)
      → ((pot : Pot lib) → Keeps (Armed lib env dir role pot) rest)
      → Triple
          (Opened lib env dir role)
          (do fund_pot lib env; setup lib env; rest)
          (λ _. Logged lib env dir role)
          (Logged lib env dir role)
  play-Triple dir role rest keeps = Triple-bind _ _ (fund_pot-Triple lib env dir role) (λ _.
      Triple-exists (λ pot. Triple-bind _ _ (setup-Triple lib env dir role pot) (λ _.
        Triple-after (Triple-Keeps (λ s h. h.agreed.log) (keeps pot)) (λ _ s h. h.agreed.log))))

  -- However a call ends, its state is logged as it must be.
  either :
      (dir : Bytes) (role : BetRole lib) (r : Result Outcome) (s : St lib env)
      → Ended (λ _. Logged lib env dir role) (Logged lib env dir role) (r, s)
      → IsSafe lib role s.log
  either dir role (ok a) s h = h
  either dir role (err e) s h = h

  abbrev pub begun : Network → GameParams → BetRole lib → Bytes → Bytes → env.World → St lib env
  begun network params role id dir world = record {
    bet = new_bet lib network params role id (some dir);
    world = world;
    log = [];
  }

  new_bet-Opened :
      (network : Network) (params : GameParams) (role : BetRole lib) (id dir : Bytes)
      (world : env.World)
      → Opened lib env dir role (begun network params role id dir world)
  unfolding new_bet
  new_bet-Opened network params role id dir world = record {
    log = start;
    saves = refl;
    side = refl;
  }

  -- A dealer's play of a new bet with a state directory, over any library and any environment, and
  -- however it ends: whenever it signed a funding, that is a transaction whose output at the pot's
  -- place pays the pot's value to the script of the dealer's key and a key of its peer; a setup had
  -- been finished whose settlement and refund each spend that output alone, and whose refund is
  -- signed over the spend of that output, in a session with the peer under the aggregate of these two
  -- keys; and that refund with its signature, and the record with the pot and this setup, had been
  -- written to disk.
  pub dealer_signs_covered :
      (network : Network) (params : GameParams) (role : BetRole lib) (id dir : Bytes)
      (world : env.World)
      → IsSafe lib role
          (play_dealer (bet_chain lib env) (begun network params role id dir world)).1.log
  unfolding play_dealer
  dealer_signs_covered network params role id dir world = either dir role _ _ (
      (play-Triple dir role _ (λ pot. search (
        keeps_rules, Armed-IsStable, broadcast_funding-Keeps, Verbs.try_cooperative_resolve-Keeps,
        dealer_resolves-Keeps,
      ))).run
        _ (new_bet-Opened network params role id dir world))

  -- A player's play of a new bet with a state directory, over any library and any environment, and
  -- however it ends: whenever it signed a funding, that is a transaction whose output at the pot's
  -- place pays the pot's value to the script of the player's key and a key of its peer; a setup had
  -- been finished whose settlement and refund each spend that output alone, and whose refund is
  -- signed over the spend of that output, in a session with the peer under the aggregate of these two
  -- keys; and that refund with its signature, and the record with the pot and this setup, had been
  -- written to disk.
  pub player_signs_covered :
      (network : Network) (params : GameParams) (role : BetRole lib) (id dir : Bytes)
      (world : env.World)
      → IsSafe lib role
          (play_player (bet_chain lib env) (begun network params role id dir world)).1.log
  unfolding play_player
  player_signs_covered network params role id dir world = either dir role _ _ (
      (play-Triple dir role _ (λ pot. search (
        keeps_rules, Armed-IsStable, broadcast_funding-Keeps, Verbs.try_cooperative_resolve-Keeps,
        player_resolves-Keeps,
      ))).run
        _ (new_bet-Opened network params role id dir world))
