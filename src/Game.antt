-- ===== src/Game.antt =====
-- src/game.rs: the roles, the outcome, and the sequence of a bet over the verbs of `BetChain`.
pub mod Verbs
pub mod Stops
use babilonia.Prelude.{Option, none, some}
use babilonia.Action.{Action, pure, ◌>>=◌, ◌>>◌}

pub data Role : Type 0 where
  dealer player : Role

pub data Outcome : Type 0 where
  player_wins dealer_wins : Outcome

-- The verbs that a bet needs of its chain, over a state of their own.
pub record BetChain (S : Type 0) : Type 0 where
  pub fund_pot : Action S (Unit {0})
  pub setup : Action S (Unit {0})
  pub broadcast_funding : Action S (Unit {0})
  pub try_cooperative_resolve : Action S (Option Outcome)
  pub settle : Action S (Unit {0})
  pub observe_outcome : Action S Outcome
  pub claim_win : Action S (Unit {0})
  pub dealer_take_on_loss : Action S (Unit {0})

module _ {S : Type 0} (c : BetChain S) where
  open c use {
    fund_pot, setup, broadcast_funding, try_cooperative_resolve, settle, observe_outcome, claim_win,
    dealer_take_on_loss,
  }

  -- `if matches!(outcome, ...)`, and the outcome is returned.
  unfoldable pub dealer_ends : Outcome → Action S Outcome
  dealer_ends dealer_wins = do dealer_take_on_loss; pure dealer_wins
  dealer_ends player_wins = pure player_wins

  unfoldable pub dealer_resolves : Option Outcome → Action S Outcome
  dealer_resolves (some outcome) = pure outcome
  dealer_resolves none = do settle; outcome ← observe_outcome; dealer_ends outcome

  unfoldable pub play_dealer : Action S Outcome
  unfolding dealer_resolves dealer_ends
  play_dealer = do
    fund_pot
    setup
    broadcast_funding
    resolved ← try_cooperative_resolve
    dealer_resolves resolved

  unfoldable pub player_ends : Outcome → Action S Outcome
  player_ends player_wins = do claim_win; pure player_wins
  player_ends dealer_wins = pure dealer_wins

  unfoldable pub player_resolves : Option Outcome → Action S Outcome
  player_resolves (some outcome) = pure outcome
  player_resolves none = do outcome ← observe_outcome; player_ends outcome

  unfoldable pub play_player : Action S Outcome
  unfolding player_resolves player_ends
  play_player = do
    fund_pot
    setup
    broadcast_funding
    resolved ← try_cooperative_resolve
    player_resolves resolved
