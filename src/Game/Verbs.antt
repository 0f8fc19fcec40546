-- ===== src/Game/Verbs.antt =====
-- The order of the verbs, over a chain whose every answer is chosen in advance (the `Mock` of
-- src/game.rs, with failures): the state is the list of the verbs called so far.
use babilonia.Prelude.{
  Option, none, some, List, [], ◌∷◌, ◌++◌, ◌≡◌, arith, Result, ok, Bool, true, false, ℕ, ◌||◌, ◌==◌,
  ◌⊎◌,
}
use babilonia.Action.{Action, ◌>>=◌}
use babilonia.Game.{Outcome, player_wins, dealer_wins, BetChain, play_dealer, play_player}

pub data Verb : Type 0 where
  fund setup broadcast coop settle observe claim take : Verb

-- What each verb answers.
pub record Script : Type 0 where
  pub on_fund : Result (Unit {0})
  pub on_setup : Result (Unit {0})
  pub on_broadcast : Result (Unit {0})
  pub on_coop : Result (Option Outcome)
  pub on_settle : Result (Unit {0})
  pub on_observe : Result Outcome
  pub on_claim : Result (Unit {0})
  pub on_take : Result (Unit {0})

abbrev answer : {A : Type 0} → Verb → Result A → Action (List Verb) A
answer v r steps = (r, steps ++ v ∷ [])

abbrev pub mock : Script → BetChain (List Verb)
mock s = record {
  fund_pot = answer fund s.on_fund;
  setup = answer setup s.on_setup;
  broadcast_funding = answer broadcast s.on_broadcast;
  try_cooperative_resolve = answer coop s.on_coop;
  settle = answer settle s.on_settle;
  observe_outcome = answer observe s.on_observe;
  claim_win = answer claim s.on_claim;
  dealer_take_on_loss = answer take s.on_take;
}

abbrev code : Verb → ℕ
code fund = 0
code setup = 1
code broadcast = 2
code coop = 3
code settle = 4
code observe = 5
code claim = 6
code take = 7

abbrev pub contains : Verb → List Verb → Bool
contains v [] = false
contains v (x ∷ xs) = code x == code v || contains v xs

abbrev pub opening : List Verb
opening = fund ∷ setup ∷ broadcast ∷ coop ∷ []

abbrev pub dealer_tail : Outcome → List Verb
dealer_tail dealer_wins = take ∷ []
dealer_tail player_wins = []

abbrev pub player_tail : Outcome → List Verb
player_tail player_wins = claim ∷ []
player_tail dealer_wins = []

-- A dealer's game that returns an outcome was either resolved by the overlay, with no further verb,
-- or settled and observed, and then the pot was taken exactly if the dealer won.
pub dealer_success :
    (s : Script) (o : Outcome) (log : List Verb)
    → play_dealer (mock s) [] ≡ (ok o, log)
    → ((s.on_coop ≡ ok (some o)) × (log ≡ opening))
      ⊎ ((s.on_coop ≡ ok none)
          × (s.on_observe ≡ ok o)
          × (log ≡ opening ++ (settle ∷ observe ∷ dealer_tail o)))
unfolding play_dealer ◌>>=◌
dealer_success s o log h = ground arith

-- A player's game that returns an outcome was either resolved by the overlay, with no further verb,
-- or observed, and then the pot was claimed exactly if the player won.
pub player_success :
    (s : Script) (o : Outcome) (log : List Verb)
    → play_player (mock s) [] ≡ (ok o, log)
    → ((s.on_coop ≡ ok (some o)) × (log ≡ opening))
      ⊎ ((s.on_coop ≡ ok none)
          × (s.on_observe ≡ ok o)
          × (log ≡ opening ++ (observe ∷ player_tail o)))
unfolding play_player ◌>>=◌
player_success s o log h = ground arith

-- The dealer takes the pot only after the funding, with the overlay declined, the settlement made,
-- and a win of the dealer observed.
pub dealer_take_needs :
    (s : Script)
    → contains take (play_dealer (mock s) []).1 ≡ true
    → (s.on_broadcast ≡ ok tt)
      × (s.on_coop ≡ ok none)
      × (s.on_settle ≡ ok tt)
      × (s.on_observe ≡ ok dealer_wins)
unfolding play_dealer ◌>>=◌
dealer_take_needs s h = ground arith

-- The player claims only after the funding, with the overlay declined and a win observed.
pub player_claim_needs :
    (s : Script)
    → contains claim (play_player (mock s) []).1 ≡ true
    → (s.on_broadcast ≡ ok tt) × (s.on_coop ≡ ok none) × (s.on_observe ≡ ok player_wins)
unfolding play_player ◌>>=◌
player_claim_needs s h = ground arith

-- Whatever the answers, the dealer never claims, and the player neither settles nor takes.
pub roles_keep_apart :
    (s : Script)
    → (contains claim (play_dealer (mock s) []).1 ≡ false)
      × (contains settle (play_player (mock s) []).1 ≡ false)
      × (contains take (play_player (mock s) []).1 ≡ false)
unfolding play_dealer play_player ◌>>=◌
roles_keep_apart s = (ground arith, ground arith, ground arith)
