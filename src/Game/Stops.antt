-- ===== src/Game/Stops.antt =====
-- How a game of src/game.rs ends that fails, over a chain whose every answer is chosen in advance.
use babilonia.Prelude.{
  Option, none, some, List, [], ◌∷◌, ◌++◌, ◌≡◌, refl, subst, Result, ok, err, Error,
}
use babilonia.Action.{◌>>=◌}
use babilonia.Game.{Outcome, player_wins, dealer_wins, play_dealer, play_player}
use babilonia.Game.Verbs.{
  Verb, fund, setup, broadcast, coop, settle, observe, claim, take, Script, mock, opening,
}

abbrev failure : {A : Type 0} → Result A → Option Error
failure (ok a) = none
failure (err e) = some e

-- The error of a verb, if it fails.
abbrev pub error_of : Script → Verb → Option Error
error_of s fund = failure s.on_fund
error_of s setup = failure s.on_setup
error_of s broadcast = failure s.on_broadcast
error_of s coop = failure s.on_coop
error_of s settle = failure s.on_settle
error_of s observe = failure s.on_observe
error_of s claim = failure s.on_claim
error_of s take = failure s.on_take

-- The verbs called are the first of this order; the last of them failed with this error, and all
-- before it succeeded.
pub data StopsAt (s : Script) (e : Error) : List Verb → List Verb → Type 0 where
  here : (v : Verb) (order : List Verb) → error_of s v ≡ some e → StopsAt s e (v ∷ order) (v ∷ [])
  later :
      (v : Verb) (order log : List Verb)
      → error_of s v ≡ none
      → StopsAt s e order log
      → StopsAt s e (v ∷ order) (v ∷ log)

abbrev StopsIf : Script → List Verb → Result Outcome × List Verb → Type 0
StopsIf s order (ok o, log) = Unit {0}
StopsIf s order (err e, log) = StopsAt s e order log

abbrev pub dealer_order : List Verb
dealer_order = opening ++ settle ∷ observe ∷ take ∷ []

abbrev pub player_order : List Verb
player_order = opening ++ observe ∷ claim ∷ []

abbrev script :
    Result (Unit {0})
    → Result (Unit {0})
    → Result (Unit {0})
    → Result (Option Outcome)
    → Result (Unit {0})
    → Result Outcome
    → Result (Unit {0})
    → Result (Unit {0})
    → Script
script f u b c t o l k = record {
  on_fund = f;
  on_setup = u;
  on_broadcast = b;
  on_coop = c;
  on_settle = t;
  on_observe = o;
  on_claim = l;
  on_take = k;
}

ruleset stops_rules = (here, later, refl)

dealer_stops :
    (f u b : Result (Unit {0})) (c : Result (Option Outcome)) (t : Result (Unit {0}))
    (o : Result Outcome) (l k : Result (Unit {0}))
    → StopsIf (script f u b c t o l k) dealer_order (play_dealer (mock (script f u b c t o l k)) [])
unfolding play_dealer ◌>>=◌
dealer_stops (err e) u b c t o l k = search (stops_rules) depth 20
dealer_stops (ok _) (err e) b c t o l k = search (stops_rules) depth 20
dealer_stops (ok _) (ok _) (err e) c t o l k = search (stops_rules) depth 20
dealer_stops (ok _) (ok _) (ok _) (err e) t o l k = search (stops_rules) depth 20
dealer_stops (ok _) (ok _) (ok _) (ok (some w)) t o l k = tt
dealer_stops (ok _) (ok _) (ok _) (ok none) (err e) o l k = search (stops_rules) depth 20
dealer_stops (ok _) (ok _) (ok _) (ok none) (ok _) (err e) l k = search (stops_rules) depth 20
dealer_stops (ok _) (ok _) (ok _) (ok none) (ok _) (ok player_wins) l k = tt
dealer_stops (ok _) (ok _) (ok _) (ok none) (ok _) (ok dealer_wins) l (err e) =
    search (stops_rules) depth 20
dealer_stops (ok _) (ok _) (ok _) (ok none) (ok _) (ok dealer_wins) l (ok _) = tt

player_stops :
    (f u b : Result (Unit {0})) (c : Result (Option Outcome)) (t : Result (Unit {0}))
    (o : Result Outcome) (l k : Result (Unit {0}))
    → StopsIf (script f u b c t o l k) player_order (play_player (mock (script f u b c t o l k)) [])
unfolding play_player ◌>>=◌
player_stops (err e) u b c t o l k = search (stops_rules) depth 20
player_stops (ok _) (err e) b c t o l k = search (stops_rules) depth 20
player_stops (ok _) (ok _) (err e) c t o l k = search (stops_rules) depth 20
player_stops (ok _) (ok _) (ok _) (err e) t o l k = search (stops_rules) depth 20
player_stops (ok _) (ok _) (ok _) (ok (some w)) t o l k = tt
player_stops (ok _) (ok _) (ok _) (ok none) t (err e) l k = search (stops_rules) depth 20
player_stops (ok _) (ok _) (ok _) (ok none) t (ok dealer_wins) l k = tt
player_stops (ok _) (ok _) (ok _) (ok none) t (ok player_wins) (err e) k =
    search (stops_rules) depth 20
player_stops (ok _) (ok _) (ok _) (ok none) t (ok player_wins) (ok _) k = tt

-- A dealer's game that fails has called an initial part of fund, setup, broadcast, coop, settle,
-- observe, take, in this order: the last verb called failed with the error returned, and every verb
-- before it succeeded.
pub dealer_fails :
    (s : Script) (e : Error) (log : List Verb)
    → play_dealer (mock s) [] ≡ (err e, log)
    → StopsAt s e dealer_order log
dealer_fails s e log h = subst (StopsIf s dealer_order) h (
    dealer_stops s.on_fund s.on_setup s.on_broadcast s.on_coop s.on_settle s.on_observe s.on_claim
      s.on_take)

-- A player's game that fails has called an initial part of fund, setup, broadcast, coop, observe,
-- claim, in this order: the last verb called failed with the error returned, and every verb before it
-- succeeded.
pub player_fails :
    (s : Script) (e : Error) (log : List Verb)
    → play_player (mock s) [] ≡ (err e, log)
    → StopsAt s e player_order log
player_fails s e log h = subst (StopsIf s player_order) h (
    player_stops s.on_fund s.on_setup s.on_broadcast s.on_coop s.on_settle s.on_observe s.on_claim
      s.on_take)
