-- ===== src/Tests.antt =====
-- The theorems at concrete inputs.
pub mod Node
pub mod Proofs
pub mod Parts
pub mod Chain
use babilonia.Prelude.{
  ℕ, ◌≡◌, ◌≤◌, ◌<◌, ◌≢◌, ◌⊎◌, ◌+◌, ◌-◌, refl, sym, arith, Bool, true, false, not, Option, none,
  some, List, [], ◌∷◌, ◌++◌, Result, ok, err, protocol, decode, length, sort, ltb, if◌then◌else◌,
}
use mathlib.Core.List.{Perm}
use mathlib.Core.Bool.{decide}
use mathlib.Core.Option.{some-injective}
use babilonia.Bytes.{Bytes}
use babilonia.Tx.{OutPoint, Transaction}
use native.Mathlib.Decide.{ℕ_discrete}
use babilonia.Tx.Order.{outpoints-discrete, pairs-discrete, le_outpoint}
use babilonia.Game.{play_dealer, play_player, player_wins, dealer_wins, Outcome}
use babilonia.Bet.Library.{squaring, regtest}
use babilonia.Bet.State.{dealer, player, new_bet}
use babilonia.Bet.Env.{St}
use babilonia.Bet.Verbs.{bet_chain}
use babilonia.Bet.Sample.{
  sample_library, sample_env, sample_params, sample_dealer, sample_player, player_frames,
  dealer_frames, add_three, funding, dealer_coin, player_coin,
}
use babilonia.Bet.Agreement.{spent, paid, verify_funding_psbt}
use babilonia.Bet.Joint.{verify_funding_psbt_sound}
use babilonia.Reveal.{GroupLaws, recover_a_c, won, compute_k, claim_secret, winner_opens_claim}
use babilonia.Bet.Safety.{IsSafe}
use babilonia.Bet.Safety.Play.{dealer_signs_covered, player_signs_covered, begun}

verified :
    verify_funding_psbt sample_library regtest
      (112 ∷ [])
      (dealer_coin, player_coin)
      (1 ∷ [])
      6990
      (99 ∷ [], 1000)
    ≡ ok tt
unfolding verify_funding_psbt decide outpoints-discrete pairs-discrete ℕ_discrete sort le_outpoint
verified = refl

dealer_signs_covered_example :
    IsSafe sample_library
      (dealer sample_dealer)
      (play_dealer (bet_chain sample_library sample_env) (
        begun sample_library sample_env regtest sample_params
          (dealer sample_dealer)
          []
          (100 ∷ [])
          player_frames)).1.log
dealer_signs_covered_example =
    dealer_signs_covered sample_library sample_env regtest sample_params (dealer sample_dealer) []
      (100 ∷ []) player_frames

player_signs_covered_example :
    IsSafe sample_library
      (player sample_player)
      (play_player (bet_chain sample_library sample_env) (
        begun sample_library sample_env regtest sample_params
          (player sample_player)
          []
          (100 ∷ [])
          dealer_frames)).1.log
player_signs_covered_example =
    player_signs_covered sample_library sample_env regtest sample_params (player sample_player) []
      (100 ∷ []) dealer_frames

three_laws : GroupLaws sample_library
three_laws = record { add_homomorphic = λ a b s h. h; add_cancel = cancel; point_eq_refl = same }
  where
    cancel : (a b s : Bool) → add_three a b ≡ some s → add_three s (not b) ≡ some a
    cancel false false s h = rw (sym (some-injective _ _ h)) refl
    cancel true true s h = rw (sym (some-injective _ _ h)) refl
    cancel false true s h = cc
    cancel true false s h = cc

    same : (p : Bool) → sample_library.point_eq p p ≡ true
    same true = refl
    same false = refl

winner_opens_claim_example :
    (recover_a_c sample_library squaring true false ≡ ok false)
    × (won sample_library false false ≡ true)
    × (compute_k sample_library false false ≡ ok true)
unfolding claim_secret
winner_opens_claim_example =
    winner_opens_claim sample_library three_laws squaring false false false true true refl refl

verify_funding_psbt_sound_example :
    (tx : Transaction) × (spk : Bytes) × (some funding ≡ some tx)
    × (ok (99 ∷ []) ≡ ok spk)
    × Perm (spent tx.input) (dealer_coin ∷ player_coin ∷ [])
    × Perm (paid tx.output) ((1 ∷ [], 6990) ∷ (spk, 1000) ∷ [])
verify_funding_psbt_sound_example =
    verify_funding_psbt_sound sample_library regtest (112 ∷ []) (dealer_coin, player_coin)
      (1 ∷ [], 6990) (99 ∷ [], 1000) verified
