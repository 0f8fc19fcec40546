-- ===== src/Bet/Quiet/Verbs.antt =====
-- The verbs of a bet, but for the funding's signature, keep what is stable.
use babilonia.Prelude.{ℕ, zero, suc, Bool, Option, none, some}
use babilonia.Bytes.{Bytes}
use babilonia.Tx.{OutPoint}
use babilonia.Action.Keeps.{Keeps, Keeps-pure, Keeps-bind, keeps_rules}
use babilonia.Game.{Outcome}
use babilonia.Bet.Library.{Library}
use babilonia.Bet.State.{BetRole, BobSecrets, SetupResult, dealer, player}
use babilonia.Bet.Env.{Env, St, M}
use babilonia.Bet.Quiet.{IsStable, Keeps-call, Keeps-if, quiet_rules}
use babilonia.Messages.Funding.{CoopReveal}
use babilonia.Bet.Claim.{player_observe, watch_claim, dealer_observe}
use babilonia.Bet.Overlay.{
  u1_prevout, build_coop_tx, watch_round, watch_overlay, dealer_cooperative, coop_won, coop_lost,
  answer_reveal, player_cooperative,
}
use babilonia.Bet.Verbs.{
  resolve_as, try_cooperative_resolve, settle_as, settle, observe_as, observe_outcome, claim_as,
  claim_win, dealer_take_on_loss,
}
use babilonia.Bet.Quiet.Ops.{
  state-Keeps, persist-Keeps, wait_confirmed-Keeps, poll_tx-Keeps, recv_deadline-Keeps,
  settle_txid-Keeps, o_k_outpoint-Keeps, pot-Keeps, keep_a_c-Keeps, build_claim_spend_tx-Keeps,
  submit_claim-Keeps,
}

module _ {lib : Library} {env : Env lib} {P : St lib env → Type 0}
    (stable : IsStable lib env P) where
  watch_claim-Keeps : (n : ℕ) (claim : OutPoint) → Keeps P (watch_claim lib env n claim)
  unfolding watch_claim
  watch_claim-Keeps zero claim = search (keeps_rules, quiet_rules, stable)
  watch_claim-Keeps (suc n) claim =
      Keeps-bind _ _ (Keeps-call stable _)
        (λ o. Keeps-if _ _ _ (watch_claim-Keeps n claim) (Keeps-pure _))

  dealer_observe-Keeps : Keeps P (dealer_observe lib env)
  unfolding dealer_observe
  dealer_observe-Keeps = search (keeps_rules, o_k_outpoint-Keeps, watch_claim-Keeps)

  player_observe-Keeps : (g : Bool) → Keeps P (player_observe lib env g)
  unfolding player_observe
  player_observe-Keeps g =
      search
        (keeps_rules, state-Keeps, settle_txid-Keeps, poll_tx-Keeps, keep_a_c-Keeps, persist-Keeps)
        depth 20

  u1_prevout-Keeps : Keeps P (u1_prevout lib env)
  unfolding u1_prevout
  u1_prevout-Keeps = search (keeps_rules)

  build_coop_tx-Keeps : Keeps P (build_coop_tx lib env)
  unfolding build_coop_tx
  build_coop_tx-Keeps = search (keeps_rules, quiet_rules, stable, pot-Keeps) depth 20

  watch_round-Keeps :
      (coop settled : Bytes) (rest : M lib env (Option Outcome))
      → Keeps P rest
      → Keeps P (watch_round lib env coop settled rest)
  unfolding watch_round
  watch_round-Keeps coop settled rest k = search (keeps_rules, quiet_rules, stable)

  watch_overlay-Keeps :
      (n : ℕ) (coop settled : Bytes) → Keeps P (watch_overlay lib env n coop settled)
  unfolding watch_overlay
  watch_overlay-Keeps zero coop settled = watch_round-Keeps coop settled _ (Keeps-pure _)
  watch_overlay-Keeps (suc n) coop settled =
      watch_round-Keeps coop settled _ (watch_overlay-Keeps n coop settled)

  dealer_cooperative-Keeps : Keeps P (dealer_cooperative lib env)
  unfolding dealer_cooperative
  dealer_cooperative-Keeps =
      search
        (
          keeps_rules, quiet_rules, stable, state-Keeps, build_coop_tx-Keeps, u1_prevout-Keeps,
          settle_txid-Keeps, watch_overlay-Keeps,
        )
        depth 30 fits 2000

  coop_won-Keeps : (s : SetupResult lib) (r : CoopReveal lib.wire) → Keeps P (coop_won lib env s r)
  unfolding coop_won
  coop_won-Keeps s r = search (keeps_rules, quiet_rules, stable)

  coop_lost-Keeps :
      (s : SetupResult lib) (sk : lib.SecretKey) (r : CoopReveal lib.wire)
      → Keeps P (coop_lost lib env s sk r)
  unfolding coop_lost
  coop_lost-Keeps s sk r =
      search
        (keeps_rules, quiet_rules, stable, u1_prevout-Keeps, wait_confirmed-Keeps, persist-Keeps)
        depth 30 fits 2000

  answer_reveal-Keeps :
      (b : BobSecrets lib) (s : SetupResult lib) (o : Option Bytes)
      → Keeps P (answer_reveal lib env b s o)
  unfolding answer_reveal
  answer_reveal-Keeps b s none = Keeps-pure none
  answer_reveal-Keeps b s (some frame) =
      search (keeps_rules, quiet_rules, keep_a_c-Keeps, coop_won-Keeps, coop_lost-Keeps) depth 12

  player_cooperative-Keeps : Keeps P (player_cooperative lib env)
  unfolding player_cooperative
  player_cooperative-Keeps =
      search (keeps_rules, state-Keeps, recv_deadline-Keeps, answer_reveal-Keeps) depth 12

  pub try_cooperative_resolve-Keeps : Keeps P (try_cooperative_resolve lib env)
  unfolding try_cooperative_resolve resolve_as
  try_cooperative_resolve-Keeps = search (keeps_rules, by_role)
    where
      by_role : (r : BetRole lib) → Keeps P (resolve_as lib env r)
      by_role (dealer s) = dealer_cooperative-Keeps
      by_role (player s) = player_cooperative-Keeps

  pub settle-Keeps : Keeps P (settle lib env)
  unfolding settle settle_as
  settle-Keeps = search (keeps_rules, by_role)
    where
      by_role : (r : BetRole lib) → Keeps P (settle_as lib env r)
      by_role (dealer s) =
          search
            (keeps_rules, quiet_rules, stable, state-Keeps, wait_confirmed-Keeps, persist-Keeps)
            depth 12
      by_role (player s) = search (keeps_rules)

  pub observe_outcome-Keeps : Keeps P (observe_outcome lib env)
  unfolding observe_outcome observe_as
  observe_outcome-Keeps = search (keeps_rules, by_role)
    where
      by_role : (r : BetRole lib) → Keeps P (observe_as lib env r)
      by_role (dealer s) = search (keeps_rules, dealer_observe-Keeps, persist-Keeps)
      by_role (player s) = player_observe-Keeps s.guess

  pub claim_win-Keeps : Keeps P (claim_win lib env)
  unfolding claim_win claim_as
  claim_win-Keeps = search (keeps_rules, by_role)
    where
      by_role : (r : BetRole lib) → Keeps P (claim_as lib env r)
      by_role (dealer s) = search (keeps_rules)
      by_role (player s) =
          search (keeps_rules, build_claim_spend_tx-Keeps, submit_claim-Keeps, persist-Keeps) depth
            20

  pub dealer_take_on_loss-Keeps : Keeps P (dealer_take_on_loss lib env)
  unfolding dealer_take_on_loss
  dealer_take_on_loss-Keeps =
      search (keeps_rules, settle_txid-Keeps, wait_confirmed-Keeps, submit_claim-Keeps) depth 12
