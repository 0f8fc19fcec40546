-- ===== src/Agent/System/Bets.antt =====
-- The bets that a worker plays, and what the worker keeps.
use babilonia.Prelude.{◌≡◌, refl, sym, subst, Bool, true, false, none, some, [], if◌then◌else◌}
use babilonia.Bytes.{Bytes}
use babilonia.Text.{◌=ᵗ◌}
use babilonia.Game.{play_dealer, play_player}
use babilonia.Bet.Verbs.{bet_chain}
use babilonia.Bet.Library.{Library, squaring}
use babilonia.Bet.State.{BetRole, dealer, player, new_bet}
use babilonia.Bet.Env.{Env}
use babilonia.Bet.Safety.{IsSafe}
use babilonia.Bet.Safety.Play.{dealer_signs_covered, player_signs_covered}
use babilonia.Terms.{ProposeTerms, scheme_of, encode_terms}
use babilonia.Agent.Config.{Config}
use babilonia.Agent.Node.{Policies, Worker, Backend, Node}
use babilonia.Agent.Worker.{
  game_params, msg_accept, msg_reject, play_role, begin_bet, play_open, play, run_dealer,
  run_player, on_reply, run_proposer, accept_terms, send_reject, set_worker,
}
use babilonia.Agent.System.Kept.{
  IsPlayable, SoundWorker, IsGood, Preserves, outside-Keeps, respond-Preserves, report-Preserves,
}

playable_scheme : (t : ProposeTerms) → IsPlayable t → scheme_of t ≡ squaring
unfolding scheme_of
playable_scheme t h = rw h refl

module _ (lib : Library) (env : Env lib) (policies : Policies) (backend : Backend lib env) where
  -- A bet of either role with a directory signs nothing uncovered.
  role_covered :
      (config : Config) (t : ProposeTerms) (role : BetRole lib) (id dir : Bytes) (w : env.World)
      → config.state_dir ≡ some dir
      → IsSafe lib role
          (play_role lib env policies backend role
            (begin_bet lib env policies backend config t role id w)).1.log
  unfolding play_role begin_bet
  role_covered config t (dealer s) id dir w e =
      subst
        (λ o.
          IsSafe lib (dealer s)
            (play_dealer (bet_chain lib env) (record {
              bet = new_bet lib config.network (game_params t) (dealer s) id o;
              world = w;
              log = [];
            })).1.log)
        (sym e) (dealer_signs_covered lib env config.network (game_params t) (dealer s) id dir w)
  role_covered config t (player s) id dir w e =
      subst
        (λ o.
          IsSafe lib (player s)
            (play_player (bet_chain lib env) (record {
              bet = new_bet lib config.network (game_params t) (player s) id o;
              world = w;
              log = [];
            })).1.log)
        (sym e) (player_signs_covered lib env config.network (game_params t) (player s) id dir w)

  pub still : Preserves lib env (λ n. n)
  still = record { good = λ n h. h }

  pub play_open-Preserves :
      (config : Config) (t : ProposeTerms) (role : BetRole lib)
      → IsPlayable t
      → Preserves lib env (play_open lib env policies backend config t role)
  unfolding play_open
  play_open-Preserves config t role h = record {
    good = λ n good. record {
      config = good.config;
      worker = good.worker;
      instrs = good.instrs;
      played = (
        record {
          scheme = playable_scheme t h;
          covered = λ dir e. (role, role_covered config t role _ dir _ e);
        },
        good.played,
      );
      fresh = good.fresh;
      shown = good.shown;
    };
  }

  pub play-Preserves :
      (config : Config) (t : ProposeTerms) (role : BetRole lib)
      → IsPlayable t
      → Preserves lib env (play lib env policies backend config t role)
  unfolding play
  play-Preserves config t role h =
      respond-Preserves lib env _ _ _ (outside-Keeps lib env backend.wallet)
        (λ opened.
          respond-Preserves lib env _ _ _ (outside-Keeps lib env backend.chain)
            (λ done. play_open-Preserves config t role h) (λ e. report-Preserves lib env _))
        (λ e.
          respond-Preserves lib env _ _ _ (outside-Keeps lib env backend.chain)
            (λ done. report-Preserves lib env _) (λ f. report-Preserves lib env _))

  pub elsewhere :
      (n : Node lib env) (w : env.World)
      → IsGood lib env n
      → IsGood lib env (record n { world = w })
  elsewhere n w h = record {
    config = h.config;
    worker = h.worker;
    instrs = h.instrs;
    played = h.played;
    fresh = h.fresh;
    shown = h.shown;
  }

  pub run_dealer-Preserves :
      (config : Config) (t : ProposeTerms)
      → IsPlayable t
      → Preserves lib env (run_dealer lib env policies backend config t)
  unfolding run_dealer
  run_dealer-Preserves config t h = record {
    good = λ n good. (play-Preserves config t _ h).good _ (elsewhere n _ good);
  }

  pub run_player-Preserves :
      (config : Config) (t : ProposeTerms)
      → IsPlayable t
      → Preserves lib env (run_player lib env policies backend config t)
  unfolding run_player
  run_player-Preserves config t h = record {
    good = λ n good. (play-Preserves config t _ h).good _ (elsewhere n _ good);
  }

  Preserves-if :
      (b : Bool) (f g : Node lib env → Node lib env)
      → Preserves lib env f
      → Preserves lib env g
      → Preserves lib env (if b then f else g)
  Preserves-if true f g h k = h
  Preserves-if false f g h k = k

  pub on_reply-Preserves :
      (config : Config) (t : ProposeTerms) (resp : Bytes)
      → IsPlayable t
      → Preserves lib env (on_reply lib env policies backend config t resp)
  unfolding on_reply
  on_reply-Preserves config t resp h =
      Preserves-if (resp =ᵗ msg_accept) _ _ (run_dealer-Preserves config t h) (
        Preserves-if (resp =ᵗ msg_reject) _ _ (report-Preserves lib env _)
          (report-Preserves lib env _))

  pub run_proposer-Preserves :
      (config : Config) (t : ProposeTerms)
      → IsPlayable t
      → Preserves lib env (run_proposer lib env policies backend config t)
  unfolding run_proposer
  run_proposer-Preserves config t h =
      respond-Preserves lib env _ _ _ (outside-Keeps lib env (env.send (encode_terms t)))
        (λ done.
          respond-Preserves lib env _ _ _ (outside-Keeps lib env env.recv)
            (λ resp. on_reply-Preserves config t resp h) (λ e. report-Preserves lib env _))
        (λ e. report-Preserves lib env _)

  pub accept_terms-Preserves :
      (config : Config) (t : ProposeTerms)
      → IsPlayable t
      → Preserves lib env (accept_terms lib env policies backend config t)
  unfolding accept_terms
  accept_terms-Preserves config t h =
      respond-Preserves lib env _ _ _ (outside-Keeps lib env (env.send msg_accept))
        (λ done. run_player-Preserves config t h) (λ e. still)

  pub send_reject-Preserves : Preserves lib env (send_reject lib env policies backend)
  unfolding send_reject
  send_reject-Preserves = record { good = (outside-Keeps lib env (env.send msg_reject)).kept }

  pub set_worker-Preserves :
      (w : Worker)
      → SoundWorker w
      → Preserves lib env (set_worker lib env policies backend (some w))
  set_worker-Preserves w sound = record {
    good = λ n h. record {
      config = h.config;
      worker = sound;
      instrs = h.instrs;
      played = h.played;
      fresh = h.fresh;
      shown = h.shown;
    };
  }

  pub ends-Preserves : Preserves lib env (set_worker lib env policies backend none)
  ends-Preserves = record {
    good = λ n h. record {
      config = h.config;
      worker = tt;
      instrs = h.instrs;
      played = h.played;
      fresh = h.fresh;
      shown = h.shown;
    };
  }
