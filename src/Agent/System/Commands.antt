-- ===== src/Agent/System/Commands.antt =====
-- The handlers of the core keep the node good.
use babilonia.Prelude.{
  ℕ, ◌≡◌, refl, sym, subst, Bool, true, false, Option, none, some, ◌⊎◌, inl, inr, if◌then◌else◌,
}
use babilonia.Text.{Text}
use babilonia.Action.{Action, ◌>>◌}
use babilonia.Action.Keeps.{Keeps-bind}
use babilonia.Bet.Library.{Library}
use babilonia.Bet.Env.{Env}
use babilonia.Agent.Config.{Config}
use babilonia.Agent.Config.Laws.{IsSound, AfterSetting, apply-AfterSetting}
use babilonia.Agent.Events.{Note, Failure, Instr}
use babilonia.Agent.Node.{Policies, Peer, NodeCore, Backend, Node, set_core, outside}
use babilonia.Agent.Core.{
  connect, propose_at, propose_stake, propose_to, propose, terms_of, matches, decide, answer,
  save_to, push_config, keep_setting, set_config,
}
use babilonia.Agent.System.Kept.{
  IsPlayable, FreshIds, ShownIf, IsGood, Preserves, Kept, outside-Keeps, respond-Preserves,
  info-Preserves, error-Preserves, instruct-Preserves, then-Preserves,
}

module _ (lib : Library) (env : Env lib) (policies : Policies) (backend : Backend lib env) where
  pub still : Preserves lib env (λ n. n)
  still = record { good = λ n h. h }

  -- What changes neither the configuration nor the bets that are shown or pending.
  pub set_core-Preserves :
      (f : NodeCore → NodeCore)
      → ((c : NodeCore) → (f c).config ≡ c.config)
      → ((c : NodeCore) → (f c).next_bet_id ≡ c.next_bet_id)
      → ((c : NodeCore) → (f c).pending ≡ c.pending)
      → Preserves lib env (set_core lib env f)
  set_core-Preserves f config next pending = record {
    good = λ n h. record {
      config = subst IsSound (sym (config n.core)) h.config;
      worker = h.worker;
      instrs = h.instrs;
      played = h.played;
      fresh = subst (λ i. FreshIds i n.events) (sym (next n.core)) h.fresh;
      shown = subst (λ o. ShownIf o n.events) (sym (pending n.core)) h.shown;
    };
  }

  pub connect-Preserves : (addr : Text) → Preserves lib env (connect lib env policies backend addr)
  unfolding connect
  connect-Preserves addr =
      respond-Preserves lib env _ _ _ (outside-Keeps lib env (backend.dial addr))
        (λ done. then-Preserves lib env _ _ (info-Preserves lib env (Note.dialing addr)) (
          set_core-Preserves (λ c. record c { dialed = some addr }) (λ c. refl) (λ c. refl)
            (λ c. refl)))
        (λ e. error-Preserves lib env (Failure.dial e))

  scheme_allowed :
      (config : Config) (stake height : ℕ)
      → IsSound config
      → IsPlayable (terms_of config stake height)
  unfolding terms_of
  scheme_allowed config stake height h = rw h.scheme refl

  -- Opens a handle, then calls it.
  pub opened-Keeps :
      {A B : Type 0} (open_handle : Action env.World A) (f : Action env.World B)
      → Kept lib env (do outside lib env open_handle; outside lib env f)
  opened-Keeps open_handle f =
      Keeps-bind _ _ (outside-Keeps lib env open_handle) (λ opened. outside-Keeps lib env f)

  propose_stake-Preserves :
      (config : Config) (o : Option ℕ)
      → IsSound config
      → Preserves lib env (propose_stake lib env policies backend config o)
  unfolding propose_stake propose_at
  propose_stake-Preserves config none h = error-Preserves lib env Failure.declined
  propose_stake-Preserves config (some stake) h =
      respond-Preserves lib env _ _ _ (opened-Keeps backend.chain env.block_height)
        (λ height.
          then-Preserves lib env _ _
            (instruct-Preserves lib env (Instr.propose (terms_of config stake height))
              (scheme_allowed config stake height h))
            (info-Preserves lib env (Note.proposed_bet stake)))
        (λ e. error-Preserves lib env (Failure.height e))

  propose_to-Preserves :
      (config : Config) (o : Option Peer)
      → IsSound config
      → Preserves lib env (propose_to lib env policies backend config o)
  unfolding propose_to
  propose_to-Preserves config none h = error-Preserves lib env Failure.no_peer
  propose_to-Preserves config (some peer) h =
      respond-Preserves lib env _ _ _ (opened-Keeps backend.wallet backend.utxo_values)
        (λ utxos. propose_stake-Preserves config (policies.stake_sats utxos config) h)
        (λ e. error-Preserves lib env (Failure.utxos e))

  pub propose-Preserves : Preserves lib env (propose lib env policies backend)
  unfolding propose
  propose-Preserves = record {
    good = λ n h. (propose_to-Preserves n.core.config n.core.peer h.config).good n h;
  }

  pub forget_pending : Preserves lib env (set_core lib env (λ c. record c { pending = none }))
  forget_pending = record {
    good = λ n h. record {
      config = h.config;
      worker = h.worker;
      instrs = h.instrs;
      played = h.played;
      fresh = h.fresh;
      shown = tt;
    };
  }

  answer-Preserves : (b : Bool) → Preserves lib env (answer lib env policies backend b)
  answer-Preserves true = instruct-Preserves lib env Instr.accept tt
  answer-Preserves false =
      then-Preserves lib env _ _ (instruct-Preserves lib env Instr.reject tt) forget_pending

  either :
      (b : Bool) (f g : Node lib env → Node lib env)
      → Preserves lib env f
      → Preserves lib env g
      → (n : Node lib env) → IsGood lib env n
      → IsGood lib env (if b then f n else g n)
  either true f g h k n good = h.good n good
  either false f g h k n good = k.good n good

  pub decide-Preserves :
      (id : ℕ) (accept : Bool) → Preserves lib env (decide lib env policies backend id accept)
  unfolding decide
  decide-Preserves id accept = record {
    good = λ n h.
        either (matches lib env policies backend n.core.pending n.core.peer id) _ _
          (answer-Preserves accept) (error-Preserves lib env (Failure.no_pending_bet id)) n h;
  }

  save_to-Preserves :
      (o : Option Text) (config : Config)
      → Preserves lib env (save_to lib env policies backend o config)
  unfolding save_to
  save_to-Preserves none config = still
  save_to-Preserves (some path) config =
      respond-Preserves lib env _ _ _ (outside-Keeps lib env _) (λ done. still)
        (λ e. error-Preserves lib env (Failure.save_config e))

  push_config-Preserves :
      (o : Option Peer) (config : Config)
      → IsSound config
      → Preserves lib env (push_config lib env policies backend o config)
  unfolding push_config
  push_config-Preserves none config h = still
  push_config-Preserves (some peer) config h = instruct-Preserves lib env (Instr.config config) h

  new_config-IsGood :
      (config : Config) (n : Node lib env)
      → IsSound config
      → IsGood lib env n
      → IsGood lib env (set_core lib env (λ c. record c { config = config }) n)
  new_config-IsGood config n sound h = record {
    config = sound;
    worker = h.worker;
    instrs = h.instrs;
    played = h.played;
    fresh = h.fresh;
    shown = h.shown;
  }

  keep_setting-IsGood :
      (key value : Text) (r : Text ⊎ Config) (n : Node lib env)
      → AfterSetting r
      → IsGood lib env n
      → IsGood lib env (keep_setting lib env policies backend key value r n)
  unfolding keep_setting
  keep_setting-IsGood key value (inl message) n sound h =
      (error-Preserves lib env (Failure.refused message)).good n h
  keep_setting-IsGood key value (inr config) n sound h =
      (info-Preserves lib env (Note.setting key value)).good _ (
        (push_config-Preserves _ config sound).good _
          ((save_to-Preserves _ config).good _ (new_config-IsGood config n sound h)))

  pub set_config-Preserves :
      (key value : Text) → Preserves lib env (set_config lib env policies backend key value)
  unfolding set_config
  set_config-Preserves key value = record {
    good = λ n h.
        keep_setting-IsGood key value _ n
          (apply-AfterSetting backend.names n.core.config key value h.config) h;
  }
