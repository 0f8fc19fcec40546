-- ===== src/Agent/System/Safe.antt =====
-- Every turn of a node keeps it good, so every state that a node reaches is.
use babilonia.Prelude.{
  ◌≡◌, refl, subst, Bool, true, false, Option, none, some, List, [], ◌∷◌, arith, if◌then◌else◌, All,
}
use babilonia.Bytes.{Bytes}
use babilonia.Bet.Library.{Library}
use babilonia.Bet.Env.{Env}
use babilonia.Terms.{ProposeTerms, scheme_supported, decode_terms}
use babilonia.Agent.Config.{Config}
use babilonia.Agent.Config.Laws.{IsSound}
use babilonia.Agent.Policy.{AcceptDecision, accept, reject, ask}
use babilonia.Agent.Events.{Note, WorkerEvent, Instr}
use babilonia.Agent.Node.{Policies, Worker, Backend, Node, report}
use babilonia.Agent.Worker.{
  send_reject, on_decision, on_proposal, on_frame, poll_frame, accept_pending, on_instr, poll_instr,
}
use babilonia.Agent.System
use babilonia.Agent.System.{
  Step, arrives, core_turn, frame_turn, instr_turn, outside_turn, Reach, here, next,
}
use babilonia.Agent.System.Kept.{
  IsPlayable, PlayableIf, AllowedInstr, SoundIf, SoundWorker, IsGood, Preserves, outside-Keeps,
  respond-Preserves, report-Preserves, then-Preserves,
}
use babilonia.Agent.System.Turns.{handle-Preserves}
use babilonia.Agent.System.Bets.{
  still, elsewhere, accept_terms-Preserves, run_proposer-Preserves, send_reject-Preserves,
  set_worker-Preserves, ends-Preserves,
}

supported-IsPlayable : (t : ProposeTerms) → scheme_supported t ≡ true → IsPlayable t
unfolding scheme_supported
supported-IsPlayable t h = ground arith

module _ (lib : Library) (env : Env lib) (policies : Policies) (backend : Backend lib env) where
  on_decision-Preserves :
      (config : Config) (t : ProposeTerms) (d : AcceptDecision)
      → IsSound config
      → IsPlayable t
      → Preserves lib env (on_decision lib env policies backend config t d)
  unfolding on_decision
  on_decision-Preserves config t accept sound h =
      then-Preserves lib env _ _ (report-Preserves lib env _)
        (accept_terms-Preserves lib env policies backend config t h)
  on_decision-Preserves config t reject sound h = send_reject-Preserves lib env policies backend
  on_decision-Preserves config t ask sound h =
      then-Preserves lib env _ _ (report-Preserves lib env _)
        (set_worker-Preserves lib env policies backend _ (record { config = sound; pending = h }))

  on_supported-IsGood :
      (config : Config) (t : ProposeTerms) (n : Node lib env) (b : Bool)
      → scheme_supported t ≡ b
      → IsSound config
      → IsGood lib env n
      → IsGood lib env (
          if b
          then on_decision lib env policies backend config t (policies.decide t.stake_sats config) n
          else send_reject lib env policies backend
              (report lib env (WorkerEvent.info Note.disabled_scheme) n))
  on_supported-IsGood config t n true e sound h =
      (on_decision-Preserves config t _ sound (supported-IsPlayable t e)).good n h
  on_supported-IsGood config t n false e sound h =
      (send_reject-Preserves lib env policies backend).good _
        ((report-Preserves lib env _).good n h)

  on_proposal-Preserves :
      (config : Config) (o : Option ProposeTerms)
      → IsSound config
      → Preserves lib env (on_proposal lib env policies backend config o)
  unfolding on_proposal
  on_proposal-Preserves config none sound = still lib env policies backend
  on_proposal-Preserves config (some t) sound = record {
    good = λ n h. on_supported-IsGood config t n (scheme_supported t) refl sound h;
  }

  on_frame-Preserves :
      (config : Config) (o : Option Bytes)
      → IsSound config
      → Preserves lib env (on_frame lib env policies backend config o)
  unfolding on_frame
  on_frame-Preserves config none sound = still lib env policies backend
  on_frame-Preserves config (some frame) sound =
      on_proposal-Preserves config (decode_terms frame) sound

  poll_frame-Preserves :
      (w : Worker) → SoundWorker w → Preserves lib env (poll_frame lib env policies backend w)
  unfolding poll_frame
  poll_frame-Preserves w sound =
      respond-Preserves lib env _ _ _ (outside-Keeps lib env env.try_recv)
        (λ o. on_frame-Preserves w.config o sound.config)
        (λ e. ends-Preserves lib env policies backend)

  accept_pending-Preserves :
      (w : Worker) (o : Option ProposeTerms)
      → SoundWorker w
      → PlayableIf o
      → Preserves lib env (accept_pending lib env policies backend w o)
  unfolding accept_pending
  accept_pending-Preserves w none sound h = still lib env policies backend
  accept_pending-Preserves w (some t) sound h =
      then-Preserves lib env _ _
        (set_worker-Preserves lib env policies backend _
          (record { config = sound.config; pending = tt }))
        (accept_terms-Preserves lib env policies backend w.config t h)

  on_instr-Preserves :
      (w : Worker) (i : Instr)
      → SoundWorker w
      → AllowedInstr i
      → Preserves lib env (on_instr lib env policies backend w i)
  unfolding on_instr
  on_instr-Preserves w (Instr.propose t) sound h =
      run_proposer-Preserves lib env policies backend w.config t h
  on_instr-Preserves w Instr.accept sound h =
      accept_pending-Preserves w w.pending_terms sound sound.pending
  on_instr-Preserves w Instr.reject sound h =
      then-Preserves lib env _ _ (send_reject-Preserves lib env policies backend) (
        set_worker-Preserves lib env policies backend _
          (record { config = sound.config; pending = tt }))
  on_instr-Preserves w (Instr.config c) sound h =
      set_worker-Preserves lib env policies backend _
        (record { config = h; pending = sound.pending })
  on_instr-Preserves w Instr.quit sound h = ends-Preserves lib env policies backend

  poll_instr-IsGood :
      (w : Worker) (is : List Instr) (n : Node lib env)
      → SoundWorker w
      → All AllowedInstr is
      → IsGood lib env n
      → IsGood lib env (poll_instr lib env policies backend w is n)
  unfolding poll_instr
  poll_instr-IsGood w [] n sound h good = good
  poll_instr-IsGood w (i ∷ is) n sound h good = (on_instr-Preserves w i sound h.0).good _ (record {
    config = good.config;
    worker = good.worker;
    instrs = h.1;
    played = good.played;
    fresh = good.fresh;
    shown = good.shown;
  })

  abbrev Turn : Node lib env → Node lib env → Type 0
  Turn = Step lib env policies backend

  its_worker :
      (n : Node lib env) (w : Worker) → n.worker ≡ some w → IsGood lib env n → SoundWorker w
  its_worker n w e h = subst SoundIf e h.worker

  Step-IsGood : {n m : Node lib env} → Turn n m → IsGood lib env n → IsGood lib env m
  Step-IsGood (arrives n i) h = record {
    config = h.config;
    worker = h.worker;
    instrs = h.instrs;
    played = h.played;
    fresh = h.fresh;
    shown = h.shown;
  }
  Step-IsGood (core_turn n i is runs e) h =
      (handle-Preserves lib env policies backend i).good _ (record {
        config = h.config;
        worker = h.worker;
        instrs = h.instrs;
        played = h.played;
        fresh = h.fresh;
        shown = h.shown;
      })
  Step-IsGood (frame_turn n w e) h = (poll_frame-Preserves w (its_worker n w e h)).good n h
  Step-IsGood (instr_turn n w e) h = poll_instr-IsGood w n.instrs n (its_worker n w e h) h.instrs h
  Step-IsGood (outside_turn n w) h = elsewhere lib env policies backend n w h

  Reach-IsGood :
      {n m : Node lib env}
      → Reach lib env policies backend n m
      → IsGood lib env n
      → IsGood lib env m
  Reach-IsGood here h = h
  Reach-IsGood (next r s) h = Step-IsGood s (Reach-IsGood r h)

  new-IsGood :
      (config : Config) (w : env.World)
      → IsSound config
      → IsGood lib env (System.new lib env config w)
  unfolding System.new
  new-IsGood config w sound = record {
    config = sound;
    worker = tt;
    instrs = tt;
    played = tt;
    fresh = tt;
    shown = tt;
  }

  -- From a sound configuration, whatever the user, the peer, the chain and the disk do, and in
  -- whatever order the core and the worker take their turns: no proposal is under the disabled scheme,
  -- no bet was played under it, every bet that was played with a directory signed its funding only
  -- when its refund was on disk, the ids of the bets that are shown are distinct, and the bet that
  -- awaits an answer was shown with its id and its stake.
  pub reached-IsGood :
      (config : Config) (w : env.World)
      → IsSound config
      → (n : Node lib env) → Reach lib env policies backend (System.new lib env config w) n
      → IsGood lib env n
  reached-IsGood config w sound n r = Reach-IsGood r (new-IsGood config w sound)
