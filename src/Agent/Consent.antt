-- ===== src/Agent/Consent.antt =====
-- When a node plays without its user, and what an answer of the user's does.
use babilonia.Prelude.{
  ℕ, ◌≤◌, ◌≡◌, ◌∙◌, refl, ap, ◌⊎◌, inl, inr, Bool, true, false, Option, none, some, [], ◌∷◌, ◌++◌,
  arith,
}
use babilonia.Bytes.{Bytes}
use babilonia.Bet.Library.{Library}
use babilonia.Bet.Env.{Env}
use babilonia.Terms.{ProposeTerms, scheme_supported, decode_terms}
use babilonia.Agent.Config.{Config}
use babilonia.Agent.Policy
use babilonia.Agent.Policy.{AcceptDecision, accept, reject, ask}
use babilonia.Agent.Events.{WorkerEvent, Input, Instr}
use babilonia.Agent.Node.{default_policies, Policies, Worker, Backend, Node, outside, report}
use babilonia.Agent.Worker.{
  send_reject, on_decision, on_proposal, on_frame, on_instr, accept_pending, accept_terms,
  set_worker,
}

-- The configuration accepts these terms without asking.
pub record AutoAccepts (config : Config) (t : ProposeTerms) : Type 0 where
  pub supported : scheme_supported t ≡ true
  pub auto : config.auto_accept ≡ true
  pub within : (config.auto_accept_cap_sats ≡ 0) ⊎ (t.stake_sats ≤ config.auto_accept_cap_sats)

decide_accept :
    (config : Config) (stake : ℕ)
    → Policy.decide stake config ≡ accept
    → (config.auto_accept ≡ true)
      × ((config.auto_accept_cap_sats ≡ 0) ⊎ (stake ≤ config.auto_accept_cap_sats))
unfolding Policy.decide
decide_accept config stake h = ground arith

module _ (lib : Library) (env : Env lib) (backend : Backend lib env) where
  sent_reject :
      (n : Node lib env) → (send_reject lib env default_policies backend n).played ≡ n.played
  unfolding send_reject outside
  sent_reject n = refl

  module _ (config : Config) where
    decision_plays :
        (t : ProposeTerms) (n : Node lib env) (d : AcceptDecision)
        → scheme_supported t ≡ true
        → Policy.decide t.stake_sats config ≡ d
        → ((on_decision lib env default_policies backend config t d n).played ≡ n.played)
          ⊎ AutoAccepts config t
    unfolding on_decision
    decision_plays t n accept h e =
        let (auto, within) = decide_accept config t.stake_sats e in
        inr (record { supported = h; auto = auto; within = within })
    decision_plays t n reject h e = inl (sent_reject n)
    decision_plays t n ask h e = inl refl

    proposal_plays :
        (t : ProposeTerms) (n : Node lib env) (b : Bool)
        → scheme_supported t ≡ b
        → ((on_proposal lib env default_policies backend config (some t) n).played ≡ n.played)
          ⊎ AutoAccepts config t
    unfolding on_proposal
    proposal_plays t n true e = rw e (decision_plays t n (Policy.decide t.stake_sats config) e refl)
    proposal_plays t n false e = rw e (inl (sent_reject _))

    decoded_plays :
        (n : Node lib env) (o : Option ProposeTerms)
        → ((on_proposal lib env default_policies backend config o n).played ≡ n.played)
          ⊎ ((t : ProposeTerms) × (o ≡ some t) × AutoAccepts config t)
    unfolding on_proposal
    decoded_plays n none = inl refl
    decoded_plays n (some t) = elim (proposal_plays t n (scheme_supported t) refl) [
      | inl same ↦ inl same
      | inr auto ↦ inr (t, refl, auto)
    ]

    -- With the default policy, a frame from the peer starts no bet, unless it is a proposal under the
    -- scheme that may be played, the configuration accepts without asking, and the stake is within
    -- the cap, if there is one.
    pub frame_plays :
        (frame : Bytes) (n : Node lib env)
        → ((on_frame lib env default_policies backend config (some frame) n).played ≡ n.played)
          ⊎ ((t : ProposeTerms) × (decode_terms frame ≡ some t) × AutoAccepts config t)
    unfolding on_frame
    frame_plays frame n = decoded_plays n (decode_terms frame)

module _ (lib : Library) (env : Env lib) (policies : Policies) (backend : Backend lib env)
    (config : Config) where
  asks :
      (t : ProposeTerms) (n : Node lib env)
      → scheme_supported t ≡ true
      → policies.decide t.stake_sats config ≡ ask
      → on_proposal lib env policies backend config (some t) n
        ≡ set_worker lib env policies backend
            (some (record { config = config; pending_terms = some t }))
            (report lib env (WorkerEvent.proposed t.stake_sats) n)
  unfolding on_proposal on_decision
  asks t n supported asked = rw (supported, asked) refl

  module _ (t u : ProposeTerms) (n : Node lib env) where
    abbrev pub both_in : Node lib env
    both_in =
        on_proposal lib env policies backend config (some u)
          (on_proposal lib env policies backend config (some t) n)

    abbrev pub waiting : Worker
    waiting = record { config = config; pending_terms = some u }

    -- If two proposals come in that the user is asked about, both are reported to the core, in their
    -- order, and then an acceptance, which names no bet, makes the worker accept the second.
    pub last_proposal_wins :
        scheme_supported t ≡ true
        → scheme_supported u ≡ true
        → policies.decide t.stake_sats config ≡ ask
        → policies.decide u.stake_sats config ≡ ask
        → (both_in.inputs
            ≡ (n.inputs ++ Input.worker (WorkerEvent.proposed t.stake_sats) ∷ [])
              ++ Input.worker (WorkerEvent.proposed u.stake_sats) ∷ [])
          × (both_in.worker ≡ some waiting)
          × (on_instr lib env policies backend waiting Instr.accept both_in
              ≡ accept_terms lib env policies backend config u (
                  set_worker lib env policies backend
                    (some (record { config = config; pending_terms = none }))
                    both_in))
    unfolding on_instr accept_pending
    last_proposal_wins t_ok u_ok t_asked u_asked =
        let first = asks t n t_ok t_asked in
        let second = asks u (on_proposal lib env policies backend config (some t) n) u_ok u_asked in
        (
          ap (λ m. m.inputs) second
              ∙ ap (λ m. m.inputs ++ Input.worker (WorkerEvent.proposed u.stake_sats) ∷ []) first,
          ap (λ m. m.worker) second,
          refl,
        )
