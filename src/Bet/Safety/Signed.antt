-- ===== src/Bet/Safety/Signed.antt =====
-- The setup has returned: its refund is in the bet, and not yet on disk.
use babilonia.Prelude.{
  ap, ok-injective, arith, ◌≡◌, refl, sym, ◌∙◌, subst, true, false, some, List, [], ◌∷◌, Result, ok,
  err,
}
use babilonia.Bytes.{Bytes}
use babilonia.Tx.{OutPoint, TxIn}
use babilonia.Action.{Action}
use babilonia.Action.Keeps.{Keeps, Triple, Ended, Triple-bind-gets, Triple-after, Triple-fact}
use babilonia.Action.Returns.{Returns, Triple-Returns}
use babilonia.Setup.Drivers.{run_alice, run_bob}
use babilonia.Bet.Library.{Library}
use babilonia.Bet.State.{Bet, GameParams, BetRole, SetupResult, dealer, player}
use babilonia.Bet.Env.{Env, St, M, Log, Effect, succeeded, act, update}
use babilonia.Bet.Agreement.{spent}
use babilonia.Bet.Quiet.{IsStable, IsQuiet}
use babilonia.Bet.Verbs.{run_setup}
use babilonia.Setup.Refund.{IsSetup, Pot, Finished, run_alice-Returns, run_bob-Returns}
use babilonia.Bet.Quiet.Ops
use babilonia.Bet.Persist.{set_witness, witness_first}
use babilonia.Bet.Safety.{FundsIf, IsU1, IsRefund, witnesses, Agreed, Agreed-IsStable}
use babilonia.Bet.Safety.Fund.{Logged}

module _ (lib : Library) (env : Env lib) (dir : Bytes) (role : BetRole lib) where
  -- The setup that was returned is in the bet.
  pub record Signed (pot : Pot lib) (r : SetupResult lib) (s : St lib env) : Type 0 where
    pub agreed : Agreed lib env dir role pot s
    pub stored : s.bet.setup ≡ some r

  pub Signed-IsStable : (pot : Pot lib) (r : SetupResult lib) → IsStable lib env (Signed pot r)
  Signed-IsStable pot r = record {
    after_call = λ s w h. record {
      agreed = (Agreed-IsStable lib env dir role pot).after_call s w h.agreed;
      stored = h.stored;
    };
    after_effect = λ s e b q h. record {
      agreed = (Agreed-IsStable lib env dir role pot).after_effect s e b q h.agreed;
      stored = h.stored;
    };
    after_update = λ s bet kept h. record {
      agreed = (Agreed-IsStable lib env dir role pot).after_update s bet kept h.agreed;
      stored = kept.setup ∙ h.stored;
    };
  }

  -- The setup of the pot's place, value and peer is that of the pot: both scripts are that of the
  -- same keys.
  at_pot :
      (pot : Pot lib) (p : GameParams) (r : SetupResult lib)
      → IsU1 lib role pot
      → p.u1_outpoint ≡ pot.place
      → p.u1_value ≡ pot.value
      → Finished lib role p pot.peer r
      → IsSetup lib role pot r
  at_pot pot p r (key, is_key) same_place same_value (script, h) =
      let scripts : (r.keyagg, script) ≡ (key, pot.script) =
        ok-injective _ _ (sym h.of_keys ∙ is_key) in
      let same : script ≡ pot.script = ap (λ q. q.1) scripts in
      subst
        (λ q.
          IsSetup lib role
            (record { place = q; value = pot.value; script = pot.script; peer = pot.peer }) r)
        same_place
        (subst
          (λ q.
            IsSetup lib role
              (record { place = p.u1_outpoint; value = q; script = pot.script; peer = pot.peer }) r)
          same_value
          (subst
            (λ q.
              IsSetup lib role
                (record { place = p.u1_outpoint; value = p.u1_value; script = q; peer = pot.peer })
                r)
            same h))

  abbrev Driven : Pot lib → SetupResult lib → St lib env → Type 0
  Driven pot r s = Agreed lib env dir role pot s × IsSetup lib role pot r

  driver_lem :
      {m : M lib env (SetupResult lib)} (pot : Pot lib) (p : GameParams)
      → Keeps (Agreed lib env dir role pot) m
      → Returns (Finished lib role p pot.peer) m
      → Triple
          (λ s.
            Agreed lib env dir role pot s
            × ((p.u1_outpoint ≡ pot.place) × (p.u1_value ≡ pot.value)))
          m
          (Driven pot)
          (Agreed lib env dir role pot)
  driver_lem pot p k returns = Triple-fact (λ same.
      Triple-after (Triple-Returns k returns)
        (λ r s h. (h.0, at_pot pot p r h.0.is_u1 same.0 same.1 h.1)))

  run_side-Triple :
      (pot : Pot lib) (side : BetRole lib)
      → side ≡ role
      → Triple
          (Agreed lib env dir role pot)
          (run_setup lib env side pot.peer)
          (Driven pot)
          (Agreed lib env dir role pot)
  unfolding run_setup
  run_side-Triple pot (dealer s) is_role =
      Triple-bind-gets _ _ (λ st h. (h, (h.outpoint, h.value)))
        (λ p.
          driver_lem pot p (Ops.run_alice-Keeps (Agreed-IsStable lib env dir role pot) p s pot.peer)
            (subst (λ q. Returns (Finished lib q p pot.peer) (run_alice lib env p s pot.peer))
              is_role (run_alice-Returns lib env p s pot.peer)))
  run_side-Triple pot (player s) is_role =
      Triple-bind-gets _ _ (λ st h. (h, (h.outpoint, h.value)))
        (λ p.
          driver_lem pot p (Ops.run_bob-Keeps (Agreed-IsStable lib env dir role pot) p s pot.peer) (
            subst (λ q. Returns (Finished lib q p pot.peer) (run_bob lib env p s pot.peer)) is_role
              (run_bob-Returns lib env p s pot.peer)))

  pub run_setup-Triple :
      (pot : Pot lib) (side : BetRole lib) (peer : lib.PublicKey)
      → side ≡ role
      → peer ≡ pot.peer
      → Triple
          (Agreed lib env dir role pot)
          (run_setup lib env side peer)
          (Driven pot)
          (Agreed lib env dir role pot)
  run_setup-Triple pot side peer is_role is_peer =
      subst
        (λ q.
          Triple (Agreed lib env dir role pot) (run_setup lib env side q) (Driven pot)
            (Agreed lib env dir role pot))
        (sym is_peer) (run_side-Triple pot side is_role)

  pub with_setup-Triple :
      (pot : Pot lib) (r : SetupResult lib) (f : Bet lib → Bet lib)
      → ((b : Bet lib) → (f b).state_dir ≡ b.state_dir)
      → ((b : Bet lib) → (f b).funding_psbt ≡ b.funding_psbt)
      → ((b : Bet lib) → (f b).params.u1_outpoint ≡ b.params.u1_outpoint)
      → ((b : Bet lib) → (f b).params.u1_value ≡ b.params.u1_value)
      → ((b : Bet lib) → (f b).peer_key ≡ b.peer_key)
      → ((b : Bet lib) → (f b).role ≡ b.role)
      → ((b : Bet lib) → (f b).setup ≡ some r)
      → Triple
          (Agreed lib env dir role pot)
          (update lib env f)
          (λ _. Signed pot r)
          (Logged lib env dir role)
  unfolding update
  with_setup-Triple pot r f same_dir same_psbt same_pot same_value same_peer same_role same_setup =
      record {
        run = λ s h. record {
          agreed = record {
            log = h.log;
            saves = same_dir s.bet ∙ h.saves;
            side = same_role s.bet ∙ h.side;
            peer = same_peer s.bet ∙ h.peer;
            is_u1 = h.is_u1;
            outpoint = same_pot s.bet ∙ h.outpoint;
            value = same_value s.bet ∙ h.value;
            funds = subst (FundsIf lib role pot) (sym (same_psbt s.bet)) h.funds;
          };
          stored = same_setup s.bet;
        };
      }

  witness_first-spent : (is : List TxIn) (w : List Bytes) → spent (witness_first is w) ≡ spent is
  witness_first-spent [] w = refl
  witness_first-spent (i ∷ is) w = refl

  one_witness :
      (is : List TxIn) (w : List Bytes) (o : OutPoint)
      → spent is ≡ o ∷ []
      → witnesses (witness_first is w) ≡ w ∷ []
  one_witness [] w o h = ground arith
  one_witness (i ∷ []) w o h = refl
  one_witness (i ∷ j ∷ is) w o h = ground arith

  -- The refund of a setup, with its signature.
  pub set_witness-IsRefund :
      (pot : OutPoint) (r : SetupResult lib)
      → spent r.refund_tx.input ≡ pot ∷ []
      → IsRefund lib pot r (set_witness r.refund_tx (lib.signature_bytes r.refund_sig ∷ []))
  unfolding set_witness
  set_witness-IsRefund pot r h = record {
    spends = witness_first-spent r.refund_tx.input _ ∙ h;
    witness = one_witness r.refund_tx.input _ pot h;
    output = refl;
    lock_time = refl;
  }

  -- What holds after an effect that succeeded.
  pub act-Triple :
      {A : Type 0} {P : St lib env → Type 0} (q : Log lib → Type 0) (e : Effect lib)
      (f : Action env.World A)
      → IsStable lib env P
      → IsQuiet e
      → ((s : St lib env) → P s → Logged lib env dir role s)
      → ((log : Log lib) → q ((e, true) ∷ log))
      → Triple P (act lib env e f) (λ _ s. P s × q s.log) (Logged lib env dir role)
  unfolding act
  act-Triple {A} {P} q e f stable quiet logged holds = record {
    run = λ s h. let (r, w) = f s.world in after r w s h;
  }
    where
      after :
          (r : Result A) (w : env.World) (s : St lib env)
          → P s
          → Ended
              (λ _ s. P s × q s.log)
              (Logged lib env dir role)
              (r, record s { world = w; log = (e, succeeded lib env r) ∷ s.log })
      after (ok a) w s h = (
        stable.after_effect (record s { world = w }) e true quiet (stable.after_call s w h),
        holds s.log,
      )
      after (err x) w s h =
          logged _
            (stable.after_effect (record s { world = w }) e false quiet (stable.after_call s w h))
