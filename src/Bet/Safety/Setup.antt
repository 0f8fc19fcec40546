-- ===== src/Bet/Safety/Setup.antt =====
-- `setup` leaves the signed refund of the pot and the record of the setup on disk.
use babilonia.Prelude.{◌≡◌, refl, sym, ◌∙◌, ap, subst, Option, none, some, true, [], ◌∷◌}
use mathlib.Core.Option
use mathlib.Core.Option.{some-injective}
use babilonia.Bytes.{Bytes}
use babilonia.Tx.{OutPoint, Transaction}
use babilonia.Action.Keeps.{
  Triple, Triple-bind, Triple-bind-lift, Triple-bind-gets, Triple-Keeps, Triple-after, Triple-fact,
  Triple-lift, Triple-error,
}
use babilonia.Bet.Library.{Library}
use babilonia.Bet.State.{Bet, BetRole, SetupResult, setup_done}
use babilonia.Bet.Env.{Env, St, Log, refund_written}
use babilonia.Bet.Quiet.{IsStable, refund_quiet, saved_quiet}
use babilonia.Action.{◌>>◌}
use babilonia.Bet.Verbs.{setup, prebuild_reclaim}
use babilonia.Setup.Refund.{IsSetup, Pot}
use babilonia.Bet.Quiet.Ops
use babilonia.Bet.Persist.{
  persist, persist_in, persist_refund, persist_refund_in, state, setup_data, set_witness,
}
use babilonia.Bet.Safety.{Covered, Recorded, HasSetup, Agreed, Armed}
use babilonia.Bet.Safety.Fund.{Logged, ok_or-eq-ok}
use babilonia.Bet.Safety.Signed.{
  Signed, Signed-IsStable, run_setup-Triple, with_setup-Triple, set_witness-IsRefund, act-Triple,
}

module _ (lib : Library) (env : Env lib) (dir : Bytes) (role : BetRole lib) (pot : Pot lib)
    (r : SetupResult lib) (is_setup : IsSetup lib role pot r) where
  abbrev Stored : St lib env → Type 0
  Stored = Signed lib env dir role pot r

  Stored-IsStable : IsStable lib env Stored
  Stored-IsStable = Signed-IsStable lib env dir role pot r

  -- The refund is on disk, and the record is not yet.
  record Held (s : St lib env) : Type 0 where
    pub signed : Stored s
    pub covered : Covered lib pot.place r s.log

  Held-IsStable : IsStable lib env Held
  Held-IsStable = record {
    after_call =
        λ s w h. record { signed = Stored-IsStable.after_call s w h.signed; covered = h.covered };
    after_effect = λ s e b q h. record {
      signed = Stored-IsStable.after_effect s e b q h.signed;
      covered = Covered.later (e, b) s.log h.covered;
    };
    after_update = λ s bet kept h. record {
      signed = Stored-IsStable.after_update s bet kept h.signed;
      covered = h.covered;
    };
  }

  state-Triple :
      Triple Stored (state lib env) (λ got s. Stored s × (r ≡ got)) (Logged lib env dir role)
  unfolding state
  state-Triple =
      Triple-bind-gets _ _ (λ s h. (h, h.stored))
        (λ b. Triple-fact (λ stored.
          Triple-lift _ (λ s h. h.agreed.log)
            (λ got is_got s h. (h, some-injective _ _ (sym stored ∙ ok_or-eq-ok lib _ b is_got)))))

  abbrev witnessed : SetupResult lib → Transaction
  witnessed got = set_witness got.refund_tx (lib.signature_bytes got.refund_sig ∷ [])

  written :
      (o : OutPoint) (got : SetupResult lib) (log : Log lib)
      → o ≡ pot.place
      → r ≡ got
      → Covered lib pot.place r ((refund_written o (witnessed got), true) ∷ log)
  written o got log is_pot is_r =
      subst (λ q. Covered lib pot.place r ((refund_written q (witnessed got), true) ∷ log))
        (sym is_pot)
        (subst (λ g. Covered lib pot.place r ((refund_written pot.place (witnessed g), true) ∷ log))
          is_r
          (Covered.written (witnessed r) log
            (set_witness-IsRefund lib env dir role pot.place r is_setup.refunds)))

  persist_refund_in-Triple :
      (d : Option Bytes)
      → d ≡ some dir
      → Triple Stored (persist_refund_in lib env d) (λ _. Held) (Logged lib env dir role)
  unfolding persist_refund_in
  persist_refund_in-Triple none h = cc
  persist_refund_in-Triple (some d) h = Triple-bind _ _ state-Triple (λ got. Triple-fact (λ is_r.
      Triple-bind-gets _ _ (λ s h. (h, h.agreed.outpoint))
        (λ p. Triple-fact (λ is_pot.
          Triple-after
            (act-Triple lib env dir role (Covered lib pot.place r) _ _ Stored-IsStable refund_quiet
              (λ s h. h.agreed.log) (λ log. written p.u1_outpoint got log is_pot is_r))
            (λ _ s h. record { signed = h.0; covered = h.1 })))))

  persist_refund-Triple :
      Triple Stored (persist_refund lib env) (λ _. Held) (Logged lib env dir role)
  unfolding persist_refund
  persist_refund-Triple =
      Triple-bind-gets _ _ (λ s h. (h, h.agreed.saves))
        (λ d. Triple-fact (λ is_dir. persist_refund_in-Triple d is_dir))

  persist_in-Triple :
      (b : Bet lib) (d : Option Bytes)
      → b.params.u1_outpoint ≡ pot.place
      → b.setup ≡ some r
      → d ≡ some dir
      → Triple Held
          (persist_in lib env d setup_done b)
          (λ _. Armed lib env dir role pot)
          (Logged lib env dir role)
  unfolding persist_in setup_data
  persist_in-Triple b none is_pot is_r h = cc
  persist_in-Triple b (some d) is_pot is_r h =
      let same : HasSetup lib r (setup_data lib env b.reclaim_tx r) = record {
        settle_tx = refl;
        settle_pre = refl;
        refund_tx = refl;
        refund_sig = refl;
        ctxt = refl;
        d_point = refl;
        k = refl;
        thimble_0 = refl;
        thimble_1 = refl;
        p_a = refl;
      } in
      Triple-after
        (act-Triple lib env dir role (Recorded lib pot.place r) _ _ Held-IsStable saved_quiet
          (λ s h. h.signed.agreed.log)
          (λ log. Recorded.written _ log (record {
            phase = refl;
            outpoint = is_pot;
            data_of = setup_data lib env b.reclaim_tx r;
            setup = ap (Option.map (setup_data lib env b.reclaim_tx)) is_r;
            has = same;
          })))
        (λ _ s h. record {
          agreed = h.0.signed.agreed;
          result = r;
          is_setup = is_setup;
          covered = h.0.covered;
          recorded = h.1;
        })

  persist-Triple :
      Triple Held
        (persist lib env setup_done)
        (λ _. Armed lib env dir role pot)
        (Logged lib env dir role)
  unfolding persist
  persist-Triple =
      Triple-bind-gets _ _
        (λ s h. (h, (h.signed.agreed.outpoint, h.signed.stored, h.signed.agreed.saves)))
        (λ b.
          Triple-fact
            {X = (b.params.u1_outpoint ≡ pot.place) × (b.setup ≡ some r) × (b.state_dir ≡ some dir)}
            (λ x. persist_in-Triple b b.state_dir x.0 x.1 x.2))

  -- What `setup` does once the handshake has returned.
  pub after_handshake :
      (side : BetRole lib)
      → Triple Stored
          (do prebuild_reclaim lib env side; persist_refund lib env; persist lib env setup_done)
          (λ _. Armed lib env dir role pot)
          (Logged lib env dir role)
  after_handshake side =
      Triple-bind _ _
        (Triple-Keeps (λ s h. h.agreed.log) (Ops.prebuild_reclaim-Keeps Stored-IsStable side))
        (λ _. Triple-bind _ _ persist_refund-Triple (λ _. persist-Triple))

module _ (lib : Library) (env : Env lib) (dir : Bytes) (role : BetRole lib) where
  -- After `setup` the refund and the record are on disk.
  pub setup-Triple :
      (pot : Pot lib)
      → Triple
          (Agreed lib env dir role pot)
          (setup lib env)
          (λ _. Armed lib env dir role pot)
          (Logged lib env dir role)
  unfolding setup
  setup-Triple pot =
      Triple-bind-gets _ _ (λ s h. (h, h.peer))
        (λ peer. Triple-fact (λ is_peer.
          Triple-bind-lift _ _ (λ s h. h.log)
            (λ key is_key.
              Triple-bind-gets _ _ (λ s h. (h, h.side))
                (λ side. Triple-fact (λ is_side.
                  Triple-bind _ _
                    (Triple-error
                      (run_setup-Triple lib env dir role pot side key is_side
                        (some-injective _ _ (sym (ok_or-eq-ok lib _ peer is_key) ∙ is_peer)))
                      (λ s h. h.log))
                    (λ r. Triple-fact (λ is_setup.
                      Triple-bind _ _
                        (with_setup-Triple lib env dir role pot r _ (λ b. refl) (λ b. refl)
                          (λ b. refl) (λ b. refl) (λ b. refl) (λ b. refl) (λ b. refl))
                        (λ _. after_handshake lib env dir role pot r is_setup side))))))))
