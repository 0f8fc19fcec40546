-- ===== src/Bet/Safety/Fund.antt =====
-- `fund_pot` leaves the funding and its pot agreed.
use babilonia.Prelude.{◌≡◌, refl, sym, ◌∙◌, subst, Option, none, some, Error, ok, ok_or, decode}
use babilonia.Bytes.{Bytes}
use babilonia.Action.{lift, ◌>>=◌, ◌>>◌}
use babilonia.Action.Keeps.{
  Triple, Triple-bind, Triple-bind-lift, Triple-bind-gets, Triple-Keeps, Triple-after, Triple-fact,
}
use babilonia.Bet.Library.{Library}
use babilonia.Bet.State.{Bet, BetRole, funded}
use babilonia.Bet.Env.{Env, St, update}
use babilonia.Bet.Agreement.{locate_u1}
use babilonia.Bet.Locate.{locate_u1_lem}
use babilonia.Bet.Quiet.Ops
use babilonia.Bet.Persist.{persist}
use babilonia.Bet.Funding.{fund_pot, fund_side, with_pot}
use babilonia.Bet.Safety.{Funds, FundsIf, IsSafe, Opened, Agreed, Agreed-IsStable}
use babilonia.Bet.Safety.Output.{HasPeer, OnScript, fund_side-Triple}
use babilonia.Setup.Refund.{Pot, taproot_of}

module _ (lib : Library) where
  pub ok_or-eq-ok : {A : Type 0} {a : A} (e : Error) (o : Option A) → ok_or o e ≡ ok a → o ≡ some a
  ok_or-eq-ok e none h = cc
  ok_or-eq-ok e (some a) h = cc

  -- A change that leaves the directory and both sides.
  record SameSides (b b' : Bet lib) : Type 0 where
    pub dir : b'.state_dir ≡ b.state_dir
    pub role : b'.role ≡ b.role
    pub peer : b'.peer_key ≡ b.peer_key

  module _ (env : Env lib) (dir : Bytes) (role : BetRole lib) where
    abbrev pub Logged : St lib env → Type 0
    Logged s = IsSafe lib role s.log

    -- The pot is set to an output of the funding that was agreed.
    with_pot-Triple :
        (psbt : Bytes) (pot : Pot lib) (f : Bet lib → Bet lib)
        → ((b : Bet lib) → SameSides b (f b))
        → ((b : Bet lib) → (f b).params.u1_outpoint ≡ pot.place)
        → ((b : Bet lib) → (f b).params.u1_value ≡ pot.value)
        → ((b : Bet lib) → (f b).funding_psbt ≡ some psbt)
        → Funds lib role pot psbt
        → Triple
            (HasPeer lib env dir role pot.peer)
            (update lib env f)
            (λ _. Agreed lib env dir role pot)
            Logged
    unfolding update
    with_pot-Triple psbt pot f same same_pot same_value same_psbt funds = record {
      run = λ s h. record {
        log = h.opened.log;
        saves = (same s.bet).dir ∙ h.opened.saves;
        side = (same s.bet).role ∙ h.opened.side;
        peer = (same s.bet).peer ∙ h.known;
        is_u1 = funds.is_u1;
        outpoint = same_pot s.bet;
        value = same_value s.bet;
        funds = subst (FundsIf lib role pot) (sym (same_psbt s.bet)) funds;
      };
    }

    -- What `fund_pot` does once both sides agree.
    after_agreement :
        (agreed : Bytes × Bytes) (peer : lib.PublicKey) (key : lib.KeyAgg)
        → taproot_of lib role peer ≡ ok (key, agreed.0)
        → Triple
            (HasPeer lib env dir role peer)
            (do
              tx ← lift (ok_or (lib.unsigned_tx agreed.1) (decode "funding psbt"))
              pot ← lift (locate_u1 lib tx agreed.0)
              update lib env (with_pot lib env pot agreed.1)
              persist lib env funded)
            (λ _ s. (pot : Pot lib) × Agreed lib env dir role pot s)
            Logged
    after_agreement agreed peer key is_key =
        Triple-bind-lift _ _ (λ s h. h.opened.log)
          (λ tx is_tx.
            Triple-bind-lift _ _ (λ s h. h.opened.log)
              (λ found is_found.
                let (id, pays) = locate_u1_lem lib tx agreed.0 found.0 found.1 is_found in
                let pot : Pot lib = record {
                  place = found.0;
                  value = found.1;
                  script = agreed.0;
                  peer = peer;
                } in
                Triple-bind _ _
                  (with_pot-Triple agreed.1 pot _
                    (λ b. record { dir = refl; role = refl; peer = refl }) (λ b. refl) (λ b. refl)
                    (λ b. refl)
                    (record {
                      tx = tx;
                      unsigned = ok_or-eq-ok _ _ is_tx;
                      id = id;
                      pays = pays;
                      is_u1 = (key, is_key);
                    }))
                  (λ _.
                    Triple-after
                      (Triple-Keeps (λ s h. h.log)
                        (Ops.persist-Keeps (Agreed-IsStable lib env dir role pot) funded))
                      (λ _ s h. (pot, h)))))

    -- After `fund_pot` the funding and its pot are agreed.
    pub fund_pot-Triple :
        Triple
          (Opened lib env dir role)
          (fund_pot lib env)
          (λ _ s. (pot : Pot lib) × Agreed lib env dir role pot s)
          Logged
    unfolding fund_pot
    fund_pot-Triple =
        Triple-bind-gets _ _ (λ s h. (h, h.side))
          (λ r. Triple-fact (λ is_role.
            Triple-bind _ _
              (subst
                (λ q.
                  Triple (Opened lib env dir role) (fund_side lib env q) (OnScript lib env dir role)
                    Logged)
                (sym is_role) (fund_side-Triple lib env dir role))
              (λ agreed. record {
                run = λ s h.
                    let (peer, key, is_key, known) = h in
                    (after_agreement agreed peer key is_key).run s known;
              })))
