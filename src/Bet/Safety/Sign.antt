-- ===== src/Bet/Safety/Sign.antt =====
-- `broadcast_funding` signs only a funding that the refund on disk covers.
use mathlib.Core.Bool.{decide}
use babilonia.Prelude.{arith, some, ◌≡◌, sym, ◌∙◌, ap, subst, false, not}
use babilonia.Bytes.{Bytes}
use babilonia.Tx.{Transaction}
use babilonia.Tx.Order.{transaction-discrete}
use babilonia.Action.{Action}
use babilonia.Action.Keeps.{
  Keeps, Keeps-lift, Keeps-gets, Keeps-bind, Keeps-bind-lift, Keeps-bind-gets, Keeps-bind-raise_if,
  keeps_rules,
}
use babilonia.Bet.Library.{Library}
use babilonia.Setup.Refund.{Pot}
use babilonia.Bet.State.{BetRole, dealer, player}
use babilonia.Bet.Env.{Env, act, signed}
use babilonia.Bet.Quiet.{Keeps-call, quiet_rules}
use babilonia.Bet.Quiet.Ops
use babilonia.Bet.Funding.{sign_funding, broadcast_funding}
use babilonia.Bet.Safety.{Covered, Recorded, Funds, FundsIf, Armed, sign, Armed-IsStable}
use babilonia.Bet.Safety.Fund.{ok_or-eq-ok}

module _ (lib : Library) (env : Env lib) (dir : Bytes) (role : BetRole lib) where
  -- A signature on a funding that the refund covers.
  Keeps-sign :
      {A : Type 0} (pot : Pot lib) (psbt : Bytes) (f : Action env.World A)
      → Funds lib role pot psbt
      → Keeps (Armed lib env dir role pot) (act lib env (signed psbt) f)
  unfolding act
  Keeps-sign pot psbt f funds = record {
    kept = λ s h. record {
      agreed = record {
        log = sign psbt _ s.log pot h.result funds h.is_setup h.covered h.recorded h.agreed.log;
        saves = h.agreed.saves;
        side = h.agreed.side;
        peer = h.agreed.peer;
        is_u1 = h.agreed.is_u1;
        outpoint = h.agreed.outpoint;
        value = h.agreed.value;
        funds = h.agreed.funds;
      };
      result = h.result;
      is_setup = h.is_setup;
      covered = Covered.later _ s.log h.covered;
      recorded = Recorded.later _ s.log h.recorded;
    };
  }

  same_tx :
      (got agreed : Transaction)
      → not (decide (transaction-discrete got agreed)) ≡ false
      → got ≡ agreed
  unfolding decide
  same_tx got agreed h = from (transaction-discrete got agreed) h
    where
      from : (d : Dec (got ≡ agreed)) → not (decide d) ≡ false → got ≡ agreed
      from (yes e) h = e
      from (no n) h = ground arith

  -- The same transaction funds the same pot.
  transfer :
      (pot : Pot lib) (psbt psbt' : Bytes) (got agreed : Transaction)
      → Funds lib role pot psbt
      → lib.unsigned_tx psbt' ≡ some got
      → lib.unsigned_tx psbt ≡ some agreed
      → got ≡ agreed
      → Funds lib role pot psbt'
  transfer pot psbt psbt' got agreed funds is_got is_agreed same = record {
    tx = funds.tx;
    unsigned = is_got ∙ ap some same ∙ sym is_agreed ∙ funds.unsigned;
    id = funds.id;
    pays = funds.pays;
    is_u1 = funds.is_u1;
  }

  sign_funding-Keeps :
      (pot : Pot lib) (side : BetRole lib) (psbt : Bytes)
      → Funds lib role pot psbt
      → Keeps (Armed lib env dir role pot) (sign_funding lib env side psbt)
  unfolding sign_funding
  sign_funding-Keeps pot (player s) psbt funds =
      Keeps-bind _ _ (Keeps-sign pot psbt _ funds)
        (λ mine. search (keeps_rules, quiet_rules, Armed-IsStable) depth 12)
  sign_funding-Keeps pot (dealer s) psbt funds =
      Keeps-bind _ _ (Keeps-call (Armed-IsStable lib env dir role pot) _) (λ frame.
        Keeps-bind _ _ (Keeps-lift _) (λ m. Keeps-bind-lift _ _ (λ agreed is_agreed.
          Keeps-bind-lift _ _ (λ got is_got. Keeps-bind-raise_if _ _ _ (λ is_same.
            Keeps-bind _ _
              (Keeps-sign pot m.psbt _ (
                transfer pot psbt m.psbt got agreed funds (ok_or-eq-ok lib _ _ is_got)
                  (ok_or-eq-ok lib _ _ is_agreed) (same_tx got agreed is_same)))
              (λ both. search (keeps_rules, quiet_rules, Armed-IsStable) depth 12))))))

  pub broadcast_funding-Keeps :
      (pot : Pot lib) → Keeps (Armed lib env dir role pot) (broadcast_funding lib env)
  unfolding broadcast_funding
  broadcast_funding-Keeps pot =
      Keeps-bind-gets {R = FundsIf lib role pot} _ _ (λ s h. h.agreed.funds)
        (λ psbt funds. Keeps-bind-lift _ _ (λ unsigned is_unsigned.
          Keeps-bind _ _ (Keeps-gets _) (λ side.
            Keeps-bind _ _
              (sign_funding-Keeps pot side unsigned
                (subst (FundsIf lib role pot) (ok_or-eq-ok lib _ psbt is_unsigned) funds))
              (λ tx.
                search
                  (
                    keeps_rules, quiet_rules, Armed-IsStable, Ops.wait_confirmed-Keeps,
                    Ops.persist-Keeps,
                  )
                  depth 12))))
