-- ===== src/Bet/Safety.antt =====
-- The order in which a bet acts on the outside: what its log must look like, and the states on the
-- way to it.
pub mod Fund
pub mod Signed
pub mod Output
pub mod Setup
pub mod Sign
pub mod Play
use babilonia.Prelude.{
  ℕ, ◌≡◌, ◌∙◌, sym, subst, ap, Bool, true, Option, none, some, List, [], ◌∷◌, ok, get_elem?,
}
use babilonia.Bytes.{Bytes}
use babilonia.Tx.{OutPoint, TxIn, Transaction}
use babilonia.Bet.Library.{Library}
use babilonia.Bet.State.{
  Bet, BetRole, BetRecord, SetupData, SetupResult, dealer, player, setup_done,
}
use babilonia.Bet.Env.{Env, St, Effect, Log, signed, refund_written, saved}
use babilonia.Bet.Agreement.{spent}
use babilonia.Bet.Quiet.{IsQuiet, IsStable, SameFunding}
use babilonia.Setup.Graph.{tx_out}
use babilonia.Setup.Refund.{IsSetup, Pot, taproot_of}

abbrev pub witnesses : List TxIn → List (List Bytes)
witnesses [] = []
witnesses (i ∷ is) = i.witness ∷ witnesses is

module _ (lib : Library) where
  -- The pot's script is that of the party's key and its peer's.
  abbrev pub IsU1 : BetRole lib → Pot lib → Type 0
  IsU1 role pot = (key : lib.KeyAgg) × (taproot_of lib role pot.peer ≡ ok (key, pot.script))

  -- The funding is a transaction whose output at the pot's place pays its value to its script.
  pub record Funds (role : BetRole lib) (pot : Pot lib) (psbt : Bytes) : Type 0 where
    pub tx : Transaction
    pub unsigned : lib.unsigned_tx psbt ≡ some tx
    pub id : pot.place.txid ≡ lib.compute_txid tx
    pub pays : get_elem? tx.output pot.place.vout ≡ some (tx_out pot.value pot.script)
    pub is_u1 : IsU1 role pot

  -- The refund of this setup, with its signature, spends the pot alone.
  pub record IsRefund (pot : OutPoint) (r : SetupResult lib) (tx : Transaction) : Type 0 where
    pub spends : spent tx.input ≡ pot ∷ []
    pub witness : witnesses tx.input ≡ (lib.signature_bytes r.refund_sig ∷ []) ∷ []
    pub output : tx.output ≡ r.refund_tx.output
    pub lock_time : tx.lock_time ≡ r.refund_tx.lock_time

  -- The data on disk is that of this setup.
  pub record HasSetup (r : SetupResult lib) (d : SetupData lib) : Type 0 where
    pub settle_tx : d.settle_tx ≡ r.settle_tx
    pub settle_pre : d.settle_pre ≡ r.settle_pre
    pub refund_tx : d.refund_tx ≡ r.refund_tx
    pub refund_sig : d.refund_sig ≡ r.refund_sig
    pub ctxt : d.ctxt ≡ r.ctxt
    pub d_point : d.d_point ≡ r.d_point
    pub k : d.k ≡ r.k
    pub thimble_0 : d.thimble_0 ≡ r.thimble_0
    pub thimble_1 : d.thimble_1 ≡ r.thimble_1
    pub p_a : d.p_a ≡ r.p_a

  -- The record of a bet holds the finished setup and its pot.
  pub record IsComplete (pot : OutPoint) (r : SetupResult lib) (rec : BetRecord lib) : Type 0 where
    pub phase : rec.phase ≡ setup_done
    pub outpoint : rec.params.u1_outpoint ≡ pot
    pub data_of : SetupData lib
    pub setup : rec.setup ≡ some data_of
    pub has : HasSetup r data_of

  -- The signed refund of the pot is on disk.
  pub data Covered (pot : OutPoint) (r : SetupResult lib) : Log lib → Type 0 where
    written :
        (tx : Transaction) (log : Log lib)
        → IsRefund pot r tx
        → Covered pot r ((refund_written pot tx, true) ∷ log)
    later : (e : Effect lib × Bool) (log : Log lib) → Covered pot r log → Covered pot r (e ∷ log)

  -- The record of the finished setup is on disk.
  pub data Recorded (pot : OutPoint) (r : SetupResult lib) : Log lib → Type 0 where
    written :
        (rec : BetRecord lib) (log : Log lib)
        → IsComplete pot r rec
        → Recorded pot r ((saved rec, true) ∷ log)
    later : (e : Effect lib × Bool) (log : Log lib) → Recorded pot r log → Recorded pot r (e ∷ log)

  -- Whenever a funding was signed, a setup of its output was finished, and the signed refund of that
  -- output and the record of that setup were on disk.
  pub data IsSafe (role : BetRole lib) : Log lib → Type 0 where
    start : IsSafe role []
    quiet :
        (e : Effect lib) (b : Bool) (log : Log lib)
        → IsQuiet e
        → IsSafe role log
        → IsSafe role ((e, b) ∷ log)
    sign :
        (psbt : Bytes) (b : Bool) (log : Log lib) (pot : Pot lib) (r : SetupResult lib)
        → Funds role pot psbt
        → IsSetup lib role pot r
        → Covered pot.place r log
        → Recorded pot.place r log
        → IsSafe role log
        → IsSafe role ((signed psbt, b) ∷ log)

  abbrev pub FundsIf : BetRole lib → Pot lib → Option Bytes → Type 0
  FundsIf role pot none = Unit {0}
  FundsIf role pot (some psbt) = Funds role pot psbt

  module _ (env : Env lib) (dir : Bytes) (role : BetRole lib) where
    -- Before the funding is agreed.
    pub record Opened (s : St lib env) : Type 0 where
      pub log : IsSafe role s.log
      pub saves : s.bet.state_dir ≡ some dir
      pub side : s.bet.role ≡ role

    -- The funding is agreed, and its output is the pot.
    pub record Agreed (pot : Pot lib) (s : St lib env) : Type 0 where
      pub log : IsSafe role s.log
      pub saves : s.bet.state_dir ≡ some dir
      pub side : s.bet.role ≡ role
      pub outpoint : s.bet.params.u1_outpoint ≡ pot.place
      pub value : s.bet.params.u1_value ≡ pot.value
      pub peer : s.bet.peer_key ≡ some pot.peer
      pub is_u1 : IsU1 role pot
      pub funds : FundsIf role pot s.bet.funding_psbt

    -- The setup is on disk.
    pub record Armed (pot : Pot lib) (s : St lib env) : Type 0 where
      pub agreed : Agreed pot s
      pub result : SetupResult lib
      pub is_setup : IsSetup lib role pot result
      pub covered : Covered pot.place result s.log
      pub recorded : Recorded pot.place result s.log

    pub Opened-IsStable : IsStable lib env Opened
    Opened-IsStable = record {
      after_call = λ s w h. record { log = h.log; saves = h.saves; side = h.side };
      after_effect =
          λ s e b q h. record { log = quiet e b s.log q h.log; saves = h.saves; side = h.side };
      after_update = λ s bet kept h. record {
        log = h.log;
        saves = kept.dir ∙ h.saves;
        side = kept.role ∙ h.side;
      };
    }

    pub Agreed-IsStable : (pot : Pot lib) → IsStable lib env (Agreed pot)
    Agreed-IsStable pot = record {
      after_call = λ s w h. record {
        log = h.log;
        saves = h.saves;
        side = h.side;
        peer = h.peer;
        is_u1 = h.is_u1;
        outpoint = h.outpoint;
        value = h.value;
        funds = h.funds;
      };
      after_effect = λ s e b q h. record {
        log = quiet e b s.log q h.log;
        saves = h.saves;
        side = h.side;
        peer = h.peer;
        is_u1 = h.is_u1;
        outpoint = h.outpoint;
        value = h.value;
        funds = h.funds;
      };
      after_update = λ s bet kept h. record {
        log = h.log;
        saves = kept.dir ∙ h.saves;
        side = kept.role ∙ h.side;
        peer = kept.peer ∙ h.peer;
        is_u1 = h.is_u1;
        outpoint = kept.pot ∙ h.outpoint;
        value = kept.value ∙ h.value;
        funds = subst (FundsIf role pot) (sym kept.psbt) h.funds;
      };
    }

    pub Armed-IsStable : (pot : Pot lib) → IsStable lib env (Armed pot)
    Armed-IsStable pot = record {
      after_call = λ s w h. record {
        agreed = (Agreed-IsStable pot).after_call s w h.agreed;
        result = h.result;
        is_setup = h.is_setup;
        covered = h.covered;
        recorded = h.recorded;
      };
      after_effect = λ s e b q h. record {
        agreed = (Agreed-IsStable pot).after_effect s e b q h.agreed;
        result = h.result;
        is_setup = h.is_setup;
        covered = later (e, b) s.log h.covered;
        recorded = later (e, b) s.log h.recorded;
      };
      after_update = λ s bet kept h. record {
        agreed = (Agreed-IsStable pot).after_update s bet kept h.agreed;
        result = h.result;
        is_setup = h.is_setup;
        covered = h.covered;
        recorded = h.recorded;
      };
    }
