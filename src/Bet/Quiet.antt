-- ===== src/Bet/Quiet.antt =====
-- Rules for what the operations of a bet keep: a predicate that no call outside breaks, but that a
-- signature on the funding might break.
pub mod Ops
pub mod Verbs
use babilonia.Prelude.{◌≡◌, refl, Bool, true, false, Option, none, some, ◌∷◌, if◌then◌else◌}
use babilonia.Bytes.{Bytes}
use babilonia.Tx.{OutPoint, Transaction}
use babilonia.Action.{Action, gets, pure}
use babilonia.Action.Keeps.{Keeps, Keeps-pure}
use babilonia.Bet.Library.{Library}
use babilonia.Bet.State.{Bet, BetRecord}
use babilonia.Bet.Env.{
  Env, St, M, Effect, sent, signed, broadcast, refund_written, saved, call, act, update, or_else,
}

-- Everything but a signature on the funding.
pub data IsQuiet {lib : Library} : Effect lib → Type 0 where
  sent_quiet : {frame : Bytes} → IsQuiet (sent frame)
  broadcast_quiet : {tx : Transaction} → IsQuiet (broadcast tx)
  refund_quiet : {pot : OutPoint} {tx : Transaction} → IsQuiet (refund_written pot tx)
  saved_quiet : {rec : BetRecord lib} → IsQuiet (saved rec)

module _ (lib : Library) where
  -- A change to the bet that leaves its directory, its role, its peer, its funding, its pot and its
  -- setup.
  pub record SameFunding (b b' : Bet lib) : Type 0 where
    pub dir : b'.state_dir ≡ b.state_dir
    pub psbt : b'.funding_psbt ≡ b.funding_psbt
    pub pot : b'.params.u1_outpoint ≡ b.params.u1_outpoint
    pub value : b'.params.u1_value ≡ b.params.u1_value
    pub peer : b'.peer_key ≡ b.peer_key
    pub role : b'.role ≡ b.role
    pub setup : b'.setup ≡ b.setup

  pub same :
      {b b' : Bet lib}
      → b'.state_dir ≡ b.state_dir
      → b'.funding_psbt ≡ b.funding_psbt
      → b'.params.u1_outpoint ≡ b.params.u1_outpoint
      → b'.params.u1_value ≡ b.params.u1_value
      → b'.peer_key ≡ b.peer_key
      → b'.role ≡ b.role
      → b'.setup ≡ b.setup
      → SameFunding b b'
  same d f p v k r t = record {
    dir = d;
    psbt = f;
    pot = p;
    value = v;
    peer = k;
    role = r;
    setup = t;
  }

module _ (lib : Library) (env : Env lib) where
  -- What holds still holds after a call, an effect that is quiet, and such a change to the bet.
  pub record IsStable (P : St lib env → Type 0) : Type 0 where
    pub after_call : (s : St lib env) (w : env.World) → P s → P (record s { world = w })
    pub after_effect :
        (s : St lib env) (e : Effect lib) (b : Bool)
        → IsQuiet e
        → P s
        → P (record s { log = (e, b) ∷ s.log })
    pub after_update :
        (s : St lib env) (bet : Bet lib)
        → SameFunding lib s.bet bet
        → P s
        → P (record s { bet = bet })

module _ {lib : Library} {env : Env lib} {P : St lib env → Type 0}
    (stable : IsStable lib env P) where
  pub Keeps-call : {A : Type 0} (f : Action env.World A) → Keeps P (call lib env f)
  unfolding call
  Keeps-call f = record { kept = λ s h. stable.after_call s (f s.world).1 h }

  pub Keeps-act :
      {A : Type 0} (e : Effect lib) (f : Action env.World A) → IsQuiet e → Keeps P (act lib env e f)
  unfolding act
  Keeps-act e f quiet = record {
    kept = λ s h.
        stable.after_effect (record s { world = (f s.world).1 }) e _ quiet
          (stable.after_call s (f s.world).1 h);
  }

  pub Keeps-update :
      (f : Bet lib → Bet lib)
      → ((b : Bet lib) → SameFunding lib b (f b))
      → Keeps P (update lib env f)
  unfolding update
  Keeps-update f kept = record { kept = λ s h. stable.after_update s (f s.bet) (kept s.bet) h }

module _ {lib : Library} {env : Env lib} {P : St lib env → Type 0} where
  pub Keeps-or_else :
      {A : Type 0} (o : Option A) (m : M lib env A) → Keeps P m → Keeps P (or_else lib env o m)
  unfolding or_else
  Keeps-or_else none m k = k
  Keeps-or_else (some a) m k = Keeps-pure a

pub Keeps-if :
    {S A : Type 0} {P : S → Type 0} (b : Bool) (m n : Action S A)
    → Keeps P m
    → Keeps P n
    → Keeps P (if b then m else n)
Keeps-if true m n km kn = km
Keeps-if false m n km kn = kn

pub ruleset quiet_rules = (
  Keeps-call, Keeps-act, Keeps-update, Keeps-or_else, Keeps-if, same, refl, sent_quiet,
  broadcast_quiet, refund_quiet, saved_quiet,
)
