-- ===== src/Agent/System/Kept.antt =====
-- What every part of a node keeps.
use babilonia.Prelude.{
  ℕ, ◌<◌, ◌≡◌, Option, none, some, List, [], ◌∷◌, ◌++◌, All, arith, Error, Result, ok, err,
}
use babilonia.Bet.Library.{Library, squaring}
use babilonia.Bet.Env.{Env}
use babilonia.Bet.State.{BetRole}
use babilonia.Bet.Safety.{IsSafe}
use babilonia.Terms.{ProposeTerms, scheme_of}
use babilonia.Agent.Config.Laws.{IsSound}
use babilonia.Recover.{Desk}
use babilonia.Action.{Action}
use babilonia.Action.Keeps.{Keeps}
use babilonia.Agent.Events.{Instr, Event, WorkerEvent, Note, Failure}
use babilonia.Agent.Node.{Worker, Played, Node, H, outside, emit, report, instruct}
use babilonia.Agent.Core.Recovery.{respond, answered, at_desk}

abbrev pub IsPlayable : ProposeTerms → Type 0
IsPlayable t = t.scheme ≡ 0

abbrev pub AllowedInstr : Instr → Type 0
AllowedInstr (Instr.propose t) = IsPlayable t
AllowedInstr Instr.accept = Unit {0}
AllowedInstr Instr.reject = Unit {0}
AllowedInstr (Instr.config c) = IsSound c
AllowedInstr Instr.quit = Unit {0}

abbrev pub PlayableIf : Option ProposeTerms → Type 0
PlayableIf none = Unit {0}
PlayableIf (some t) = IsPlayable t

pub record SoundWorker (w : Worker) : Type 0 where
  pub config : IsSound w.config
  pub pending : PlayableIf w.pending_terms

abbrev pub SoundIf : Option Worker → Type 0
SoundIf none = Unit {0}
SoundIf (some w) = SoundWorker w

-- A bet that was played under the scheme that may be played, and that signed nothing uncovered if its
-- artifacts go to a directory.
pub record FairBet (lib : Library) (p : Played lib) : Type 0 where
  pub scheme : scheme_of p.terms ≡ squaring
  pub covered : (dir : List ℕ) → p.dir ≡ some dir → (role : BetRole lib) × IsSafe lib role p.log

-- The bets shown to the user, newest first, have ids below this one, each below those after it.
abbrev pub FreshIds : ℕ → List Event → Type 0
FreshIds next [] = Unit {0}
FreshIds next (Event.proposed id from stake ∷ es) = (id < next) × FreshIds id es
FreshIds next (Event.connected a ∷ es) = FreshIds next es
FreshIds next (Event.outcome o ∷ es) = FreshIds next es
FreshIds next (Event.address a ∷ es) = FreshIds next es
FreshIds next (Event.balance b ∷ es) = FreshIds next es
FreshIds next (Event.config c ∷ es) = FreshIds next es
FreshIds next (Event.info m ∷ es) = FreshIds next es
FreshIds next (Event.error f ∷ es) = FreshIds next es

pub FreshIds-mono : (a b : ℕ) (es : List Event) → a < b → FreshIds a es → FreshIds b es
FreshIds-mono a b [] h k = tt
FreshIds-mono a b (Event.proposed id from stake ∷ es) h k = (omega (arith, h, k.0), k.1)
FreshIds-mono a b (Event.connected x ∷ es) h k = FreshIds-mono a b es h k
FreshIds-mono a b (Event.outcome o ∷ es) h k = FreshIds-mono a b es h k
FreshIds-mono a b (Event.address x ∷ es) h k = FreshIds-mono a b es h k
FreshIds-mono a b (Event.balance x ∷ es) h k = FreshIds-mono a b es h k
FreshIds-mono a b (Event.config c ∷ es) h k = FreshIds-mono a b es h k
FreshIds-mono a b (Event.info m ∷ es) h k = FreshIds-mono a b es h k
FreshIds-mono a b (Event.error f ∷ es) h k = FreshIds-mono a b es h k

-- A bet with this id and this stake was shown.
pub data Shown (id stake : ℕ) : List Event → Type 0 where
  now : (from : List ℕ) (es : List Event) → Shown id stake (Event.proposed id from stake ∷ es)
  before : (e : Event) (es : List Event) → Shown id stake es → Shown id stake (e ∷ es)

abbrev pub ShownIf : Option (ℕ × ℕ) → List Event → Type 0
ShownIf none es = Unit {0}
ShownIf (some (id, stake)) es = Shown id stake es

pub ShownIf-before :
    (o : Option (ℕ × ℕ)) (e : Event) (es : List Event) → ShownIf o es → ShownIf o (e ∷ es)
ShownIf-before none e es h = tt
ShownIf-before (some (id, stake)) e es h = before e es h

-- An event that shows no bet.
abbrev pub ShowsNone : Event → Type 0
ShowsNone e = (next : ℕ) (es : List Event) → FreshIds next es → FreshIds next (e ∷ es)

module _ (lib : Library) (env : Env lib) where
  -- The configuration, the worker and the instructions that wait allow only the scheme that may be
  -- played, every bet that was played was fair, each bet shown has an id of its own, and the bet that
  -- awaits an answer was shown with its id and its stake.
  pub record IsGood (n : Node lib env) : Type 0 where
    pub config : IsSound n.core.config
    pub worker : SoundIf n.worker
    pub instrs : All AllowedInstr n.instrs
    pub played : All (FairBet lib) n.played
    pub fresh : FreshIds n.core.next_bet_id n.events
    pub shown : ShownIf n.core.pending n.events

  pub record Preserves (f : Node lib env → Node lib env) : Type 0 where
    pub good : (n : Node lib env) → IsGood n → IsGood (f n)

  abbrev pub Kept : {A : Type 0} → H lib env A → Type 0
  Kept m = Keeps IsGood m

  pub outside-Keeps : {A : Type 0} (f : Action env.World A) → Kept (outside lib env f)
  unfolding outside
  outside-Keeps f = record {
    kept = λ n h. record {
      config = h.config;
      worker = h.worker;
      instrs = h.instrs;
      played = h.played;
      fresh = h.fresh;
      shown = h.shown;
    };
  }

  pub at_desk-Keeps : {A : Type 0} (f : Action (Desk lib env.World) A) → Kept (at_desk lib env f)
  unfolding at_desk
  at_desk-Keeps f = record {
    kept = λ n h. record {
      config = h.config;
      worker = h.worker;
      instrs = h.instrs;
      played = h.played;
      fresh = h.fresh;
      shown = h.shown;
    };
  }

  answered-IsGood :
      {A : Type 0} (r : Result A) (f : A → Node lib env → Node lib env)
      (g : Error → Node lib env → Node lib env)
      → ((a : A) → Preserves (f a))
      → ((e : Error) → Preserves (g e))
      → (n : Node lib env) → IsGood n
      → IsGood (answered lib env (r, n) f g)
  answered-IsGood (ok a) f g h k n good = (h a).good n good
  answered-IsGood (err e) f g h k n good = (k e).good n good

  pub respond-Preserves :
      {A : Type 0} (m : H lib env A) (f : A → Node lib env → Node lib env)
      (g : Error → Node lib env → Node lib env)
      → Kept m
      → ((a : A) → Preserves (f a))
      → ((e : Error) → Preserves (g e))
      → Preserves (respond lib env m f g)
  unfolding respond
  respond-Preserves m f g keeps h k = record {
    good = λ n good. answered-IsGood (m n).0 f g h k (m n).1 (keeps.kept n good);
  }

  pub emit-Preserves : (e : Event) → ShowsNone e → Preserves (emit lib env e)
  emit-Preserves e none_shown = record {
    good = λ n h. record {
      config = h.config;
      worker = h.worker;
      instrs = h.instrs;
      played = h.played;
      fresh = none_shown n.core.next_bet_id n.events h.fresh;
      shown = ShownIf-before n.core.pending e n.events h.shown;
    };
  }

  pub info-Preserves : (m : Note) → Preserves (emit lib env (Event.info m))
  info-Preserves m = emit-Preserves (Event.info m) (λ next es h. h)

  pub error-Preserves : (f : Failure) → Preserves (emit lib env (Event.error f))
  error-Preserves f = emit-Preserves (Event.error f) (λ next es h. h)

  pub report-Preserves : (e : WorkerEvent) → Preserves (report lib env e)
  report-Preserves e = record {
    good = λ n h. record {
      config = h.config;
      worker = h.worker;
      instrs = h.instrs;
      played = h.played;
      fresh = h.fresh;
      shown = h.shown;
    };
  }

  pub All-snoc :
      (is : List Instr) (i : Instr)
      → All AllowedInstr is
      → AllowedInstr i
      → All AllowedInstr (is ++ i ∷ [])
  All-snoc [] i h k = (k, tt)
  All-snoc (j ∷ js) i h k = (h.0, All-snoc js i h.1 k)

  pub instruct-Preserves : (i : Instr) → AllowedInstr i → Preserves (instruct lib env i)
  instruct-Preserves i allowed = record {
    good = λ n h. record {
      config = h.config;
      worker = h.worker;
      instrs = All-snoc n.instrs i h.instrs allowed;
      played = h.played;
      fresh = h.fresh;
      shown = h.shown;
    };
  }

  pub then-Preserves :
      (f g : Node lib env → Node lib env) → Preserves f → Preserves g → Preserves (λ n. g (f n))
  then-Preserves f g h k = record { good = λ n good. k.good (f n) (h.good n good) }
