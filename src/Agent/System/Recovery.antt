-- ===== src/Agent/System/Recovery.antt =====
-- The command `recover` keeps the node good.
use babilonia.Prelude.{Bool, true, false, Option, none, some, List, [], ◌∷◌, ok, if◌then◌else◌}
use babilonia.Text.{Text}
use babilonia.Action.{Action}
use babilonia.Action.Keeps.{Keeps, Keeps-bind, Keeps-pure}
use babilonia.Recover.{assess, recover, broadcast_refund}
use babilonia.Bet.Library.{Library}
use babilonia.Bet.Env.{Env}
use babilonia.Bet.State.{BetRecord}
use babilonia.Agent.Events.{Event, Note, Failure}
use babilonia.Agent.Node.{RecordPath, Backend, Node, emit}
use babilonia.Agent.Core.Recovery.{
  list_record, list_one, list_records, none_shown, is_json, list_bets, drive, drive_found,
  recover_one, recover_in, recover_cmd,
}
use babilonia.Agent.System.Kept.{
  ShowsNone, IsGood, Preserves, Kept, outside-Keeps, at_desk-Keeps, respond-Preserves,
  emit-Preserves, info-Preserves, error-Preserves,
}

Keeps-if :
    {S A : Type 0} {P : S → Type 0} {m k : Action S A} (b : Bool)
    → Keeps P m
    → Keeps P k
    → Keeps P (if b then m else k)
Keeps-if true h k = h
Keeps-if false h k = k

module _ (lib : Library) (env : Env lib) (backend : Backend lib env) where
  still : Preserves lib env (λ n. n)
  still = record { good = λ n h. h }

  shows : (e : Event) → ShowsNone e → Keeps (IsGood lib env) (λ n. (ok true, emit lib env e n))
  shows e h = record { kept = (emit-Preserves lib env e h).good }

  list_record-Keeps :
      (dir : Text) (p : RecordPath) → Kept lib env (list_record lib env backend dir p)
  unfolding list_record
  list_record-Keeps dir p =
      Keeps-bind _ _ (outside-Keeps lib env (backend.load_record dir p)) (λ rec.
        Keeps-bind _ _ (at_desk-Keeps lib env (assess lib env rec)) (λ a. shows _ (λ next es h. h)))

  list_one-Keeps : (dir : Text) (p : RecordPath) → Kept lib env (list_one lib env backend dir p)
  unfolding list_one
  list_one-Keeps dir p = Keeps-if (is_json p) (list_record-Keeps dir p) (Keeps-pure false)

  list_records-IsGood :
      (dir : Text) (ps : List RecordPath) (any : Bool) (n : Node lib env)
      → IsGood lib env n
      → IsGood lib env (list_records lib env backend dir ps any n).1
  unfolding list_records
  list_records-IsGood dir [] any n h = h
  list_records-IsGood dir (p ∷ ps) any n h =
      list_records-IsGood dir ps _ _ ((list_one-Keeps dir p).kept n h)

  none_shown-IsGood :
      (dir : Text) (any : Bool) (n : Node lib env)
      → IsGood lib env n
      → IsGood lib env (none_shown lib env backend dir (any, n))
  none_shown-IsGood dir true n h = h
  none_shown-IsGood dir false n h = (info-Preserves lib env (Note.nothing_recoverable dir)).good n h

  list_bets-Preserves : (dir : Text) → Preserves lib env (list_bets lib env backend dir)
  unfolding list_bets
  list_bets-Preserves dir = record {
    good = λ n h. none_shown-IsGood dir _ _ (
        list_records-IsGood dir _ false _
          ((outside-Keeps lib env (backend.read_dir dir)).kept n h));
  }

  drive-Keeps :
      (rec : BetRecord lib) (refund : Bool) → Kept lib env (drive lib env backend rec refund)
  unfolding drive
  drive-Keeps rec true = at_desk-Keeps lib env (broadcast_refund lib env rec)
  drive-Keeps rec false =
      Keeps-bind _ _ (outside-Keeps lib env backend.wallet)
        (λ opened. at_desk-Keeps lib env (recover lib env rec))

  drive_found-Preserves :
      (dir id : Text) (refund : Bool) (o : Option RecordPath)
      → Preserves lib env (drive_found lib env backend dir id refund o)
  unfolding drive_found
  drive_found-Preserves dir id refund none = error-Preserves lib env (Failure.no_bet_matching id)
  drive_found-Preserves dir id refund (some path) =
      respond-Preserves lib env _ _ _ (outside-Keeps lib env (backend.load_record dir path))
        (λ rec.
          respond-Preserves lib env _ _ _ (drive-Keeps rec refund)
            (λ r. info-Preserves lib env (Note.recovered id r))
            (λ e. error-Preserves lib env (Failure.recover_failed id e)))
        (λ e. error-Preserves lib env (Failure.recover_load e))

  recover_one-Preserves :
      (dir : Text) (id : Option Text) (refund : Bool)
      → Preserves lib env (recover_one lib env backend dir id refund)
  unfolding recover_one
  recover_one-Preserves dir none refund = list_bets-Preserves dir
  recover_one-Preserves dir (some id) refund = record {
    good = λ n h.
        (drive_found-Preserves dir id refund _).good _
          ((outside-Keeps lib env (backend.read_dir dir)).kept n h);
  }

  recover_in-Preserves :
      (dir id : Option Text) (refund : Bool)
      → Preserves lib env (recover_in lib env backend dir id refund)
  unfolding recover_in
  recover_in-Preserves none id refund = error-Preserves lib env Failure.no_state_dir
  recover_in-Preserves (some dir) id refund =
      respond-Preserves lib env _ _ _ (outside-Keeps lib env backend.chain)
        (λ opened. recover_one-Preserves dir id refund)
        (λ e. error-Preserves lib env (Failure.recover_chain e))

  pub recover_cmd-Preserves :
      (id : Option Text) (refund : Bool) → Preserves lib env (recover_cmd lib env backend id refund)
  unfolding recover_cmd
  recover_cmd-Preserves id refund = record {
    good = λ n h. (recover_in-Preserves n.core.config.state_dir id refund).good n h;
  }
