-- ===== src/Agent/Core/Recovery.antt =====
-- The command `recover` of src/agent.rs: it lists the bets on the disk, or drives one of them.
use babilonia.Prelude.{
  Bool, true, false, ◌&&◌, if◌then◌else◌, Option, none, some, List, [], ◌∷◌, Error, Result, ok, err,
  ◌==◌,
}
use babilonia.Text.{Text, codes, ◌=ᵗ◌}
use babilonia.Action.{Action, pure, ◌>>=◌, ◌>>◌}
use babilonia.Bet.Library.{Library}
use babilonia.Bet.State.{BetRecord}
use babilonia.Bet.Env.{Env}
use babilonia.Recover.{Desk, Report, assess, recover, broadcast_refund}
use babilonia.Agent.Events.{Event, Note, Failure}
use babilonia.Agent.Node.{RecordPath, Backend, Node, H, outside, emit}

-- `str::starts_with`.
unfoldable pub starts_with : Text → Text → Bool
starts_with text [] = true
starts_with [] (p ∷ ps) = false
starts_with (c ∷ cs) (p ∷ ps) = c == p && starts_with cs ps

unfoldable pub is_json : RecordPath → Bool
is_json p = elim p.extension [ none ↦ false | some x ↦ x =ᵗ codes "json" ]

-- `find_record`: the first record whose id starts with the prefix.
unfoldable pub find_in : List RecordPath → Text → Option RecordPath
unfolding is_json starts_with
find_in [] prefix = none
find_in (p ∷ ps) prefix =
    let rest = find_in ps prefix in if is_json p && starts_with p.stem prefix then some p else rest

module _ (lib : Library) (env : Env lib) where
  abbrev Handler : Type 0
  Handler = Node lib env → Node lib env

  -- `match m { Ok(a) => .., Err(e) => .. }`.
  abbrev pub answered :
      {A : Type 0} → Result A × Node lib env → (A → Handler) → (Error → Handler) → Node lib env
  answered (ok a, n) on_ok on_err = on_ok a n
  answered (err e, n) on_ok on_err = on_err e n

  unfoldable pub respond : {A : Type 0} → H lib env A → (A → Handler) → (Error → Handler) → Handler
  respond m on_ok on_err n = answered (m n) on_ok on_err

  -- A recovery acts on the node's world.
  unfoldable pub at_desk : {A : Type 0} → Action (Desk lib env.World) A → H lib env A
  at_desk f n =
      let (r, d) = f (record { world = n.world; log = n.log }) in
      (r, record n { world = d.world; log = d.log })

  module _ (backend : Backend lib env) where
    -- One file of the listing: whether it was shown.
    unfoldable pub list_record : Text → RecordPath → H lib env Bool
    list_record dir p = do
      rec ← outside lib env (backend.load_record dir p)
      a ← at_desk (assess lib env rec)
      λ n. (ok true, emit lib env (Event.info (Note.recoverable rec.id a)) n)

    unfoldable pub list_one : Text → RecordPath → H lib env Bool
    unfolding is_json list_record
    list_one dir p = if is_json p then list_record dir p else pure false

    abbrev shown : Result Bool → Bool
    shown (ok b) = b
    shown (err e) = false

    unfoldable pub list_records : Text → List RecordPath → Bool → Node lib env → Bool × Node lib env
    list_records dir [] any n = (any, n)
    list_records dir (p ∷ ps) any n =
        let (r, n') = list_one dir p n in list_records dir ps (if shown r then true else any) n'

    abbrev pub none_shown : Text → Bool × Node lib env → Node lib env
    none_shown dir (true, n) = n
    none_shown dir (false, n) = emit lib env (Event.info (Note.nothing_recoverable dir)) n

    abbrev entries : Result (List RecordPath) → List RecordPath
    entries (ok ps) = ps
    entries (err e) = []

    unfoldable pub list_bets : Text → Handler
    list_bets dir n =
        let (r, n') = outside lib env (backend.read_dir dir) n in
        none_shown dir (list_records dir (entries r) false n')

    unfoldable pub drive : BetRecord lib → Bool → H lib env Report
    drive rec true = at_desk (broadcast_refund lib env rec)
    drive rec false = do outside lib env backend.wallet; at_desk (recover lib env rec)

    unfoldable pub drive_found : Text → Text → Bool → Option RecordPath → Handler
    drive_found dir id refund none = emit lib env (Event.error (Failure.no_bet_matching id))
    drive_found dir id refund (some path) =
        respond (outside lib env (backend.load_record dir path))
          (λ rec.
            respond (drive rec refund) (λ r. emit lib env (Event.info (Note.recovered id r)))
              (λ e. emit lib env (Event.error (Failure.recover_failed id e))))
          (λ e. emit lib env (Event.error (Failure.recover_load e)))

    unfoldable pub recover_one : Text → Option Text → Bool → Handler
    recover_one dir none refund n = list_bets dir n
    recover_one dir (some id) refund n =
        let (r, n') = outside lib env (backend.read_dir dir) n in
        drive_found dir id refund (find_in (entries r) id) n'

    unfoldable pub recover_in : Option Text → Option Text → Bool → Handler
    recover_in none id refund = emit lib env (Event.error Failure.no_state_dir)
    recover_in (some dir) id refund =
        respond (outside lib env backend.chain) (λ opened. recover_one dir id refund)
          (λ e. emit lib env (Event.error (Failure.recover_chain e)))

    unfoldable pub recover_cmd : Option Text → Bool → Handler
    unfolding recover_in
    recover_cmd id refund n = recover_in n.core.config.state_dir id refund n
