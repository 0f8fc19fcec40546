-- ===== src/Bet/Env.antt =====
-- What a bet calls: the traits `Wallet`, `Chain` and `Transport`, the disk, the clock and the
-- random seeds, over a world of their own. Each call answers, and may change the world.
--
-- The log records each call that acts on the outside, newest first, and whether it succeeded.
use babilonia.Prelude.{ℕ, ◌*◌, Bool, true, false, Option, none, some, List, ◌∷◌, Result, ok, err}
use babilonia.Bytes.{Bytes}
use babilonia.Tx.{OutPoint, Transaction}
use babilonia.Action.{Action, gets, pure}
use babilonia.Bet.Library.{Library, Network, regtest}
use babilonia.Bet.State.{BetRecord, Bet, GameParams}

-- `Bet::step_budget`, in seconds.
unfoldable pub step_budget : Network → ℕ
step_budget regtest = 60
step_budget _ = 30 * 60

module _ (lib : Library) where
  pub data Effect : Type 0 where
    -- `transport.send`, `wallet.sign_psbt` and `chain.broadcast`.
    sent : Bytes → Effect
    signed : Bytes → Effect
    broadcast : Transaction → Effect
    -- The refund file of a pot, and the record of a bet.
    refund_written : OutPoint → Transaction → Effect
    saved : BetRecord lib → Effect

  abbrev pub Log : Type 0
  Log = List (Effect × Bool)

  pub record Env : Type 1 where
    pub World : Type 0
    pub select_input : ℕ → Action World (OutPoint × ℕ)
    pub receive_address : Action World Bytes
    pub change_address : Action World Bytes
    pub create_psbt : List OutPoint → List (Bytes × ℕ) → Action World Bytes
    pub sign_psbt : Bytes → Action World Bytes
    pub combine_finalize : List Bytes → Action World Transaction
    pub block_height : Action World ℕ
    pub broadcast_tx : Transaction → Action World Bytes
    pub confirmations : Bytes → Action World (Option ℕ)
    pub get_transaction : Bytes → Action World (Option Transaction)
    pub utxo_unspent : OutPoint → Action World Bool
    pub send : Bytes → Action World (Unit {0})
    pub recv : Action World Bytes
    pub try_recv : Action World (Option Bytes)
    pub random_seed : Action World Bytes
    -- How often a loop goes round before the deadline of so many seconds has passed.
    pub rounds : ℕ → World → ℕ
    -- The directory, the pot and the witnessed refund; and the directory and the record.
    pub write_refund : Bytes → OutPoint → Transaction → Action World (Unit {0})
    pub save_record : Bytes → BetRecord lib → Action World (Unit {0})

  module _ (env : Env) where
    open env use {World}

    pub record St : Type 0 where
      pub bet : Bet lib
      pub world : World
      pub log : Log

    abbrev pub M : Type 0 → Type 0
    M A = Action St A

    abbrev pub succeeded : {A : Type 0} → Result A → Bool
    succeeded (ok a) = true
    succeeded (err e) = false

    -- A call that only looks, or that acts on nothing outside.
    unfoldable pub call : {A : Type 0} → Action World A → M A
    call f s = let (r, w) = f s.world in (r, record s { world = w })

    -- A call that acts.
    unfoldable pub act : {A : Type 0} → Effect → Action World A → M A
    act e f s =
        let (r, w) = f s.world in (r, record s { world = w; log = (e, succeeded r) ∷ s.log })

    unfoldable pub update : (Bet lib → Bet lib) → M (Unit {0})
    update f s = (ok tt, record s { bet = f s.bet })

    abbrev pub set_params : (GameParams → GameParams) → M (Unit {0})
    set_params f = update (λ b. record b { params = f b.params })

    abbrev pub ask : {A : Type 0} → (Bet lib → A) → M A
    ask f = gets (λ s. f s.bet)

    -- `match o { Some(a) => Ok(a), None => m }`.
    unfoldable pub or_else : {A : Type 0} → Option A → M A → M A
    or_else none m = m
    or_else (some a) m = pure a
