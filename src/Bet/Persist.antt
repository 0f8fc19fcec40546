-- ===== src/Bet/Persist.antt =====
-- The disk of a bet, and waiting for the chain: `persist_refund`, `persist`, `state`,
-- `wait_confirmed`, `poll_tx` and `recv_deadline` of src/bet.rs. The progress lines are left out.
--
-- A loop that polls until a deadline goes round `rounds` times and once more.
use Prim.Native.Nat.{max}
use babilonia.Prelude.{
  ℕ, zero, suc, ◌*◌, Bool, false, Option, none, some, List, [], ◌∷◌, leb, if◌then◌else◌, protocol,
  ok_or,
}
use mathlib.Core.Option
use babilonia.Bytes.{Bytes}
use babilonia.Tx.{TxIn, Transaction}
use babilonia.Action.{pure, raise, lift, gets, ◌>>=◌}
use babilonia.Bet.Library.{Library}
use babilonia.Bet.State.{Phase, SetupResult, SetupData, Bet, BetRecord}
use babilonia.Bet.Env.{Env, M, call, act, ask, or_else, step_budget, refund_written, saved}

abbrev pub witness_first : List TxIn → List Bytes → List TxIn
witness_first [] w = []
witness_first (i ∷ is) w = record i { witness = w } ∷ is

-- `tx.input[0].witness = w`; every transaction that is witnessed here has an input.
unfoldable pub set_witness : Transaction → List Bytes → Transaction
set_witness tx w = record tx { input = witness_first tx.input w }

module _ (lib : Library) (env : Env lib) where
  -- `Bet::state`.
  unfoldable pub state : M lib env (SetupResult lib)
  state = do s ← ask lib env (λ b. b.setup); lift (ok_or s (protocol "setup not complete"))

  unfoldable pub persist_refund_in : Option Bytes → M lib env (Unit {0})
  persist_refund_in none = pure tt
  persist_refund_in (some dir) = do
    s ← state
    p ← ask lib env (λ b. b.params)
    let refund = set_witness s.refund_tx (lib.signature_bytes s.refund_sig ∷ [])
    act lib env (refund_written p.u1_outpoint refund) (env.write_refund dir p.u1_outpoint refund)

  unfoldable pub persist_refund : M lib env (Unit {0})
  persist_refund = do dir ← ask lib env (λ b. b.state_dir); persist_refund_in dir

  unfoldable pub setup_data : Option Transaction → SetupResult lib → SetupData lib
  setup_data reclaim s = record {
    settle_tx = s.settle_tx;
    settle_pre = s.settle_pre;
    refund_tx = s.refund_tx;
    refund_sig = s.refund_sig;
    ctxt = s.ctxt;
    d_point = s.d_point;
    k = s.k;
    thimble_0 = s.thimble_0;
    thimble_1 = s.thimble_1;
    p_a = s.p_a;
    reclaim_tx = reclaim;
  }

  unfoldable pub persist_in : Option Bytes → Phase → Bet lib → M lib env (Unit {0})
  unfolding setup_data
  persist_in none phase b = pure tt
  persist_in (some dir) phase b = do
    let rec : BetRecord lib = record {
      id = b.bet_id;
      phase = phase;
      role = b.role;
      params = b.params;
      funding_tx = b.funding_tx;
      setup = Option.map (setup_data b.reclaim_tx) b.setup;
      recovered_a_c = b.recovered_a_c;
    }
    act lib env (saved rec) (env.save_record dir rec)

  unfoldable pub persist : Phase → M lib env (Unit {0})
  persist phase = do b ← ask lib env (λ b. b); persist_in b.state_dir phase b

  unfoldable pub rounds : ℕ → M lib env ℕ
  rounds seconds = gets (λ s. env.rounds seconds s.world)

  abbrev has_confs : ℕ → Option ℕ → Bool
  has_confs min_conf none = false
  has_confs min_conf (some c) = leb min_conf c

  unfoldable pub wait_loop : ℕ → Bytes → ℕ → M lib env (Unit {0})
  wait_loop zero txid min_conf = do
    c ← call lib env (env.confirmations txid)
    if has_confs min_conf c
        then pure tt
        else raise (protocol "transaction did not reach the required confirmations")
  wait_loop (suc n) txid min_conf = do
    c ← call lib env (env.confirmations txid)
    if has_confs min_conf c then pure tt else wait_loop n txid min_conf

  unfoldable pub wait_confirmed : Bytes → ℕ → M lib env (Unit {0})
  unfolding rounds wait_loop
  wait_confirmed txid min_conf = do
    network ← ask lib env (λ b. b.network)
    n ← rounds (step_budget network * max min_conf 1)
    wait_loop n txid min_conf

  unfoldable pub poll_loop : ℕ → Bytes → M lib env Transaction
  poll_loop zero txid = do
    tx ← call lib env (env.get_transaction txid)
    or_else lib env tx (raise (protocol "timed out waiting for a transaction"))
  poll_loop (suc n) txid = do
    tx ← call lib env (env.get_transaction txid)
    or_else lib env tx (poll_loop n txid)

  -- The timeout is given in seconds.
  unfoldable pub poll_tx : Bytes → ℕ → M lib env Transaction
  unfolding rounds poll_loop
  poll_tx txid timeout = do n ← rounds timeout; poll_loop n txid

  unfoldable pub received : Option Bytes → M lib env (Option Bytes) → M lib env (Option Bytes)
  received none m = m
  received (some frame) m = pure (some frame)

  unfoldable pub recv_loop : ℕ → M lib env (Option Bytes)
  recv_loop zero = call lib env env.try_recv
  recv_loop (suc n) = do frame ← call lib env env.try_recv; received frame (recv_loop n)

  unfoldable pub recv_deadline : ℕ → M lib env (Option Bytes)
  unfolding rounds recv_loop
  recv_deadline seconds = do n ← rounds seconds; recv_loop n
