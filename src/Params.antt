-- ===== src/Params.antt =====
-- src/params.rs: the parameters of a game, and the first phase of src/protocol.rs, which checks them.
use babilonia.Prelude.{
  ℕ, ◌+◌, ◌-◌, ◌*◌, ◌^◌, ltb, none, ◌≡◌, Bool, ◌&&◌, not, Option, some, leb, Result, ok, protocol,
  fail_if, ◌>>◌, if◌then◌else◌, arith,
}
use babilonia.Bet.Library.{Network}
use babilonia.Bet.Amounts.{checked_add, checked_sub}

pub record Params : Type 0 where
  pub stake : ℕ
  pub delta : ℕ
  pub reveal_window : ℕ
  pub refund_locktime : ℕ
  pub network : Network

unfoldable pub deterministic_share : Params → ℕ
deterministic_share p = p.stake

-- An amount that panics, out of 64 bits or below zero, is `none`.
unfoldable pub winner_amount : Params → Option ℕ
winner_amount p = checked_add p.stake p.delta

unfoldable pub loser_amount : Params → Option ℕ
loser_amount p = checked_sub p.stake p.delta

unfoldable pub pot : Params → Option ℕ
pot p = if ltb (p.stake * 2) (2 ^ 64) then some (p.stake * 2) else none

unfoldable pub is_wellformed : Params → Bool
is_wellformed p = leb p.delta p.stake && leb 1 p.reveal_window

-- `Role` of src/lib.rs.
pub data Role : Type 0 where
  alice bob : Role

pub record Negotiated : Type 0 where
  pub role : Role
  pub params : Params

-- `Negotiated::begin`, which leaves its verifier aside.
unfoldable pub begin : Role → Params → Result Negotiated
begin role params = do
  fail_if (not (is_wellformed params)) (protocol "malformed proposal params")
  ok (record { role = role; params = params })

-- If negotiation begins and the pot is an amount, then so is what either party may take, and the two
-- make up the pot.
pub begin-pot :
    (role : Role) (params : Params) (n : Negotiated) (total : ℕ)
    → begin role params ≡ ok n
    → pot params ≡ some total
    → (w : ℕ) × (l : ℕ) × (winner_amount params ≡ some w)
      × (loser_amount params ≡ some l)
      × (w + l ≡ total)
unfolding begin pot winner_amount loser_amount is_wellformed
begin-pot role params n total begun whole = (
  params.stake + params.delta,
  params.stake - params.delta,
  ground arith,
  ground arith,
  ground arith,
)
