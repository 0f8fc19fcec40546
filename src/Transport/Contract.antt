-- ===== src/Transport/Contract.antt =====
-- The contract of the trait `Transport`: frames arrive whole, in the order in which they were sent,
-- exactly once. It is kept here as the whole history of a direction, and how much of it was taken.
pub mod Refines
use babilonia.Prelude.{
  ℕ, zero, suc, ◌+◌, ◌≤◌, ◌≡◌, ◌∙◌, refl, sym, ap, subst, Bool, true, false, if◌then◌else◌, Option,
  none, some, List, [], ◌∷◌, ◌++◌, Error, Result, ok, err, transport, arith, length, get_elem?,
  Option-cases,
}
use babilonia.Bytes.{Bytes}
use babilonia.Transport.{
  Channel, Side, alice, bob, Duplex, channel_pair, Answer, sent, received, waits, dropped, Call,
  send, recv, try_recv, drop, closed, send_on, front, unless_closed,
}

pub record History : Type 0 where
  pub frames : List Bytes
  pub taken : ℕ
  pub writer : Bool
  pub reader : Bool

pub record Promise : Type 0 where
  pub alice_to_bob : History
  pub bob_to_alice : History

abbrev pub nothing_yet : History
nothing_yet = record { frames = []; taken = 0; writer = true; reader = true }

unfoldable pub fresh : Promise
fresh = record { alice_to_bob = nothing_yet; bob_to_alice = nothing_yet }

unfoldable pub promise_send : History → Bytes → Answer × History
promise_send h frame =
    if h.reader
    then (sent (ok tt), record h { frames = h.frames ++ frame ∷ [] })
    else (sent (err closed), h)

-- The frame at the place up to which frames were taken.
abbrev pub take_next : History → Answer → Option Bytes → Answer × History
take_next h none_left none = (none_left, h)
take_next h none_left (some f) = (received (ok (some f)), record h { taken = h.taken + 1 })

unfoldable pub promise_recv : History → Answer × History
promise_recv h = take_next h (unless_closed h.writer waits) (get_elem? h.frames h.taken)

unfoldable pub promise_try_recv : History → Answer × History
promise_try_recv h =
    take_next h (unless_closed h.writer (received (ok none))) (get_elem? h.frames h.taken)

abbrev with_out : Side → Promise → Answer × History → Answer × Promise
with_out alice d (a, c) = (a, record d { alice_to_bob = c })
with_out bob d (a, c) = (a, record d { bob_to_alice = c })

abbrev with_in : Side → Promise → Answer × History → Answer × Promise
with_in alice d (a, c) = (a, record d { bob_to_alice = c })
with_in bob d (a, c) = (a, record d { alice_to_bob = c })

unfoldable pub promise : Side → Call → Promise → Answer × Promise
unfolding promise_send promise_recv promise_try_recv
promise alice (send frame) d = with_out alice d (promise_send d.alice_to_bob frame)
promise bob (send frame) d = with_out bob d (promise_send d.bob_to_alice frame)
promise alice recv d = with_in alice d (promise_recv d.bob_to_alice)
promise bob recv d = with_in bob d (promise_recv d.alice_to_bob)
promise alice try_recv d = with_in alice d (promise_try_recv d.bob_to_alice)
promise bob try_recv d = with_in bob d (promise_try_recv d.alice_to_bob)
promise alice drop d = (
  dropped,
  record d {
    alice_to_bob = record d.alice_to_bob { writer = false };
    bob_to_alice = record d.bob_to_alice { reader = false };
  },
)
promise bob drop d = (
  dropped,
  record d {
    bob_to_alice = record d.bob_to_alice { writer = false };
    alice_to_bob = record d.alice_to_bob { reader = false };
  },
)

unfoldable pub promised : List (Side × Call) → Promise → List Answer
promised [] d = []
promised ((side, c) ∷ cs) d = let (a, d') = promise side c d in a ∷ promised cs d'
