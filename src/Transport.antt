-- ===== src/Transport.antt =====
-- src/transport: the in-memory pair of src/transport/memory.rs, two queues wired crosswise, and the
-- contract of the trait in src/transport/mod.rs.
pub mod Contract
use babilonia.Prelude.{
  ℕ, Bool, true, false, if◌then◌else◌, Option, none, some, List, [], ◌∷◌, ◌++◌, Error, Result, ok,
  err, transport,
}
use babilonia.Bytes.{Bytes}

-- A queue from one end to the other; an end that is dropped no longer writes or reads.
pub record Channel : Type 0 where
  pub queue : List Bytes
  pub writer : Bool
  pub reader : Bool

pub data Side : Type 0 where
  alice bob : Side

pub record Duplex : Type 0 where
  pub alice_to_bob : Channel
  pub bob_to_alice : Channel

abbrev pub empty : Channel
empty = record { queue = []; writer = true; reader = true }

-- `channel_pair`.
unfoldable pub channel_pair : Duplex
channel_pair = record { alice_to_bob = empty; bob_to_alice = empty }

-- What a call on one end answers.
pub data Answer : Type 0 where
  sent : Result (Unit {0}) → Answer
  received : Result (Option Bytes) → Answer
  -- `recv` waits.
  waits : Answer
  dropped : Answer

pub data Call : Type 0 where
  send : Bytes → Call
  recv try_recv : Call
  -- The end goes out of scope.
  drop : Call

abbrev closed : Error
closed = transport "peer channel closed"

unfoldable pub send_on : Channel → Bytes → Answer × Channel
send_on c frame =
    if c.reader
    then (sent (ok tt), record c { queue = c.queue ++ frame ∷ [] })
    else (sent (err closed), c)

abbrev pub front : Channel → Answer → List Bytes → Answer × Channel
front c none_left [] = (none_left, c)
front c none_left (f ∷ fs) = (received (ok (some f)), record c { queue = fs })

abbrev pub unless_closed : Bool → Answer → Answer
unless_closed true open_answer = open_answer
unless_closed false open_answer = received (err closed)

unfoldable pub recv_on : Channel → Answer × Channel
recv_on c = front c (unless_closed c.writer waits) c.queue

unfoldable pub try_recv_on : Channel → Answer × Channel
try_recv_on c = front c (unless_closed c.writer (received (ok none))) c.queue

abbrev with_out : Side → Duplex → Answer × Channel → Answer × Duplex
with_out alice d (a, c) = (a, record d { alice_to_bob = c })
with_out bob d (a, c) = (a, record d { bob_to_alice = c })

abbrev with_in : Side → Duplex → Answer × Channel → Answer × Duplex
with_in alice d (a, c) = (a, record d { bob_to_alice = c })
with_in bob d (a, c) = (a, record d { alice_to_bob = c })

abbrev out_of : Side → Duplex → Channel
out_of alice d = d.alice_to_bob
out_of bob d = d.bob_to_alice

abbrev into : Side → Duplex → Channel
into alice d = d.bob_to_alice
into bob d = d.alice_to_bob

abbrev drop_end : Side → Duplex → Duplex
drop_end alice d = record d {
  alice_to_bob = record d.alice_to_bob { writer = false };
  bob_to_alice = record d.bob_to_alice { reader = false };
}
drop_end bob d = record d {
  bob_to_alice = record d.bob_to_alice { writer = false };
  alice_to_bob = record d.alice_to_bob { reader = false };
}

-- `impl Transport for DuplexChannel`.
unfoldable pub call : Side → Call → Duplex → Answer × Duplex
unfolding send_on recv_on try_recv_on
call side (send frame) d = with_out side d (send_on (out_of side d) frame)
call side recv d = with_in side d (recv_on (into side d))
call side try_recv d = with_in side d (try_recv_on (into side d))
call side drop d = (dropped, drop_end side d)

unfoldable pub answers : List (Side × Call) → Duplex → List Answer
answers [] d = []
answers ((side, c) ∷ cs) d = let (a, d') = call side c d in a ∷ answers cs d'
