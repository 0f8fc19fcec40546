-- ===== src/Transport/Contract/Refines.antt =====
-- The in-memory pair keeps the contract of the trait.
use babilonia.Prelude
use babilonia.Prelude.{
  ℕ, zero, suc, ◌+◌, ◌≤◌, ◌≡◌, ◌∙◌, ◌⊎◌, inl, inr, refl, sym, ap, subst, Bool, true, false, Option,
  none, some, List, [], ◌∷◌, ◌++◌, ok, err, arith, length, length-append, get_elem?, Bool-cases,
}
use babilonia.Bytes.{Bytes}
use babilonia.Transport.{
  Channel, Side, alice, bob, Duplex, channel_pair, Answer, received, waits, Call, send, recv,
  try_recv, drop, send_on, front, unless_closed, recv_on, try_recv_on, call, answers,
}
use babilonia.Transport.Contract.{
  History, Promise, fresh, promise_send, take_next, promise_recv, promise_try_recv, promise,
  promised,
}

-- The queue holds what was sent and not taken.
pub record Keeps (c : Channel) (h : History) : Type 0 where
  pub queue : c.queue ≡ Prelude.drop h.taken h.frames
  pub taken : h.taken ≤ length h.frames
  pub writer : c.writer ≡ h.writer
  pub reader : c.reader ≡ h.reader

-- Two answers are the same, and the channels behind them go on in the same way.
record Alike (x : Answer × Channel) (y : Answer × History) : Type 0 where
  answer : x.0 ≡ y.0
  state : Keeps x.1 y.1

-- What is behind the first n elements: nothing, or one more.
record HasNext (n : ℕ) (xs : List Bytes) (y : Bytes) (ys : List Bytes) : Type 0 where
  rest : Prelude.drop n xs ≡ y ∷ ys
  here : get_elem? xs n ≡ some y
  behind : Prelude.drop (suc n) xs ≡ ys
  within : suc n ≤ length xs

behind_head :
    (x : Bytes) (n : ℕ) (xs : List Bytes)
    → ((Prelude.drop n xs ≡ []) × (get_elem? xs n ≡ none))
      ⊎ ((y : Bytes) × (ys : List Bytes) × HasNext n xs y ys)
    → ((Prelude.drop n xs ≡ []) × (get_elem? xs n ≡ none))
      ⊎ ((y : Bytes) × (ys : List Bytes) × HasNext (suc n) (x ∷ xs) y ys)
behind_head x n xs (inl (e, f)) = inl (e, f)
behind_head x n xs (inr (y, ys, h)) = inr (
  y,
  ys,
  record { rest = h.rest; here = h.here; behind = h.behind; within = omega (arith, h.within) },
)

next_or_end :
    (n : ℕ) (xs : List Bytes)
    → ((Prelude.drop n xs ≡ []) × (get_elem? xs n ≡ none))
      ⊎ ((y : Bytes) × (ys : List Bytes) × HasNext n xs y ys)
next_or_end zero [] = inl (refl, refl)
next_or_end zero (x ∷ xs) =
    inr (x, xs, record { rest = refl; here = refl; behind = refl; within = omega arith })
next_or_end (suc n) [] = inl (refl, refl)
next_or_end (suc n) (x ∷ xs) = behind_head x n xs (next_or_end n xs)

drop-snoc :
    (n : ℕ) (xs : List Bytes) (f : Bytes)
    → n ≤ length xs
    → Prelude.drop n (xs ++ f ∷ []) ≡ Prelude.drop n xs ++ f ∷ []
drop-snoc zero xs f h = refl
drop-snoc (suc n) [] f h = ground arith
drop-snoc (suc n) (x ∷ xs) f h = drop-snoc n xs f (omega (arith, h))

send-Alike :
    (c : Channel) (h : History) (f : Bytes) (b : Bool)
    → c.reader ≡ b
    → h.reader ≡ b
    → Keeps c h
    → Alike (send_on c f) (promise_send h f)
unfolding send_on promise_send
send-Alike c h f true e g k =
    rw (e, g)
      (record {
        answer = refl;
        state = record {
          queue = ap (λ q. q ++ f ∷ []) k.queue ∙ sym (drop-snoc h.taken h.frames f k.taken);
          taken = omega (arith, length-append h.frames (f ∷ []), k.taken);
          writer = k.writer;
          reader = refl;
        };
      })
send-Alike c h f false e g k =
    rw (e, g)
      (record {
        answer = refl;
        state = record { queue = k.queue; taken = k.taken; writer = k.writer; reader = refl };
      })

-- A queue with a next frame, and the history with that frame in its place.
front_either-Alike :
    (c : Channel) (h : History) (x y : Answer) (q : List Bytes) (o : Option Bytes)
    → Keeps c h
    → x ≡ y
    → ((q ≡ []) × (o ≡ none))
      ⊎ ((f : Bytes) × (fs : List Bytes) × (q ≡ f ∷ fs)
          × (o ≡ some f)
          × Keeps (record c { queue = fs }) (record h { taken = h.taken + 1 }))
    → Alike (front c x q) (take_next h y o)
front_either-Alike c h x y q o k e (inl (none_left, missing)) =
    rw (none_left, missing) (record { answer = e; state = k })
front_either-Alike c h x y q o k e (inr (f, fs, next, found, goes_on)) =
    rw (next, found) (record { answer = refl; state = goes_on })

next_of :
    (c : Channel) (h : History)
    → Keeps c h
    → ((Prelude.drop h.taken h.frames ≡ []) × (get_elem? h.frames h.taken ≡ none))
      ⊎ ((y : Bytes) × (ys : List Bytes) × HasNext h.taken h.frames y ys)
    → ((c.queue ≡ []) × (get_elem? h.frames h.taken ≡ none))
      ⊎ ((f : Bytes) × (fs : List Bytes) × (c.queue ≡ f ∷ fs)
          × (get_elem? h.frames h.taken ≡ some f)
          × Keeps (record c { queue = fs }) (record h { taken = h.taken + 1 }))
next_of c h k (inl (e, g)) = inl (k.queue ∙ e, g)
next_of c h k (inr (y, ys, n)) =
    let one : h.taken + 1 ≡ suc h.taken = omega arith in
    inr (
      y,
      ys,
      k.queue ∙ n.rest,
      n.here,
      record {
        queue = sym n.behind ∙ ap (λ i. Prelude.drop i h.frames) (sym one);
        taken = omega (arith, n.within, one);
        writer = k.writer;
        reader = k.reader;
      },
    )

front-Alike :
    (c : Channel) (h : History) (open_answer : Answer)
    → Keeps c h
    → Alike
        (front c (unless_closed c.writer open_answer) c.queue)
        (take_next h (unless_closed h.writer open_answer) (get_elem? h.frames h.taken))
front-Alike c h open_answer k =
    front_either-Alike c h _ _ c.queue (get_elem? h.frames h.taken) k
      (ap (λ b. unless_closed b open_answer) k.writer)
      (next_of c h k (next_or_end h.taken h.frames))

-- Both directions.
pub record Refines (d : Duplex) (p : Promise) : Type 0 where
  pub forth : Keeps d.alice_to_bob p.alice_to_bob
  pub back : Keeps d.bob_to_alice p.bob_to_alice

record SameCall (x : Answer × Duplex) (y : Answer × Promise) : Type 0 where
  answer : x.0 ≡ y.0
  state : Refines x.1 y.1

stops_writing :
    (c : Channel) (h : History)
    → Keeps c h
    → Keeps (record c { writer = false }) (record h { writer = false })
stops_writing c h k = record { queue = k.queue; taken = k.taken; writer = refl; reader = k.reader }

stops_reading :
    (c : Channel) (h : History)
    → Keeps c h
    → Keeps (record c { reader = false }) (record h { reader = false })
stops_reading c h k = record { queue = k.queue; taken = k.taken; writer = k.writer; reader = refl }

same_call :
    (side : Side) (c : Call) (d : Duplex) (p : Promise)
    → Refines d p
    → SameCall (call side c d) (promise side c p)
unfolding call promise recv_on try_recv_on promise_recv promise_try_recv
same_call alice (send frame) d p r =
    let a =
      send-Alike d.alice_to_bob p.alice_to_bob frame d.alice_to_bob.reader refl (sym r.forth.reader)
        r.forth in
    record { answer = a.answer; state = record { forth = a.state; back = r.back } }
same_call bob (send frame) d p r =
    let a =
      send-Alike d.bob_to_alice p.bob_to_alice frame d.bob_to_alice.reader refl (sym r.back.reader)
        r.back in
    record { answer = a.answer; state = record { forth = r.forth; back = a.state } }
same_call alice recv d p r =
    let a = front-Alike d.bob_to_alice p.bob_to_alice waits r.back in
    record { answer = a.answer; state = record { forth = r.forth; back = a.state } }
same_call bob recv d p r =
    let a = front-Alike d.alice_to_bob p.alice_to_bob waits r.forth in
    record { answer = a.answer; state = record { forth = a.state; back = r.back } }
same_call alice try_recv d p r =
    let a = front-Alike d.bob_to_alice p.bob_to_alice (received (ok none)) r.back in
    record { answer = a.answer; state = record { forth = r.forth; back = a.state } }
same_call bob try_recv d p r =
    let a = front-Alike d.alice_to_bob p.alice_to_bob (received (ok none)) r.forth in
    record { answer = a.answer; state = record { forth = a.state; back = r.back } }
same_call alice drop d p r = record {
  answer = refl;
  state = record { forth = stops_writing _ _ r.forth; back = stops_reading _ _ r.back };
}
same_call bob drop d p r = record {
  answer = refl;
  state = record { forth = stops_reading _ _ r.forth; back = stops_writing _ _ r.back };
}

answers_same :
    (cs : List (Side × Call)) (d : Duplex) (p : Promise)
    → Refines d p
    → answers cs d ≡ promised cs p
unfolding answers promised
answers_same [] d p r = refl
answers_same ((side, c) ∷ cs) d p r =
    let s = same_call side c d p r in
    ap (λ a. a ∷ answers cs (call side c d).1) s.answer
    ∙ ap (λ rest. (promise side c p).0 ∷ rest)
        (answers_same cs (call side c d).1 (promise side c p).1 s.state)

-- Whatever the two ends of a fresh pair call, and in whatever order, they get the answers that the
-- contract promises: each frame that was sent and no other, whole, in its order, once; an error for
-- what is sent to an end that is gone, and once all is taken for what is asked of one.
pub answers-promised : (cs : List (Side × Call)) → answers cs channel_pair ≡ promised cs fresh
unfolding channel_pair fresh
answers-promised cs = answers_same cs channel_pair fresh (record {
  forth = record { queue = refl; taken = omega arith; writer = refl; reader = refl };
  back = record { queue = refl; taken = omega arith; writer = refl; reader = refl };
})
