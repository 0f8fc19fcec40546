-- ===== src/Messages/Reader/Laws.antt =====
-- What the readers of src/messages.rs read back: a rule for each method of `Reader`, and one for
-- each way to put readers together. `search reads_rules` proves that a message's body is read.
use babilonia.Prelude.{
  ℕ, ◌^◌, ◌<◌, ◌≡◌, ◌≢◌, refl, sym, ap, ◌∙◌, if◌then◌else◌, true, [], ◌∷◌, ◌++◌, append_assoc,
  append-nil, arith, ◌==◌, length, take, length-append, take-append, drop-append, Error, ok, err,
  decode,
}
use babilonia.Bytes.{
  Bytes, to_le_bytes, from_le_bytes, length-to_le_bytes, from_to_le_bytes_4, from_to_le_bytes_8,
}
use babilonia.Bytes.Utf8.{is_utf8}
use babilonia.Tx.{OutPoint}
use babilonia.Messages.Reader.{
  Reader, new, Parser, pure, ◌>>=◌, take_bytes, tag, Fixed, fixed, lp, string, u64, outpoint,
  finish, decode_with, accept, head_is, fail, close,
}

==_refl : (t : ℕ) → (t == t) ≡ true
==_refl t = ground arith

-- A reader between what it has read and what is left.
abbrev cursor : Bytes → Bytes → Reader
cursor pre post = record { buf = pre ++ post; pos = length pre }

-- Wherever they stand in a frame, `p` reads the bytes `bs` as `a` and stops behind them.
pub record Reads {A : Type 0} (p : Parser A) (bs : Bytes) (a : A) : Type 0 where
  pub at :
      (pre post : Bytes)
      → length (pre ++ (bs ++ post)) < 2 ^ 64
      → p (cursor pre (bs ++ post)) ≡ ok (a, cursor (pre ++ bs) post)

pub Reads-pure : {A : Type 0} (a : A) → Reads (pure a) [] a
Reads-pure a = record { at = λ pre post h. rw append-nil }

bind-ok :
    {A B : Type 0} (p : Parser A) (f : A → Parser B) (r : Reader) {r' : Reader} {a : A}
    → p r ≡ ok (a, r')
    → (p >>= f) r ≡ f a r'
unfolding ◌>>=◌
bind-ok p f r e = rw (e, ◌>>=◌)

pub Reads-bind :
    {A B : Type 0} {p : Parser A} (f : A → Parser B) {bs cs : Bytes} {a : A} {b : B}
    → Reads p bs a
    → Reads (f a) cs b
    → Reads (p >>= f) (bs ++ cs) b
Reads-bind {p} f {bs} {cs} {a} {b} rp rf = record {
  at = λ pre post h.
      let regroup : (bs ++ cs) ++ post ≡ bs ++ (cs ++ post) = append_assoc bs cs post in
      let bound : length (pre ++ (bs ++ (cs ++ post))) < 2 ^ 64 = rw regroup at h in
      let bound' : length ((pre ++ bs) ++ (cs ++ post)) < 2 ^ 64 =
        rw (append_assoc pre bs (cs ++ post)) bound in
      rw (regroup, ← append_assoc pre bs cs)
        (bind-ok p f (cursor pre (bs ++ (cs ++ post))) (rp.at pre (cs ++ post) bound)
          ∙ rf.at (pre ++ bs) post bound');
}

-- The last step reads nothing more.
pub Reads-return :
    {A B : Type 0} {p : Parser A} (f : A → Parser B) {bs : Bytes} {a : A} {b : B}
    → Reads p bs a
    → f a ≡ pure b
    → Reads (p >>= f) bs b
Reads-return {p} f {bs} rp e = record {
  at = λ pre post h.
      bind-ok p f (cursor pre (bs ++ post)) (rp.at pre post h)
      ∙ ap (λ (q : Parser _). q (cursor (pre ++ bs) post)) e;
}

pub Reads-take : (n : ℕ) (bs : Bytes) → length bs ≡ n → Reads (take_bytes n) bs bs
unfolding take_bytes
Reads-take n bs e = record {
  at = λ pre post h.
      let whole : take n (bs ++ post) ≡ bs = rw (← e) (take-append bs post) in
      let buffer : pre ++ (bs ++ post) ≡ (pre ++ bs) ++ post = sym (append_assoc pre bs post) in
      ground (
        arith,
        e,
        whole,
        buffer,
        drop-append pre (bs ++ post),
        length-append pre (bs ++ post),
        length-append bs post,
        length-append pre bs,
      );
}

pub Reads-tag : (t : ℕ) → Reads (tag t) (t ∷ []) tt
unfolding tag
Reads-tag t =
    Reads-return (λ b. if head_is b t then pure tt else fail (decode "unexpected message tag"))
      (Reads-take 1 (t ∷ []) refl) (rw (==_refl t))

pub Reads-fixed :
    {n : ℕ} {A : Type 0} (c : Fixed n A) (e : Error) (a : A) → Reads (fixed c e) (c.serialize a) a
unfolding fixed
Reads-fixed {n} c e a =
    Reads-return (λ b. accept (c.from_slice b) e)
      (Reads-take n (c.serialize a) (c.length-serialize a)) (rw (c.from_slice-serialize a))

pub Reads-lp : (bs : Bytes) → length bs < 2 ^ 32 → Reads lp (to_le_bytes 4 (length bs) ++ bs) bs
unfolding lp
Reads-lp bs h =
    Reads-bind (λ b. take_bytes (from_le_bytes b))
      (Reads-take 4 (to_le_bytes 4 (length bs)) (length-to_le_bytes 4 (length bs)))
      (Reads-take _ bs (sym (from_to_le_bytes_4 (length bs) h)))

pub Reads-string :
    (bs : Bytes)
    → length bs < 2 ^ 32
    → is_utf8 bs ≡ true
    → Reads string (to_le_bytes 4 (length bs) ++ bs) bs
unfolding string
Reads-string bs h valid =
    Reads-return (λ b. if is_utf8 b then pure b else fail (decode "invalid utf-8")) (Reads-lp bs h)
      (rw valid)

pub Reads-u64 : (n : ℕ) → n < 2 ^ 64 → Reads u64 (to_le_bytes 8 n) n
unfolding u64
Reads-u64 n h =
    Reads-return (λ b. pure (from_le_bytes b))
      (Reads-take 8 (to_le_bytes 8 n) (length-to_le_bytes 8 n)) (rw (from_to_le_bytes_8 n h))

abbrev with_vout : Bytes → Bytes → Parser OutPoint
with_vout id v = pure (record { txid = id; vout = from_le_bytes v })

pub Reads-outpoint :
    (o : OutPoint)
    → length o.txid ≡ 32
    → o.vout < 2 ^ 32
    → Reads outpoint (o.txid ++ to_le_bytes 4 o.vout) o
unfolding outpoint
Reads-outpoint o t v =
    Reads-bind (λ id. take_bytes 4 >>= with_vout id) (Reads-take 32 o.txid t)
      (Reads-return (with_vout o.txid)
        (Reads-take 4 (to_le_bytes 4 o.vout) (length-to_le_bytes 4 o.vout))
        (rw (from_to_le_bytes_4 o.vout v)))

pub ruleset reads_rules = (
  Reads-pure, Reads-bind, Reads-tag, Reads-fixed, Reads-lp, Reads-string, Reads-u64, Reads-outpoint,
)

module _ {A : Type 0} {p : Parser A} {bs : Bytes} {a : A} (reads : Reads p bs a) where
  -- A frame that holds the message and nothing else is decoded to it.
  pub decode_with-Reads : length bs < 2 ^ 64 → decode_with p bs ≡ ok a
  unfolding decode_with finish
  decode_with-Reads h =
      let e : p (new bs) ≡ ok (a, record { buf = bs; pos = length bs }) =
        rw append-nil at (reads.at [] [] (rw append-nil h)) in
      rw (e, close) (rw (==_refl (length bs)))

  -- Bytes behind the message are refused.
  pub decode_with_trailing :
      (x : ℕ) (xs : Bytes)
      → length (bs ++ x ∷ xs) < 2 ^ 64
      → decode_with p (bs ++ x ∷ xs) ≡ err (decode "trailing bytes")
  unfolding decode_with finish
  decode_with_trailing x xs h =
      rw (reads.at [] (x ∷ xs) h, close) (ground (arith, length-append bs (x ∷ xs)))

-- A frame with another first byte is refused before anything else is read.
pub decode_with_wrong_tag :
    {A : Type 0} (t : ℕ) (f : Unit {0} → Parser A) (u : ℕ) (bs : Bytes)
    → u ≢ t
    → length (u ∷ bs) < 2 ^ 64
    → decode_with (tag t >>= f) (u ∷ bs) ≡ err (decode "unexpected message tag")
unfolding decode_with tag take_bytes ◌>>=◌
decode_with_wrong_tag t f u bs ne h = ground arith
