-- ===== src/Messages/Reader.antt =====
-- The `Reader` of src/messages.rs: a cursor over a frame. Reads are checked against the frame's
-- end and against the overflow of `usize`, which is 64 bits wide.
pub mod Laws
use babilonia.Prelude.{
  ℕ, ◌+◌, ◌^◌, ◌<◌, ◌≤◌, ◌≡◌, ◌≢◌, refl, sym, ap, Bool, true, false, Option, none, some, List, [],
  ◌∷◌, ◌++◌, append_assoc, append-nil, arith, ltb, leb, ◌==◌, if◌then◌else◌, length, take, drop,
  length-append, take-append, drop-append, Error, Result, ok, err, decode, Bool-cases,
}
use babilonia.Bytes.{
  Bytes, to_le_bytes, from_le_bytes, length-to_le_bytes, from_to_le_bytes_4, from_to_le_bytes_8,
}
use babilonia.Tx.{OutPoint}
use babilonia.Bytes.Utf8.{is_utf8}

pub record Reader : Type 0 where
  pub buf : Bytes
  pub pos : ℕ

abbrev pub new : Bytes → Reader
new b = record { buf = b; pos = 0 }

-- A method of the reader that may fail.
abbrev pub Parser : Type 0 → Type 0
Parser A = Reader → Result (A × Reader)

abbrev pub pure : {A : Type 0} → A → Parser A
pure a r = ok (a, r)

abbrev pub fail : {A : Type 0} → Error → Parser A
fail e r = err e

infixl 5 ◌>>=◌ ◌>>◌
unfoldable pub ◌>>=◌ : {A B : Type 0} → Parser A → (A → Parser B) → Parser B
◌>>=◌ p f r = elim (p r) [ ok (a, r') ↦ f a r' | err e ↦ err e ]

abbrev pub ◌>>◌ : {A B : Type 0} → Parser A → Parser B → Parser B
p >> q = p >>= λ _. q

-- `Reader::take`.
pub take_bytes : ℕ → Parser Bytes
take_bytes n r =
    let end = r.pos + n in
    if leb (2 ^ 64) end
    then err (decode "length overflow")
    else if ltb (length r.buf) end
    then err (decode "frame too short")
    else ok (take n (drop r.pos r.buf), record r { pos = end })

-- `take(1)?[0] != expected`.
abbrev head_is : Bytes → ℕ → Bool
head_is [] expected = false
head_is (b ∷ bs) expected = b == expected

pub tag : ℕ → Parser (Unit {0})
tag expected = do
  b ← take_bytes 1
  if head_is b expected then pure tt else fail (decode "unexpected message tag")

-- `from_slice(..).map_err(..)`.
abbrev pub accept : {A : Type 0} → Option A → Error → Parser A
accept none e = fail e
accept (some a) e = pure a

-- A value of another library that is written in exactly `n` bytes: its `serialize` and
-- `from_slice`. A value that was written is read back.
pub record Fixed (n : ℕ) (A : Type 0) : Type 0 where
  pub serialize : A → Bytes
  pub from_slice : Bytes → Option A
  pub length-serialize : (a : A) → length (serialize a) ≡ n
  pub from_slice-serialize : (a : A) → from_slice (serialize a) ≡ some a

-- `Reader::point`, `scalar`, `partial` and `nonce`, which differ in the width and in the error.
pub fixed : {n : ℕ} {A : Type 0} → Fixed n A → Error → Parser A
fixed {n} c e = do b ← take_bytes n; accept (c.from_slice b) e

-- `Reader::lp`.
pub lp : Parser Bytes
lp = do b ← take_bytes 4; take_bytes (from_le_bytes b)

-- `Reader::string`.
pub string : Parser Bytes
unfolding lp
string = do b ← lp; if is_utf8 b then pure b else fail (decode "invalid utf-8")

-- `Reader::u64`.
pub u64 : Parser ℕ
u64 = do b ← take_bytes 8; pure (from_le_bytes b)

-- `Reader::outpoint`.
pub outpoint : Parser OutPoint
outpoint = do
  id ← take_bytes 32
  v ← take_bytes 4
  pure (record { txid = id; vout = from_le_bytes v })

-- `Reader::finish`.
pub finish : Reader → Result (Unit {0})
finish r = if r.pos == length r.buf then ok tt else err (decode "trailing bytes")

abbrev close : {A : Type 0} → Result (A × Reader) → Result A
close (ok (m, r)) = elim (finish r) [ ok _ ↦ ok m | err e ↦ err e ]
close (err e) = err e

-- The frame of every `decode`: read the fields from a new reader, finish, and return the message.
unfoldable pub decode_with : {A : Type 0} → Parser A → Bytes → Result A
decode_with p buf = close (p (new buf))
