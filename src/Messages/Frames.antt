-- ===== src/Messages/Frames.antt =====
-- The nine frames together: what every `encode` and `decode` of src/messages.rs has in common.
use babilonia.Prelude.{
  ℕ, ◌^◌, ◌<◌, ◌≡◌, ◌≢◌, refl, ◌∙◌, ◌∷◌, ◌++◌, length, Result, ok, err, decode, arith,
}
use babilonia.Bytes.{Bytes}
use babilonia.Messages.Reader.{Parser, decode_with}
use babilonia.Messages.Reader.Laws.{
  Reads, decode_with-Reads, decode_with_trailing, decode_with_wrong_tag,
}
use babilonia.Messages.Wire.{Wire}
use babilonia.Messages.Setup.{
  AliceOpen, BobCommit, AliceReveal, BobAuth, encode_alice_open, encode_bob_commit,
  encode_alice_reveal, encode_bob_auth, decode_alice_open, decode_bob_commit, decode_alice_reveal,
  decode_bob_auth, read_alice_open, read_bob_commit, read_alice_reveal, read_bob_auth,
}
use babilonia.Messages.Setup.Laws.{
  Reads-alice_open, Reads-bob_commit, Reads-alice_reveal, Reads-bob_auth,
}
use babilonia.Messages.Funding.{
  FundOpen, FundReply, FundSign, FundFinal, CoopReveal, encode_fund_open, encode_fund_reply,
  encode_fund_sign, encode_fund_final, encode_coop_reveal, decode_fund_open, decode_fund_reply,
  decode_fund_sign, decode_fund_final, decode_coop_reveal, read_fund_open, read_fund_reply,
  read_fund_sign, read_fund_final, read_coop_reveal,
}
use babilonia.Messages.Funding.Laws.{
  IsText, IsOutPoint, IsTx, Reads-fund_open, Reads-fund_reply, Reads-fund_sign, Reads-fund_final,
  Reads-coop_reveal,
}

pub data Kind : Type 0 where
  alice_open bob_commit alice_reveal bob_auth : Kind
  fund_open fund_reply fund_final fund_sign coop_reveal : Kind

-- The first byte of each kind's frames.
abbrev pub tag_of : Kind → ℕ
tag_of alice_open = 1
tag_of bob_commit = 2
tag_of alice_reveal = 3
tag_of bob_auth = 4
tag_of fund_open = 5
tag_of fund_reply = 6
tag_of fund_final = 7
tag_of fund_sign = 11
tag_of coop_reveal = 8

tag_of-injective : (j k : Kind) → tag_of j ≡ tag_of k → j ≡ k
tag_of-injective j k e = ground arith

module _ (w : Wire) where
  -- The message type of a kind.
  abbrev pub Message : Kind → Type 0
  Message alice_open = AliceOpen w
  Message bob_commit = BobCommit w
  Message alice_reveal = AliceReveal w
  Message bob_auth = BobAuth w
  Message fund_open = FundOpen w
  Message fund_reply = FundReply w
  Message fund_final = FundFinal
  Message fund_sign = FundSign
  Message coop_reveal = CoopReveal w

  -- The `encode` and the `decode` of each kind.
  unfoldable pub encode_frame : (k : Kind) → Message k → Bytes
  encode_frame alice_open m = encode_alice_open w m
  encode_frame bob_commit m = encode_bob_commit w m
  encode_frame alice_reveal m = encode_alice_reveal w m
  encode_frame bob_auth m = encode_bob_auth w m
  encode_frame fund_open m = encode_fund_open w m
  encode_frame fund_reply m = encode_fund_reply w m
  encode_frame fund_final m = encode_fund_final m
  encode_frame fund_sign m = encode_fund_sign m
  encode_frame coop_reveal m = encode_coop_reveal w m

  unfoldable pub decode_frame : (k : Kind) → Bytes → Result (Message k)
  decode_frame alice_open b = decode_alice_open w b
  decode_frame bob_commit b = decode_bob_commit w b
  decode_frame alice_reveal b = decode_alice_reveal w b
  decode_frame bob_auth b = decode_bob_auth w b
  decode_frame fund_open b = decode_fund_open w b
  decode_frame fund_reply b = decode_fund_reply w b
  decode_frame fund_final b = decode_fund_final b
  decode_frame fund_sign b = decode_fund_sign b
  decode_frame coop_reveal b = decode_coop_reveal w b

  -- The lengths fit their `u32` prefixes, the amounts a `u64`, and the texts are UTF-8.
  abbrev pub IsEncodable : (k : Kind) → Message k → Type 0
  IsEncodable alice_open m = length m.thimble_poks < 2 ^ 32
  IsEncodable bob_commit m = length m.pi_r < 2 ^ 32
  IsEncodable alice_reveal m = length m.pi_a < 2 ^ 32
  IsEncodable bob_auth m = Unit {0}
  IsEncodable fund_open m = IsOutPoint m.input × (m.amount < 2 ^ 64) × IsText m.alice_payout
  IsEncodable fund_reply m =
      IsOutPoint m.input
      × (m.amount < 2 ^ 64)
      × IsText m.change
      × IsText m.bob_payout
      × IsText m.psbt
  IsEncodable fund_final m = IsText m.psbt
  IsEncodable fund_sign m = IsText m.psbt
  IsEncodable coop_reveal m = (length m.settle_sig < 2 ^ 32) × IsTx w m.coop_tx

  reader : (k : Kind) → Parser (Message k)
  reader alice_open = read_alice_open w
  reader bob_commit = read_bob_commit w
  reader alice_reveal = read_alice_reveal w
  reader bob_auth = read_bob_auth w
  reader fund_open = read_fund_open w
  reader fund_reply = read_fund_reply w
  reader fund_final = read_fund_final
  reader fund_sign = read_fund_sign
  reader coop_reveal = read_coop_reveal w

  Reads-frame : (k : Kind) (m : Message k) → IsEncodable k m → Reads (reader k) (encode_frame k m) m
  unfolding reader encode_frame
  Reads-frame alice_open m h = Reads-alice_open w m h
  Reads-frame bob_commit m h = Reads-bob_commit w m h
  Reads-frame alice_reveal m h = Reads-alice_reveal w m h
  Reads-frame bob_auth m h = Reads-bob_auth w m
  Reads-frame fund_open m h = Reads-fund_open w m h.0 h.1 h.2
  Reads-frame fund_reply m h = Reads-fund_reply w m h.0 h.1 h.2 h.3 h.4
  Reads-frame fund_final m h = Reads-fund_final m h
  Reads-frame fund_sign m h = Reads-fund_sign m h
  Reads-frame coop_reveal m h = Reads-coop_reveal w m h.0 h.1

  decode_frame-eq : (k : Kind) (b : Bytes) → decode_frame k b ≡ decode_with (reader k) b
  unfolding decode_frame reader decode_alice_open decode_bob_commit decode_alice_reveal
      decode_bob_auth decode_fund_open decode_fund_reply decode_fund_final decode_fund_sign
      decode_coop_reveal
  decode_frame-eq alice_open b = refl
  decode_frame-eq bob_commit b = refl
  decode_frame-eq alice_reveal b = refl
  decode_frame-eq bob_auth b = refl
  decode_frame-eq fund_open b = refl
  decode_frame-eq fund_reply b = refl
  decode_frame-eq fund_final b = refl
  decode_frame-eq fund_sign b = refl
  decode_frame-eq coop_reveal b = refl

  -- Each message is decoded from its own frame.
  pub decode-encode :
      (k : Kind) (m : Message k)
      → IsEncodable k m
      → length (encode_frame k m) < 2 ^ 64
      → decode_frame k (encode_frame k m) ≡ ok m
  decode-encode k m h fits =
      decode_frame-eq k (encode_frame k m) ∙ decode_with-Reads (Reads-frame k m h) fits

  -- A frame with bytes behind the message is refused.
  pub decode_trailing :
      (k : Kind) (m : Message k) (x : ℕ) (xs : Bytes)
      → IsEncodable k m
      → length (encode_frame k m ++ x ∷ xs) < 2 ^ 64
      → decode_frame k (encode_frame k m ++ x ∷ xs) ≡ err (decode "trailing bytes")
  decode_trailing k m x xs h fits =
      decode_frame-eq k _ ∙ decode_with_trailing (Reads-frame k m h) x xs fits

  head_tag : (k : Kind) (m : Message k) → (bs : Bytes) × (encode_frame k m ≡ tag_of k ∷ bs)
  unfolding encode_frame encode_alice_open encode_bob_commit encode_alice_reveal encode_bob_auth
      encode_fund_open encode_fund_reply encode_fund_final encode_fund_sign encode_coop_reveal
  head_tag alice_open m = (_, refl)
  head_tag bob_commit m = (_, refl)
  head_tag alice_reveal m = (_, refl)
  head_tag bob_auth m = (_, refl)
  head_tag fund_open m = (_, refl)
  head_tag fund_reply m = (_, refl)
  head_tag fund_final m = (_, refl)
  head_tag fund_sign m = (_, refl)
  head_tag coop_reveal m = (_, refl)

  refuses_tag :
      (k : Kind) (u : ℕ) (bs : Bytes)
      → u ≢ tag_of k
      → length (u ∷ bs) < 2 ^ 64
      → decode_with (reader k) (u ∷ bs) ≡ err (decode "unexpected message tag")
  unfolding reader
  refuses_tag alice_open u bs ne h = decode_with_wrong_tag 1 _ u bs ne h
  refuses_tag bob_commit u bs ne h = decode_with_wrong_tag 2 _ u bs ne h
  refuses_tag alice_reveal u bs ne h = decode_with_wrong_tag 3 _ u bs ne h
  refuses_tag bob_auth u bs ne h = decode_with_wrong_tag 4 _ u bs ne h
  refuses_tag fund_open u bs ne h = decode_with_wrong_tag 5 _ u bs ne h
  refuses_tag fund_reply u bs ne h = decode_with_wrong_tag 6 _ u bs ne h
  refuses_tag fund_final u bs ne h = decode_with_wrong_tag 7 _ u bs ne h
  refuses_tag fund_sign u bs ne h = decode_with_wrong_tag 11 _ u bs ne h
  refuses_tag coop_reveal u bs ne h = decode_with_wrong_tag 8 _ u bs ne h

  -- No frame is decoded as a message of another kind.
  pub decode_other_kind :
      (j k : Kind) (m : Message j)
      → j ≢ k
      → length (encode_frame j m) < 2 ^ 64
      → decode_frame k (encode_frame j m) ≡ err (decode "unexpected message tag")
  decode_other_kind j k m ne fits =
      let (bs, e) = head_tag j m in
      decode_frame-eq k (encode_frame j m)
      ∙ rw e (refuses_tag k (tag_of j) bs (λ t. ne (tag_of-injective j k t)) (rw e at fits))
