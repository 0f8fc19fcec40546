-- ===== src/Messages/Setup.antt =====
-- The four flights of the setup driver: `AliceOpen`, `BobCommit`, `AliceReveal` and `BobAuth` of
-- src/messages.rs.
pub mod Laws
use babilonia.Prelude.{ℕ, [], ◌∷◌, Result, decode}
use babilonia.Bytes.{Bytes}
use babilonia.Messages.Reader.{Parser, pure, ◌>>=◌, ◌>>◌, tag, fixed, lp, decode_with}
use babilonia.Messages.Wire.{Wire, put_fixed, put_lp, ◌▹◌}

abbrev pub tag_alice_open : ℕ
tag_alice_open = 1

abbrev pub tag_bob_commit : ℕ
tag_bob_commit = 2

abbrev pub tag_alice_reveal : ℕ
tag_alice_reveal = 3

abbrev pub tag_bob_auth : ℕ
tag_bob_auth = 4

module _ (w : Wire) where
  open w use {Point, Scalar, PartialSignature, PubNonce}

  pub record AliceOpen : Type 0 where
    pub a1 : Point
    pub a2 : Point
    pub thimble_poks : Bytes

  pub record BobCommit : Type 0 where
    pub k : Point
    pub pi_r : Bytes
    pub refund_nonce : PubNonce
    pub settle_nonce : PubNonce
    pub coop_nonce : PubNonce

  pub record AliceReveal : Type 0 where
    pub refund_nonce : PubNonce
    pub settle_nonce : PubNonce
    pub ctxt : Scalar
    pub d_point : Point
    pub pi_a : Bytes
    pub refund_partial : PartialSignature
    pub settle_partial : PartialSignature
    pub coop_nonce : PubNonce

  pub record BobAuth : Type 0 where
    pub refund_partial : PartialSignature
    pub settle_partial : PartialSignature

  -- `Reader::point`, `scalar`, `partial` and `nonce`.
  abbrev pub point : Parser Point
  point = fixed w.point (decode "invalid point")

  abbrev pub scalar : Parser Scalar
  scalar = fixed w.scalar (decode "invalid scalar")

  abbrev pub partial : Parser PartialSignature
  partial = fixed w.partial (decode "invalid partial")

  abbrev pub nonce : Parser PubNonce
  nonce = fixed w.nonce (decode "invalid pubnonce")

  unfoldable pub encode_alice_open : AliceOpen → Bytes
  unfolding put_fixed put_lp
  encode_alice_open m =
      (tag_alice_open ∷ [])
      ▹ put_fixed w.point m.a1
      ▹ put_fixed w.point m.a2
      ▹ put_lp m.thimble_poks

  abbrev pub read_alice_open : Parser AliceOpen
  read_alice_open = do
    tag tag_alice_open
    a1 ← point
    a2 ← point
    poks ← lp
    pure (record { a1 = a1; a2 = a2; thimble_poks = poks })

  unfoldable pub decode_alice_open : Bytes → Result AliceOpen
  unfolding decode_with
  decode_alice_open buf = decode_with read_alice_open buf

  unfoldable pub encode_bob_commit : BobCommit → Bytes
  unfolding put_fixed put_lp
  encode_bob_commit m =
      (tag_bob_commit ∷ [])
      ▹ put_fixed w.point m.k
      ▹ put_lp m.pi_r
      ▹ put_fixed w.nonce m.refund_nonce
      ▹ put_fixed w.nonce m.settle_nonce
      ▹ put_fixed w.nonce m.coop_nonce

  abbrev pub read_bob_commit : Parser BobCommit
  read_bob_commit = do
    tag tag_bob_commit
    k ← point
    pi_r ← lp
    refund_nonce ← nonce
    settle_nonce ← nonce
    coop_nonce ← nonce
    pure (record {
      k = k;
      pi_r = pi_r;
      refund_nonce = refund_nonce;
      settle_nonce = settle_nonce;
      coop_nonce = coop_nonce;
    })

  unfoldable pub decode_bob_commit : Bytes → Result BobCommit
  unfolding decode_with
  decode_bob_commit buf = decode_with read_bob_commit buf

  unfoldable pub encode_alice_reveal : AliceReveal → Bytes
  unfolding put_fixed put_lp
  encode_alice_reveal m =
      (tag_alice_reveal ∷ [])
      ▹ put_fixed w.nonce m.refund_nonce
      ▹ put_fixed w.nonce m.settle_nonce
      ▹ put_fixed w.scalar m.ctxt
      ▹ put_fixed w.point m.d_point
      ▹ put_lp m.pi_a
      ▹ put_fixed w.partial m.refund_partial
      ▹ put_fixed w.partial m.settle_partial
      ▹ put_fixed w.nonce m.coop_nonce

  abbrev pub read_alice_reveal : Parser AliceReveal
  read_alice_reveal = do
    tag tag_alice_reveal
    refund_nonce ← nonce
    settle_nonce ← nonce
    ctxt ← scalar
    d_point ← point
    pi_a ← lp
    refund_partial ← partial
    settle_partial ← partial
    coop_nonce ← nonce
    pure (record {
      refund_nonce = refund_nonce;
      settle_nonce = settle_nonce;
      ctxt = ctxt;
      d_point = d_point;
      pi_a = pi_a;
      refund_partial = refund_partial;
      settle_partial = settle_partial;
      coop_nonce = coop_nonce;
    })

  unfoldable pub decode_alice_reveal : Bytes → Result AliceReveal
  unfolding decode_with
  decode_alice_reveal buf = decode_with read_alice_reveal buf

  unfoldable pub encode_bob_auth : BobAuth → Bytes
  unfolding put_fixed
  encode_bob_auth m =
      (tag_bob_auth ∷ [])
      ▹ put_fixed w.partial m.refund_partial
      ▹ put_fixed w.partial m.settle_partial

  abbrev pub read_bob_auth : Parser BobAuth
  read_bob_auth = do
    tag tag_bob_auth
    refund_partial ← partial
    settle_partial ← partial
    pure (record { refund_partial = refund_partial; settle_partial = settle_partial })

  unfoldable pub decode_bob_auth : Bytes → Result BobAuth
  unfolding decode_with
  decode_bob_auth buf = decode_with read_bob_auth buf
