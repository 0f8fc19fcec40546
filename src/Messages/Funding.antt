-- ===== src/Messages/Funding.antt =====
-- The funding frames `FundOpen`, `FundReply`, `FundSign` and `FundFinal` of src/messages.rs, and
-- `CoopReveal`, the frame of the cooperative overlay. Addresses and PSBTs are texts.
pub mod Laws
use babilonia.Prelude.{ℕ, [], ◌∷◌, Result, decode}
use babilonia.Bytes.{Bytes}
use babilonia.Tx.{OutPoint, Transaction}
use babilonia.Messages.Reader.{
  Parser, pure, ◌>>=◌, ◌>>◌, accept, tag, fixed, lp, string, u64, outpoint, decode_with,
}
use babilonia.Messages.Wire.{Wire, put_fixed, put_lp, put_u64, put_outpoint, ◌▹◌}

abbrev pub tag_fund_open : ℕ
tag_fund_open = 5

abbrev pub tag_fund_reply : ℕ
tag_fund_reply = 6

abbrev pub tag_fund_final : ℕ
tag_fund_final = 7

abbrev pub tag_coop_reveal : ℕ
tag_coop_reveal = 8

abbrev pub tag_fund_sign : ℕ
tag_fund_sign = 11

pub record FundSign : Type 0 where
  pub psbt : Bytes

pub record FundFinal : Type 0 where
  pub psbt : Bytes

unfoldable pub encode_fund_sign : FundSign → Bytes
unfolding put_lp
encode_fund_sign m = (tag_fund_sign ∷ []) ▹ put_lp m.psbt

abbrev pub read_fund_sign : Parser FundSign
read_fund_sign = do tag tag_fund_sign; psbt ← string; pure (record { psbt = psbt })

unfoldable pub decode_fund_sign : Bytes → Result FundSign
unfolding decode_with
decode_fund_sign buf = decode_with read_fund_sign buf

unfoldable pub encode_fund_final : FundFinal → Bytes
unfolding put_lp
encode_fund_final m = (tag_fund_final ∷ []) ▹ put_lp m.psbt

abbrev pub read_fund_final : Parser FundFinal
read_fund_final = do tag tag_fund_final; psbt ← string; pure (record { psbt = psbt })

unfoldable pub decode_fund_final : Bytes → Result FundFinal
unfolding decode_with
decode_fund_final buf = decode_with read_fund_final buf

module _ (w : Wire) where
  open w use {Point, PartialSignature}

  pub record FundOpen : Type 0 where
    pub p_a : Point
    pub input : OutPoint
    pub amount : ℕ
    pub alice_payout : Bytes

  pub record FundReply : Type 0 where
    pub p_b : Point
    pub input : OutPoint
    pub amount : ℕ
    pub change : Bytes
    pub bob_payout : Bytes
    pub psbt : Bytes

  pub record CoopReveal : Type 0 where
    pub settle_sig : Bytes
    pub coop_tx : Transaction
    pub alice_partial : PartialSignature

  -- `Reader::tx`.
  pub tx : Parser Transaction
  tx = do b ← lp; accept (w.deserialize_tx b) (decode "invalid transaction")

  unfoldable pub encode_fund_open : FundOpen → Bytes
  unfolding put_fixed put_outpoint put_u64 put_lp
  encode_fund_open m =
      (tag_fund_open ∷ [])
      ▹ put_fixed w.point m.p_a
      ▹ put_outpoint m.input
      ▹ put_u64 m.amount
      ▹ put_lp m.alice_payout

  abbrev pub read_fund_open : Parser FundOpen
  read_fund_open = do
    tag tag_fund_open
    p_a ← fixed w.point (decode "invalid point")
    input ← outpoint
    amount ← u64
    alice_payout ← string
    pure (record { p_a = p_a; input = input; amount = amount; alice_payout = alice_payout })

  unfoldable pub decode_fund_open : Bytes → Result FundOpen
  unfolding decode_with
  decode_fund_open buf = decode_with read_fund_open buf

  unfoldable pub encode_fund_reply : FundReply → Bytes
  unfolding put_fixed put_outpoint put_u64 put_lp
  encode_fund_reply m =
      (tag_fund_reply ∷ [])
      ▹ put_fixed w.point m.p_b
      ▹ put_outpoint m.input
      ▹ put_u64 m.amount
      ▹ put_lp m.change
      ▹ put_lp m.bob_payout
      ▹ put_lp m.psbt

  abbrev pub read_fund_reply : Parser FundReply
  read_fund_reply = do
    tag tag_fund_reply
    p_b ← fixed w.point (decode "invalid point")
    input ← outpoint
    amount ← u64
    change ← string
    bob_payout ← string
    psbt ← string
    pure (record {
      p_b = p_b;
      input = input;
      amount = amount;
      change = change;
      bob_payout = bob_payout;
      psbt = psbt;
    })

  unfoldable pub decode_fund_reply : Bytes → Result FundReply
  unfolding decode_with
  decode_fund_reply buf = decode_with read_fund_reply buf

  unfoldable pub encode_coop_reveal : CoopReveal → Bytes
  unfolding put_fixed put_lp
  encode_coop_reveal m =
      (tag_coop_reveal ∷ [])
      ▹ put_lp m.settle_sig
      ▹ put_lp (w.serialize_tx m.coop_tx)
      ▹ put_fixed w.partial m.alice_partial

  abbrev pub read_coop_reveal : Parser CoopReveal
  read_coop_reveal = do
    tag tag_coop_reveal
    settle_sig ← lp
    coop_tx ← tx
    alice_partial ← fixed w.partial (decode "invalid partial")
    pure (record { settle_sig = settle_sig; coop_tx = coop_tx; alice_partial = alice_partial })

  unfoldable pub decode_coop_reveal : Bytes → Result CoopReveal
  unfolding decode_with tx
  decode_coop_reveal buf = decode_with read_coop_reveal buf
