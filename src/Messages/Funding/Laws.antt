-- ===== src/Messages/Funding/Laws.antt =====
-- The bytes of the funding frames and of the overlay's frame are read back by their readers.
use babilonia.Prelude.{◌^◌, ◌<◌, ◌≡◌, refl, true, some, append_assoc, ◌++◌, decode, length}
use babilonia.Bytes.{Bytes, to_le_bytes}
use babilonia.Bytes.Utf8.{is_utf8}
use babilonia.Tx.{OutPoint, Transaction}
use babilonia.Messages.Reader.{accept}
use babilonia.Messages.Reader.Laws.{
  Reads, Reads-bind, Reads-return, Reads-tag, Reads-fixed, Reads-lp, Reads-string, Reads-u64,
  Reads-outpoint,
}
use babilonia.Messages.Wire.{Wire}
use babilonia.Messages.Funding.{
  FundSign, FundFinal, FundOpen, FundReply, CoopReveal, encode_fund_sign, read_fund_sign,
  encode_fund_final, read_fund_final, encode_fund_open, read_fund_open, encode_fund_reply,
  read_fund_reply, encode_coop_reveal, read_coop_reveal, tx,
}

-- A text whose length a `u32` holds.
abbrev pub IsText : Bytes → Type 0
IsText b = (length b < 2 ^ 32) × (is_utf8 b ≡ true)

abbrev pub IsOutPoint : OutPoint → Type 0
IsOutPoint o = (length o.txid ≡ 32) × (o.vout < 2 ^ 32)

pub Reads-fund_sign : (m : FundSign) → IsText m.psbt → Reads read_fund_sign (encode_fund_sign m) m
unfolding encode_fund_sign
Reads-fund_sign m h =
    let r : Reads read_fund_sign _ m =
      Reads-bind _ (Reads-tag 11) (Reads-return _ (Reads-string m.psbt h.0 h.1) refl) in
    simp append_assoc r

pub Reads-fund_final :
    (m : FundFinal) → IsText m.psbt → Reads read_fund_final (encode_fund_final m) m
unfolding encode_fund_final
Reads-fund_final m h =
    let r : Reads read_fund_final _ m =
      Reads-bind _ (Reads-tag 7) (Reads-return _ (Reads-string m.psbt h.0 h.1) refl) in
    simp append_assoc r

module _ (w : Wire) where
  -- A transaction that its own encoding is read back to.
  abbrev pub IsTx : Transaction → Type 0
  IsTx t = (length (w.serialize_tx t) < 2 ^ 32) × (w.deserialize_tx (w.serialize_tx t) ≡ some t)

  Reads-tx :
      (t : Transaction)
      → IsTx t
      → Reads (tx w) (to_le_bytes 4 (length (w.serialize_tx t)) ++ w.serialize_tx t) t
  unfolding tx
  Reads-tx t h =
      Reads-return (λ b. accept (w.deserialize_tx b) (decode "invalid transaction"))
        (Reads-lp (w.serialize_tx t) h.0) (rw h.1)

  pub Reads-fund_open :
      (m : FundOpen w)
      → IsOutPoint m.input
      → m.amount < 2 ^ 64
      → IsText m.alice_payout
      → Reads (read_fund_open w) (encode_fund_open w m) m
  unfolding encode_fund_open
  Reads-fund_open m o a p =
      let r : Reads (read_fund_open w) _ m = Reads-bind _ (Reads-tag 5) (
        Reads-bind _ (Reads-fixed w.point _ m.p_a) (
          Reads-bind _ (Reads-outpoint m.input o.0 o.1) (
            Reads-bind _ (Reads-u64 m.amount a)
              (Reads-return _ (Reads-string m.alice_payout p.0 p.1) refl)))) in
      simp append_assoc (simp append_assoc at r)

  pub Reads-fund_reply :
      (m : FundReply w)
      → IsOutPoint m.input
      → m.amount < 2 ^ 64
      → IsText m.change
      → IsText m.bob_payout
      → IsText m.psbt
      → Reads (read_fund_reply w) (encode_fund_reply w m) m
  unfolding encode_fund_reply
  Reads-fund_reply m o a c p t =
      let r : Reads (read_fund_reply w) _ m = Reads-bind _ (Reads-tag 6) (
        Reads-bind _ (Reads-fixed w.point _ m.p_b) (
          Reads-bind _ (Reads-outpoint m.input o.0 o.1) (
            Reads-bind _ (Reads-u64 m.amount a) (
              Reads-bind _ (Reads-string m.change c.0 c.1) (
                Reads-bind _ (Reads-string m.bob_payout p.0 p.1)
                  (Reads-return _ (Reads-string m.psbt t.0 t.1) refl)))))) in
      simp append_assoc (simp append_assoc at r)

  pub Reads-coop_reveal :
      (m : CoopReveal w)
      → length m.settle_sig < 2 ^ 32
      → IsTx m.coop_tx
      → Reads (read_coop_reveal w) (encode_coop_reveal w m) m
  unfolding encode_coop_reveal
  Reads-coop_reveal m s t =
      let r : Reads (read_coop_reveal w) _ m = Reads-bind _ (Reads-tag 8) (
        Reads-bind _ (Reads-lp m.settle_sig s) (
          Reads-bind _ (Reads-tx m.coop_tx t)
            (Reads-return _ (Reads-fixed w.partial _ m.alice_partial) refl))) in
      simp append_assoc (simp append_assoc at r)
