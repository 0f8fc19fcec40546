-- ===== src/Messages/Setup/Laws.antt =====
-- The bytes of each setup flight are read back by its reader.
use babilonia.Prelude.{◌^◌, ◌<◌, refl, append_assoc, length}
use babilonia.Messages.Reader.Laws.{
  Reads, Reads-bind, Reads-return, Reads-tag, Reads-fixed, Reads-lp,
}
use babilonia.Messages.Wire.{Wire}
use babilonia.Messages.Setup.{
  AliceOpen, BobCommit, AliceReveal, BobAuth, encode_alice_open, read_alice_open, encode_bob_commit,
  read_bob_commit, encode_alice_reveal, read_alice_reveal, encode_bob_auth, read_bob_auth,
}

module _ (w : Wire) where
  pub Reads-alice_open :
      (m : AliceOpen w)
      → length m.thimble_poks < 2 ^ 32
      → Reads (read_alice_open w) (encode_alice_open w m) m
  unfolding encode_alice_open
  Reads-alice_open m h =
      let r : Reads (read_alice_open w) _ m = Reads-bind _ (Reads-tag 1) (
        Reads-bind _ (Reads-fixed w.point _ m.a1) (
          Reads-bind _ (Reads-fixed w.point _ m.a2)
            (Reads-return _ (Reads-lp m.thimble_poks h) refl))) in
      simp append_assoc r

  pub Reads-bob_commit :
      (m : BobCommit w)
      → length m.pi_r < 2 ^ 32
      → Reads (read_bob_commit w) (encode_bob_commit w m) m
  unfolding encode_bob_commit
  Reads-bob_commit m h =
      let r : Reads (read_bob_commit w) _ m = Reads-bind _ (Reads-tag 2) (
        Reads-bind _ (Reads-fixed w.point _ m.k) (
          Reads-bind _ (Reads-lp m.pi_r h) (
            Reads-bind _ (Reads-fixed w.nonce _ m.refund_nonce) (
              Reads-bind _ (Reads-fixed w.nonce _ m.settle_nonce)
                (Reads-return _ (Reads-fixed w.nonce _ m.coop_nonce) refl))))) in
      simp append_assoc (simp append_assoc at r)

  pub Reads-alice_reveal :
      (m : AliceReveal w)
      → length m.pi_a < 2 ^ 32
      → Reads (read_alice_reveal w) (encode_alice_reveal w m) m
  unfolding encode_alice_reveal
  Reads-alice_reveal m h =
      let r : Reads (read_alice_reveal w) _ m = Reads-bind _ (Reads-tag 3) (
        Reads-bind _ (Reads-fixed w.nonce _ m.refund_nonce) (
          Reads-bind _ (Reads-fixed w.nonce _ m.settle_nonce) (
            Reads-bind _ (Reads-fixed w.scalar _ m.ctxt) (
              Reads-bind _ (Reads-fixed w.point _ m.d_point) (
                Reads-bind _ (Reads-lp m.pi_a h) (
                  Reads-bind _ (Reads-fixed w.partial _ m.refund_partial) (
                    Reads-bind _ (Reads-fixed w.partial _ m.settle_partial)
                      (Reads-return _ (Reads-fixed w.nonce _ m.coop_nonce) refl)))))))) in
      simp append_assoc (simp append_assoc at r)

  pub Reads-bob_auth : (m : BobAuth w) → Reads (read_bob_auth w) (encode_bob_auth w m) m
  unfolding encode_bob_auth
  Reads-bob_auth m =
      let r : Reads (read_bob_auth w) _ m = Reads-bind _ (Reads-tag 4) (
        Reads-bind _ (Reads-fixed w.partial _ m.refund_partial)
          (Reads-return _ (Reads-fixed w.partial _ m.settle_partial) refl)) in
      simp append_assoc r
