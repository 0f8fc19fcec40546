-- ===== src/Setup/Drivers.antt =====
-- `run_alice` and `run_bob` of src/setup.rs. The dealer is signer 0 and the player signer 1; each
-- MuSig2 session has a fresh seed. Where `run_alice` panics on a zero `ctxt` it fails here; the test
-- `guess >= 2` of `run_bob` is met by a guess that is a Boolean.
use babilonia.Prelude.{not, protocol, proof_invalid, ok_or}
use babilonia.Bytes.{Bytes}
use babilonia.Action.{pure, lift, raise_if, ◌>>=◌, ◌>>◌}
use babilonia.Messages.Setup.{
  encode_alice_open, encode_bob_commit, encode_alice_reveal, encode_bob_auth, decode_alice_open,
  decode_bob_commit, decode_alice_reveal, decode_bob_auth,
}
use babilonia.Bet.Library.{Library}
use babilonia.Bet.State.{AliceSecrets, BobSecrets, SetupResult, GameParams, pick}
use babilonia.Bet.Env.{Env, M, call, act, sent}
use babilonia.Reveal.{compute_k}
use babilonia.Setup.Graph.{ctx_keys, tx_graph}

module _ (lib : Library) (env : Env lib) where
  unfoldable pub send_frame : Bytes → M lib env (Unit {0})
  send_frame frame = act lib env (sent frame) (env.send frame)

  unfoldable pub run_alice :
      GameParams → AliceSecrets lib → lib.PublicKey → M lib env (SetupResult lib)
  unfolding send_frame
  run_alice params s bob_key = do
    let p_a = lib.to_point s.identity.pk
    let p_b = lib.to_point bob_key
    let a1 = lib.base_mul s.thimble_0
    let a2 = lib.base_mul s.thimble_1
    raise_if (lib.point_eq a1 a2) (protocol "degenerate thimbles: A_1 == A_2")
    pok_seed ← call lib env env.random_seed
    send_frame (
        encode_alice_open lib.wire (record {
          a1 = a1;
          a2 = a2;
          thimble_poks =
              lib.prove_thimble_poks pok_seed s.thimble_0 s.thimble_1
                (lib.wire.point.serialize p_a);
        }))
    frame ← call lib env env.recv
    commit ← lift (decode_bob_commit lib.wire frame)
    let ctx = ctx_keys lib p_a p_b
    raise_if (not (lib.verify_pi_r commit.k a1 a2 ctx commit.pi_r)) (proof_invalid "pi_r")
    u1 ← lift (lib.taproot_key s.identity.pk bob_key)
    let shared = lib.ecdh s.identity.sk bob_key
    graph ← lift (tx_graph lib u1.1 s.identity.pk commit.k params shared)
    refund_seed ← call lib env env.random_seed
    refund_1 ← lift (lib.first_round u1.0 0 s.identity.sk refund_seed)
    settle_seed ← call lib env env.random_seed
    settle_1 ← lift (lib.first_round u1.0 0 s.identity.sk settle_seed)
    coop_seed ← call lib env env.random_seed
    coop_1 ← lift (lib.first_round u1.0 0 s.identity.sk coop_seed)
    let d_point = lib.base_mul s.d
    refund_2 ← lift (lib.sign refund_1.0 1 commit.refund_nonce s.identity.sk graph.refund_sighash)
    settle_2 ← lift (
        lib.sign_adaptor settle_1.0 1 commit.settle_nonce s.identity.sk d_point
          graph.settle_sighash)
    let a_c = pick s.choice s.thimble_0 s.thimble_1
    ctxt ← lift (ok_or (lib.add a_c (lib.pad params.pi_a_scheme s.d)) (protocol "zero ctxt"))
    pi_a_seed ← call lib env env.random_seed
    pi_a ← lift (
        lib.prove_pi_a pi_a_seed params.pi_a_scheme
          (record { ctxt = ctxt; d_point = d_point; thimble_0 = a1; thimble_1 = a2; ctx = ctx })
          (record { t = s.d; choice = s.choice; a_c = a_c }))
    send_frame (
        encode_alice_reveal lib.wire (record {
          refund_nonce = refund_1.1;
          settle_nonce = settle_1.1;
          ctxt = ctxt;
          d_point = d_point;
          pi_a = pi_a;
          refund_partial = refund_2.1;
          settle_partial = settle_2.1;
          coop_nonce = coop_1.1;
        }))
    reply ← call lib env env.recv
    auth ← lift (decode_bob_auth lib.wire reply)
    refund_3 ← lift (lib.receive refund_2.0 1 auth.refund_partial)
    settle_3 ← lift (lib.receive_adaptor settle_2.0 1 auth.settle_partial)
    refund_sig ← lift (lib.finalize_plain refund_3)
    settle_pre ← lift (lib.finalize settle_3)
    pure (record {
      keyagg = u1.0;
      settle_tx = graph.settle_tx;
      settle_sighash = graph.settle_sighash;
      settle_pre = settle_pre;
      refund_tx = graph.refund_tx;
      refund_sighash = graph.refund_sighash;
      refund_sig = refund_sig;
      ctxt = ctxt;
      d_point = d_point;
      k = commit.k;
      thimble_0 = a1;
      thimble_1 = a2;
      p_a = p_a;
      coop_seed = coop_seed;
      coop_peer_nonce = commit.coop_nonce;
    })

  unfoldable pub run_bob : GameParams → BobSecrets lib → lib.PublicKey → M lib env (SetupResult lib)
  unfolding send_frame
  run_bob params s alice_key = do
    let p_a = lib.to_point alice_key
    frame ← call lib env env.recv
    opening ← lift (decode_alice_open lib.wire frame)
    raise_if (lib.point_eq opening.a1 opening.a2) (protocol "degenerate thimbles: A_1 == A_2")
    raise_if
        (not (
          lib.verify_thimble_poks opening.a1 opening.a2 (lib.wire.point.serialize p_a)
            opening.thimble_poks))
        (proof_invalid "thimble PoKs")
    let p_b = lib.to_point s.funding.pk
    let w_b = lib.to_point s.claim.pk
    k ← lift (compute_k lib w_b (pick s.guess opening.a1 opening.a2))
    let ctx = ctx_keys lib p_a p_b
    pi_r_seed ← call lib env env.random_seed
    pi_r ← lift (
        lib.prove_pi_r pi_r_seed (lib.secret_scalar s.claim.sk) s.guess k opening.a1 opening.a2 ctx)
    u1 ← lift (lib.taproot_key alice_key s.funding.pk)
    let shared = lib.ecdh s.funding.sk alice_key
    graph ← lift (tx_graph lib u1.1 alice_key k params shared)
    refund_seed ← call lib env env.random_seed
    refund_1 ← lift (lib.first_round u1.0 1 s.funding.sk refund_seed)
    settle_seed ← call lib env env.random_seed
    settle_1 ← lift (lib.first_round u1.0 1 s.funding.sk settle_seed)
    coop_seed ← call lib env env.random_seed
    coop_1 ← lift (lib.first_round u1.0 1 s.funding.sk coop_seed)
    send_frame (
        encode_bob_commit lib.wire (record {
          k = k;
          pi_r = pi_r;
          refund_nonce = refund_1.1;
          settle_nonce = settle_1.1;
          coop_nonce = coop_1.1;
        }))
    reply ← call lib env env.recv
    reveal ← lift (decode_alice_reveal lib.wire reply)
    valid ← lift (
        lib.verify_pi_a params.pi_a_scheme
          (record {
            ctxt = reveal.ctxt;
            d_point = reveal.d_point;
            thimble_0 = opening.a1;
            thimble_1 = opening.a2;
            ctx = ctx;
          })
          reveal.pi_a)
    raise_if (not valid) (proof_invalid "pi_a")
    refund_2 ← lift (lib.sign refund_1.0 0 reveal.refund_nonce s.funding.sk graph.refund_sighash)
    settle_2 ← lift (
        lib.sign_adaptor settle_1.0 0 reveal.settle_nonce s.funding.sk reveal.d_point
          graph.settle_sighash)
    send_frame (
        encode_bob_auth lib.wire
          (record { refund_partial = refund_2.1; settle_partial = settle_2.1 }))
    refund_3 ← lift (lib.receive refund_2.0 0 reveal.refund_partial)
    settle_3 ← lift (lib.receive_adaptor settle_2.0 0 reveal.settle_partial)
    refund_sig ← lift (lib.finalize_plain refund_3)
    settle_pre ← lift (lib.finalize settle_3)
    pure (record {
      keyagg = u1.0;
      settle_tx = graph.settle_tx;
      settle_sighash = graph.settle_sighash;
      settle_pre = settle_pre;
      refund_tx = graph.refund_tx;
      refund_sighash = graph.refund_sighash;
      refund_sig = refund_sig;
      ctxt = reveal.ctxt;
      d_point = reveal.d_point;
      k = k;
      thimble_0 = opening.a1;
      thimble_1 = opening.a2;
      p_a = p_a;
      coop_seed = coop_seed;
      coop_peer_nonce = reveal.coop_nonce;
    })
