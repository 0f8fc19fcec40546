-- ===== src/Bet/Funding.antt =====
-- The funding of a bet: `fund_pot` and `broadcast_funding` of src/bet.rs. The player builds the
-- transaction and the dealer verifies it; it is signed only in `broadcast_funding`.
use mathlib.Core.Bool.{decide}
use babilonia.Prelude.{ℕ, ◌+◌, not, some, [], ◌∷◌, decode, protocol, ok_or}
use babilonia.Bytes.{Bytes}
use babilonia.Tx.{OutPoint, Transaction}
use babilonia.Tx.Shuffle.{shuffle_seeded}
use babilonia.Tx.Order.{bytes-discrete, transaction-discrete}
use babilonia.Action.{pure, lift, raise_if, ignore, ◌>>=◌, ◌>>◌}
use babilonia.Messages.Funding.{
  encode_fund_open, encode_fund_reply, encode_fund_sign, encode_fund_final, decode_fund_open,
  decode_fund_reply, decode_fund_sign, decode_fund_final,
}
use babilonia.Bet.Library.{Library}
use babilonia.Bet.State.{
  BetRole, AliceSecrets, BobSecrets, Bet, dealer, player, funded, funding_broadcast,
}
use babilonia.Bet.Env.{Env, M, call, act, ask, update, sent, signed, broadcast}
use babilonia.Bet.Amounts.{times_fee, funding_amounts, check_park}
use babilonia.Bet.Agreement.{u1_taproot, verify_funding_psbt, locate_u1}
use babilonia.Bet.Persist.{persist, wait_confirmed}

module _ (lib : Library) (env : Env lib) where
  -- Inputs and outputs are shuffled by fresh seeds.
  unfoldable pub build_funding_psbt : OutPoint × OutPoint → Bytes × ℕ → Bytes × ℕ → M lib env Bytes
  build_funding_psbt inputs u1 bob_change = do
    in_seed ← call lib env env.random_seed
    let ins = shuffle_seeded lib.sha256 (inputs.0 ∷ inputs.1 ∷ []) in_seed
    out_seed ← call lib env env.random_seed
    let outs = shuffle_seeded lib.sha256 (u1 ∷ bob_change ∷ []) out_seed
    call lib env (env.create_psbt ins outs)

  abbrev payouts : Bytes → Bytes → Bet lib → Bet lib
  payouts alice bob b = record b {
    params = record b.params { alice_payout = alice; bob_payout = bob };
  }

  abbrev with_peer : lib.PublicKey → Bet lib → Bet lib
  with_peer key b = record b { peer_key = some key }

  -- The dealer's side: the script of `U1` and the unsigned PSBT.
  unfoldable pub fund_dealer : AliceSecrets lib → M lib env (Bytes × Bytes)
  fund_dealer s = do
    p ← ask lib env (λ b. b.params)
    network ← ask lib env (λ b. b.network)
    mine ← call lib env (env.select_input (p.alice_stake + times_fee 6 p.fee))
    alice_payout ← call lib env env.receive_address
    let open_frame = encode_fund_open lib.wire (record {
      p_a = lib.to_point s.identity.pk;
      input = mine.0;
      amount = mine.1;
      alice_payout = alice_payout;
    })
    act lib env (sent open_frame) (env.send open_frame)
    frame ← call lib env env.recv
    reply ← lift (decode_fund_reply lib.wire frame)
    let p_b = lib.of_point reply.p_b
    update lib env (with_peer p_b)
    u1 ← lift (u1_taproot lib network s.identity.pk p_b)
    amounts ← lift (funding_amounts mine.1 reply.amount p.bob_stake p.fee)
    lift (check_park amounts.0 p.alice_stake p.bob_stake p.fee)
    lift (
        verify_funding_psbt lib network reply.psbt (mine.0, reply.input) u1.0 amounts.0
          (reply.change, amounts.1))
    update lib env (payouts alice_payout reply.bob_payout)
    pure (u1.0, reply.psbt)

  -- The player's side.
  unfoldable pub fund_player : BobSecrets lib → M lib env (Bytes × Bytes)
  unfolding build_funding_psbt
  fund_player s = do
    p ← ask lib env (λ b. b.params)
    network ← ask lib env (λ b. b.network)
    frame ← call lib env env.recv
    opening ← lift (decode_fund_open lib.wire frame)
    let p_a = lib.of_point opening.p_a
    update lib env (with_peer p_a)
    u1 ← lift (u1_taproot lib network p_a s.funding.pk)
    mine ← call lib env (env.select_input (p.bob_stake + p.fee))
    change ← call lib env env.change_address
    bob_payout ← call lib env env.receive_address
    amounts ← lift (funding_amounts opening.amount mine.1 p.bob_stake p.fee)
    lift (check_park amounts.0 p.alice_stake p.bob_stake p.fee)
    psbt ← build_funding_psbt (opening.input, mine.0) (u1.1, amounts.0) (change, amounts.1)
    let reply_frame = encode_fund_reply lib.wire (record {
      p_b = lib.to_point s.funding.pk;
      input = mine.0;
      amount = mine.1;
      change = change;
      bob_payout = bob_payout;
      psbt = psbt;
    })
    act lib env (sent reply_frame) (env.send reply_frame)
    update lib env (payouts opening.alice_payout bob_payout)
    pure (u1.0, psbt)

  unfoldable pub fund_side : BetRole lib → M lib env (Bytes × Bytes)
  unfolding fund_dealer fund_player
  fund_side (dealer s) = fund_dealer s
  fund_side (player s) = fund_player s

  abbrev pub with_pot : OutPoint × ℕ → Bytes → Bet lib → Bet lib
  with_pot pot psbt b = record b {
    params = record b.params { u1_outpoint = pot.0; u1_value = pot.1 };
    funding_psbt = some psbt;
  }

  unfoldable pub fund_pot : M lib env (Unit {0})
  unfolding fund_side
  fund_pot = do
    role ← ask lib env (λ b. b.role)
    agreed ← fund_side role
    tx ← lift (ok_or (lib.unsigned_tx agreed.1) (decode "funding psbt"))
    pot ← lift (locate_u1 lib tx agreed.0)
    update lib env (with_pot pot agreed.1)
    persist lib env funded

  -- The exchange of the signatures: the player signs first.
  unfoldable pub sign_funding : BetRole lib → Bytes → M lib env Transaction
  sign_funding (player s) unsigned = do
    mine ← act lib env (signed unsigned) (env.sign_psbt unsigned)
    let frame = encode_fund_sign (record { psbt = mine })
    act lib env (sent frame) (env.send frame)
    reply ← call lib env env.recv
    final ← lift (decode_fund_final reply)
    call lib env (env.combine_finalize (final.psbt ∷ []))
  sign_funding (dealer s) unsigned = do
    frame ← call lib env env.recv
    sign ← lift (decode_fund_sign frame)
    agreed ← lift (ok_or (lib.unsigned_tx unsigned) (decode "funding psbt"))
    got ← lift (ok_or (lib.unsigned_tx sign.psbt) (decode "funding psbt"))
    raise_if (not (decide (transaction-discrete got agreed)))
        (protocol "funding tx changed between agreement and signing")
    both ← act lib env (signed sign.psbt) (env.sign_psbt sign.psbt)
    let reply = encode_fund_final (record { psbt = both })
    act lib env (sent reply) (env.send reply)
    call lib env (env.combine_finalize (both ∷ []))

  abbrev with_funding : Transaction → Bet lib → Bet lib
  with_funding tx b = record b { funding_tx = some tx }

  unfoldable pub broadcast_funding : M lib env (Unit {0})
  unfolding sign_funding
  broadcast_funding = do
    psbt ← ask lib env (λ b. b.funding_psbt)
    unsigned ← lift (ok_or psbt (protocol "no funding psbt to sign"))
    role ← ask lib env (λ b. b.role)
    tx ← sign_funding role unsigned
    p ← ask lib env (λ b. b.params)
    raise_if (not (decide (bytes-discrete (lib.compute_txid tx) p.u1_outpoint.txid)))
        (protocol "funding txid changed after signing — pre-signed refund would be invalid")
    update lib env (with_funding tx)
    ignore (act lib env (broadcast tx) (env.broadcast_tx tx))
    wait_confirmed lib env (lib.compute_txid tx) 1
    persist lib env funding_broadcast
