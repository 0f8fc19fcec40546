-- ===== src/Bet/Sample.antt =====
-- A library and an environment for the examples. The scalars and the points are those of the group
-- of three elements, without its neutral element; a wallet, a chain and a peer that play along.
use babilonia.Prelude.{
  ℕ, Bool, true, false, not, Option, none, some, List, [], ◌∷◌, Result, ok, err, protocol,
}
use babilonia.Bytes.{Bytes}
use babilonia.Tx.{OutPoint, TxOut, Transaction, final_sequence}
use babilonia.Action.{Action}
use babilonia.Messages.Sample.{sample_wire, zeros}
use babilonia.Messages.Setup.{
  encode_alice_open, encode_bob_commit, encode_alice_reveal, encode_bob_auth,
}
use babilonia.Messages.Funding.{
  encode_fund_open, encode_fund_reply, encode_fund_sign, encode_fund_final,
}
use babilonia.Bet.Library.{Library, squaring}
use babilonia.Bet.State.{GameParams, AliceSecrets, BobSecrets}
use babilonia.Bet.Env.{Env}

-- 1 + 1 = 2 and 2 + 2 = 1; `false` is 1.
abbrev pub add_three : Bool → Bool → Option Bool
add_three false false = some true
add_three true true = some false
add_three false true = none
add_three true false = none

abbrev same_bool : Bool → Bool → Bool
same_bool true b = b
same_bool false b = not b

abbrev pub output : ℕ → Bytes → TxOut
output value spk = record { value = value; script_pubkey = spk }

abbrev pub dealer_coin : OutPoint
dealer_coin = record { txid = zeros 32; vout = 0 }

abbrev pub player_coin : OutPoint
player_coin = record { txid = zeros 32; vout = 1 }

abbrev pub funding : Transaction
funding = record {
  version = 2;
  lock_time = 0;
  input =
      record {
        previous_output = player_coin;
        script_sig = [];
        sequence = final_sequence;
        witness = [];
      }
      ∷ record {
        previous_output = dealer_coin;
        script_sig = [];
        sequence = final_sequence;
        witness = [];
      }
      ∷ [];
  output = output 1000 (99 ∷ []) ∷ output 6990 (1 ∷ []) ∷ [];
}

abbrev pub sample_library : Library
sample_library = record {
  wire = sample_wire;
  SecretKey = Bool;
  PublicKey = Bool;
  KeyAgg = Unit {0};
  AdaptorSignature = Bool;
  LiftedSignature = Bool;
  SpendInfo = Unit {0};
  to_point = λ k. k;
  of_point = λ p. p;
  secret_scalar = λ k. k;
  point_eq = same_bool;
  base_mul = λ s. s;
  add = add_three;
  add_points = add_three;
  neg = not;
  pad = λ scheme d. d;
  sha256 = λ b. zeros 32;
  compute_txid = λ tx. zeros 32;
  unsigned_tx = λ psbt. some funding;
  taproot_key = λ a b. ok (tt, 1 ∷ []);
  address_of_script = λ spk n. some spk;
  script_of_address = λ a n. ok a;
  script_pubkey = λ a. a;
  claim_output = λ k p t. ok (2 ∷ [], tt);
  key_spend_sighash = λ tx i prevouts. ok (zeros 32);
  leaf_spend_sighash = λ tx i prevouts info. ok (zeros 32);
  sign_leaf = λ sk h. ok (zeros 64);
  sign_key_path = λ sk info h. ok (zeros 64);
  leaf_script = λ info. 3 ∷ [];
  control_block = λ info. ok (4 ∷ []);
  adapt = λ pre d. some pre;
  extract = λ pre sig. some sig;
  signature_bytes = λ sig. zeros 64;
  parse_signature = λ b. ok false;
  Round1 = Unit {0};
  Round2 = Unit {0};
  AdaptorRound2 = Unit {0};
  first_round = λ agg i sk seed. ok (tt, false);
  sign = λ r i n sk m. ok (tt, false);
  sign_adaptor = λ r i n sk d m. ok (tt, false);
  receive = λ r i s. ok r;
  receive_adaptor = λ r i s. ok r;
  finalize_plain = λ r. ok false;
  finalize = λ r. ok false;
  prove_thimble_poks = λ seed a b ctx. 5 ∷ [];
  verify_thimble_poks = λ a b ctx proof. true;
  prove_pi_r = λ seed w g k a b ctx. ok (6 ∷ []);
  verify_pi_r = λ k a b ctx proof. true;
  prove_pi_a = λ seed scheme st w. ok (7 ∷ []);
  verify_pi_a = λ scheme st proof. ok true;
  ecdh = λ sk pk. zeros 32;
  payout_spk = λ a. ok a;
  lock_height = λ h. some h;
}

-- The frames that are still to come.
abbrev frames_next : List Bytes → Result Bytes × List Bytes
frames_next [] = (err (protocol "no frame"), [])
frames_next (f ∷ fs) = (ok f, fs)

abbrev answer : {A : Type 0} → A → Action (List Bytes) A
answer a w = (ok a, w)

abbrev pub sample_env : Env sample_library
sample_env = record {
  World = List Bytes;
  select_input = λ need. answer (dealer_coin, 5000);
  receive_address = answer (97 ∷ []);
  change_address = answer (98 ∷ []);
  create_psbt = λ ins outs. answer (112 ∷ []);
  sign_psbt = λ psbt. answer psbt;
  combine_finalize = λ psbts. answer funding;
  block_height = answer 800;
  broadcast_tx = λ tx. answer (zeros 32);
  confirmations = λ txid. answer (some 200);
  get_transaction = λ txid. answer none;
  utxo_unspent = λ o. answer true;
  send = λ frame. answer tt;
  recv = frames_next;
  try_recv = answer none;
  random_seed = answer (zeros 32);
  rounds = λ seconds w. 0;
  write_refund = λ dir o tx. answer tt;
  save_record = λ dir rec. answer tt;
}

abbrev pub sample_params : GameParams
sample_params = record {
  u1_outpoint = dealer_coin;
  u1_value = 6990;
  alice_stake = 1000;
  bob_stake = 2000;
  fee = 10;
  refund_locktime = 900;
  alice_timeout = 6;
  pi_a_scheme = squaring;
  alice_payout = 97 ∷ [];
  bob_payout = 98 ∷ [];
}

abbrev pub sample_dealer : AliceSecrets sample_library
sample_dealer = record {
  identity = record { sk = false; pk = false };
  thimble_0 = false;
  thimble_1 = true;
  choice = false;
  d = false;
}

abbrev pub sample_player : BobSecrets sample_library
sample_player = record {
  funding = record { sk = true; pk = true };
  claim = record { sk = false; pk = false };
  guess = false;
}

-- What the player sends to the dealer, in order.
unfoldable pub player_frames : List Bytes
player_frames =
    encode_fund_reply sample_wire (record {
      p_b = true;
      input = player_coin;
      amount = 3000;
      change = 99 ∷ [];
      bob_payout = 98 ∷ [];
      psbt = 112 ∷ [];
    })
    ∷ encode_bob_commit sample_wire (record {
      k = true;
      pi_r = 6 ∷ [];
      refund_nonce = false;
      settle_nonce = false;
      coop_nonce = false;
    })
    ∷ encode_bob_auth sample_wire (record { refund_partial = false; settle_partial = false })
    ∷ encode_fund_sign (record { psbt = 112 ∷ [] })
    ∷ []

-- What the dealer sends to the player, in order.
unfoldable pub dealer_frames : List Bytes
dealer_frames =
    encode_fund_open sample_wire
      (record { p_a = false; input = dealer_coin; amount = 5000; alice_payout = 97 ∷ [] })
    ∷ encode_alice_open sample_wire (record { a1 = false; a2 = true; thimble_poks = 5 ∷ [] })
    ∷ encode_alice_reveal sample_wire (record {
      refund_nonce = false;
      settle_nonce = false;
      ctxt = true;
      d_point = false;
      pi_a = 7 ∷ [];
      refund_partial = false;
      settle_partial = false;
      coop_nonce = false;
    })
    ∷ encode_fund_final (record { psbt = 112 ∷ [] })
    ∷ []
