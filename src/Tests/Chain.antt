-- ===== src/Tests/Chain.antt =====
-- The transactions of the setup and the recovery at concrete inputs.
use mathlib.Core.List.{Perm}
use babilonia.Prelude.{
  get_elem?, ◌≡◌, ◌+◌, refl, true, false, none, some, List, [], ◌∷◌, ok, err, protocol,
  if◌then◌else◌,
}
use mathlib.Core.Bool.{decide}
use native.Mathlib.Decide.{ℕ_discrete}
use babilonia.Bytes.{Bytes, from_le_bytes}
use babilonia.Tx.Order.{bytes-discrete}
use babilonia.Tx.Shuffle.{shuffle_seeded}
use babilonia.Tx.{build_settlement, build_refund}
use babilonia.Action.{pure, ◌>>=◌, ◌>>◌}
use babilonia.Messages.Sample.{zeros}
use babilonia.Bet.Agreement.{spent}
use babilonia.Bet.Amounts.{settlement_rest}
use babilonia.Bet.Agreement.{locate_u1}
use babilonia.Bet.Locate.{locate_u1_lem}
use babilonia.Bet.Claim.{find_o_k}
use babilonia.Bet.Persist.{set_witness}
use babilonia.Bet.State.{BetRecord, SetupData, dealer, player, funding_broadcast}
use babilonia.Bet.Sample.{
  sample_library, sample_env, sample_params, sample_dealer, sample_player, dealer_coin, output,
  funding,
}
use babilonia.Setup.Graph.{Graph, tx_graph, tx_out}
use babilonia.Setup.Value.{tx_graph_pays}
use babilonia.Recover
use babilonia.Recover.{
  Desk, publish, refunded, recover, assess, broadcast_refund, settlement_due, o_k_outpoint,
}
use babilonia.Recover.Laws.{Sight, due, assess-broadcast_refund, assess-recover}

abbrev built : Graph
built = record {
  settle_tx = record {
    version = 2;
    lock_time = 0;
    input =
        record {
          previous_output = dealer_coin;
          script_sig = [];
          sequence = 0xffff_fffd;
          witness = [];
        }
        ∷ [];
    output = output 3980 (97 ∷ []) ∷ output 3000 (2 ∷ []) ∷ [];
  };
  settle_sighash = zeros 32;
  refund_tx = record {
    version = 2;
    lock_time = 900;
    input =
        record {
          previous_output = dealer_coin;
          script_sig = [];
          sequence = 0xffff_fffe;
          witness = [];
        }
        ∷ [];
    output = output 2000 (98 ∷ []) ∷ output 4980 (97 ∷ []) ∷ [];
  };
  refund_sighash = zeros 32;
}

abbrev setup : SetupData sample_library
setup = record {
  settle_tx = built.settle_tx;
  settle_pre = false;
  refund_tx = built.refund_tx;
  refund_sig = false;
  ctxt = true;
  d_point = false;
  k = true;
  thimble_0 = false;
  thimble_1 = true;
  p_a = false;
  reclaim_tx = none;
}

abbrev saved : BetRecord sample_library
saved = record {
  id = [];
  phase = funding_broadcast;
  role = dealer sample_dealer;
  params = sample_params;
  funding_tx = none;
  setup = some setup;
  recovered_a_c = none;
}

abbrev desk : Desk sample_library (List Bytes)
desk = record { world = []; log = [] }

built_so : tx_graph sample_library (1 ∷ []) false true sample_params (zeros 32) ≡ ok built
unfolding tx_graph settlement_rest build_settlement build_refund shuffle_seeded from_le_bytes
built_so = refl

located_so :
    locate_u1 sample_library funding (1 ∷ []) ≡ ok (record { txid = zeros 32; vout = 1 }, 6990)
unfolding locate_u1 decide bytes-discrete ℕ_discrete
located_so = refl

tx_graph_pays_example :
    Perm built.settle_tx.output (tx_out 3000 (2 ∷ []) ∷ tx_out 3980 (97 ∷ []) ∷ [])
    × Perm built.refund_tx.output (tx_out 4980 (97 ∷ []) ∷ tx_out 2000 (98 ∷ []) ∷ [])
    × (spent built.settle_tx.input ≡ dealer_coin ∷ [])
    × (spent built.refund_tx.input ≡ dealer_coin ∷ [])
    × (3980 + (1000 + 2000) + 10 ≡ 6990)
    × (4980 + 2000 + 10 ≡ 6990)
    × (some 900 ≡ some built.refund_tx.lock_time)
tx_graph_pays_example =
    tx_graph_pays sample_library sample_params (2 ∷ [], tt) (97 ∷ []) (98 ∷ []) (1 ∷ []) false true
      (zeros 32) built refl refl refl built_so

seen : Sight sample_library sample_env saved setup []
unfolding o_k_outpoint find_o_k decide bytes-discrete ℕ_discrete
seen = record {
  u1_live = true;
  height = 800;
  settlement = none;
  o_k = record { txid = zeros 32; vout = 1 };
  o_k_live = true;
  confs = some 200;
  sees_u1 = refl;
  sees_height = refl;
  sees_settlement = refl;
  finds_o_k = refl;
  sees_o_k = refl;
  sees_confs = refl;
}

assess-recover_example :
    recover sample_library sample_env saved desk
    ≡ due sample_library sample_env saved setup settlement_due desk
unfolding assess ◌>>=◌ Recover.look
assess-recover_example =
    assess-recover sample_library sample_env saved setup desk seen settlement_due refl refl

-- A player's record, at height 800 with a locktime of 900.
abbrev his : BetRecord sample_library
his = record saved { role = player sample_player }

abbrev he_sees : Sight sample_library sample_env his setup []
unfolding o_k_outpoint find_o_k decide bytes-discrete ℕ_discrete
he_sees = record {
  u1_live = true;
  height = 800;
  settlement = none;
  o_k = record { txid = zeros 32; vout = 1 };
  o_k_live = true;
  confs = some 200;
  sees_u1 = refl;
  sees_height = refl;
  sees_settlement = refl;
  finds_o_k = refl;
  sees_o_k = refl;
  sees_confs = refl;
}

assess-broadcast_refund_example :
    (true ≡ true)
    × (broadcast_refund sample_library sample_env his desk ≡ (
        if false
        then (do
          publish sample_library sample_env (set_witness setup.refund_tx (zeros 64 ∷ []))
          pure refunded)
            desk
        else (err (protocol "refund not spendable yet (before its locktime)"), desk)))
unfolding assess ◌>>=◌ Recover.look he_sees
assess-broadcast_refund_example =
    assess-broadcast_refund sample_library sample_env his setup desk he_sees false refl refl

locate_u1_lem_example :
    (zeros 32 ≡ sample_library.compute_txid funding)
    × (get_elem? funding.output 1 ≡ some (tx_out 6990 (1 ∷ [])))
locate_u1_lem_example =
    locate_u1_lem sample_library funding (1 ∷ []) (record { txid = zeros 32; vout = 1 }) 6990
      located_so
