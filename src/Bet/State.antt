-- ===== src/Bet/State.antt =====
-- The data of a bet: `GameParams`, the secrets and `SetupResult` of src/setup.rs, `BetRole` and the
-- fields of `Bet` of src/bet.rs, and the records of src/persist.rs. A path is its text.
use babilonia.Prelude.{ℕ, Option, none, Bool, true, false}
use babilonia.Bytes.{Bytes}
use babilonia.Tx.{OutPoint, Transaction}
use babilonia.Bet.Library.{Library, Network, Scheme}

pub record GameParams : Type 0 where
  pub u1_outpoint : OutPoint
  pub u1_value : ℕ
  pub alice_stake : ℕ
  pub bob_stake : ℕ
  pub fee : ℕ
  pub refund_locktime : ℕ
  pub alice_timeout : ℕ
  pub pi_a_scheme : Scheme
  pub alice_payout : Bytes
  pub bob_payout : Bytes

-- How far a bet has come (src/persist.rs).
pub data Phase : Type 0 where
  funded setup_done funding_broadcast settled observed done : Phase

-- `thimbles[guess]`: a choice or a guess in {0, 1} is a Boolean.
abbrev pub pick : {A : Type 0} → Bool → A → A → A
pick false first second = first
pick true first second = second

module _ (lib : Library) where
  open lib use {wire, SecretKey, PublicKey, KeyAgg, AdaptorSignature, LiftedSignature}
  open wire use {Point, Scalar, PubNonce}

  pub record Keypair : Type 0 where
    pub sk : SecretKey
    pub pk : PublicKey

  pub record AliceSecrets : Type 0 where
    pub identity : Keypair
    pub thimble_0 : Scalar
    pub thimble_1 : Scalar
    pub choice : Bool
    pub d : Scalar

  pub record BobSecrets : Type 0 where
    pub funding : Keypair
    pub claim : Keypair
    pub guess : Bool

  pub data BetRole : Type 0 where
    dealer : AliceSecrets → BetRole
    player : BobSecrets → BetRole

  pub record SetupResult : Type 0 where
    pub keyagg : KeyAgg
    pub settle_tx : Transaction
    pub settle_sighash : Bytes
    pub settle_pre : AdaptorSignature
    pub refund_tx : Transaction
    pub refund_sighash : Bytes
    pub refund_sig : LiftedSignature
    pub ctxt : Scalar
    pub d_point : Point
    pub k : Point
    pub thimble_0 : Point
    pub thimble_1 : Point
    pub p_a : Point
    pub coop_seed : Bytes
    pub coop_peer_nonce : PubNonce

  pub record SetupData : Type 0 where
    pub settle_tx : Transaction
    pub settle_pre : AdaptorSignature
    pub refund_tx : Transaction
    pub refund_sig : LiftedSignature
    pub ctxt : Scalar
    pub d_point : Point
    pub k : Point
    pub thimble_0 : Point
    pub thimble_1 : Point
    pub p_a : Point
    pub reclaim_tx : Option Transaction

  pub record BetRecord : Type 0 where
    pub id : Bytes
    pub phase : Phase
    pub role : BetRole
    pub params : GameParams
    pub funding_tx : Option Transaction
    pub setup : Option SetupData
    pub recovered_a_c : Option Scalar

  pub record Bet : Type 0 where
    pub network : Network
    pub params : GameParams
    pub role : BetRole
    pub setup : Option SetupResult
    pub recovered_a_c : Option Scalar
    pub funding_psbt : Option Bytes
    pub funding_tx : Option Transaction
    pub peer_key : Option PublicKey
    pub reclaim_tx : Option Transaction
    pub bet_id : Bytes
    pub state_dir : Option Bytes

  -- `Bet::new` and `with_state_dir`; the id is drawn at random.
  unfoldable pub new_bet : Network → GameParams → BetRole → Bytes → Option Bytes → Bet
  new_bet network params role id dir = record {
    network = network;
    params = params;
    role = role;
    setup = none;
    recovered_a_c = none;
    funding_psbt = none;
    funding_tx = none;
    peer_key = none;
    reclaim_tx = none;
    bet_id = id;
    state_dir = dir;
  }
