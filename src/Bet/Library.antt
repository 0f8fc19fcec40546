-- ===== src/Bet/Library.antt =====
-- What src/bet.rs and src/recover.rs take from other libraries (`secp256k1`, `musig2`, `bitcoin`):
-- types that they only pass on, and pure functions. The wrappers of src/musig.rs, and the pad of
-- src/pi_a.rs, enter by what their callers see of them.
use babilonia.Prelude.{ℕ, Bool, Option, Result, List}
use babilonia.Bytes.{Bytes}
use babilonia.Tx.{TxOut, Transaction}
use babilonia.Messages.Wire.{Wire}

pub data Network : Type 0 where
  bitcoin testnet signet regtest : Network

pub data Scheme : Type 0 where
  squaring poseidon : Scheme

-- `pi_a::Statement` and `pi_a::Witness`.
pub record PiAStatement (w : Wire) : Type 0 where
  pub ctxt : w.Scalar
  pub d_point : w.Point
  pub thimble_0 : w.Point
  pub thimble_1 : w.Point
  pub ctx : Bytes

pub record PiAWitness (w : Wire) : Type 0 where
  pub t : w.Scalar
  pub choice : Bool
  pub a_c : w.Scalar

pub record Library : Type 1 where
  pub wire : Wire
  pub SecretKey : Type 0
  pub PublicKey : Type 0
  pub KeyAgg : Type 0
  pub AdaptorSignature : Type 0
  pub LiftedSignature : Type 0
  -- The claim output's spend information and its one leaf.
  pub SpendInfo : Type 0
  pub to_point : PublicKey → wire.Point
  pub of_point : wire.Point → PublicKey
  pub secret_scalar : SecretKey → wire.Scalar
  pub point_eq : wire.Point → wire.Point → Bool
  -- `base_point_mul`, `+` and the negation of scalars; `none` is the zero of `MaybeScalar`.
  pub base_mul : wire.Scalar → wire.Point
  pub add : wire.Scalar → wire.Scalar → Option wire.Scalar
  -- `+` of points; `none` is the point at infinity.
  pub add_points : wire.Point → wire.Point → Option wire.Point
  pub neg : wire.Scalar → wire.Scalar
  pub pad : Scheme → wire.Scalar → wire.Scalar
  pub sha256 : Bytes → Bytes
  pub compute_txid : Transaction → Bytes
  -- `Psbt::from_str(..)`, down to its unsigned transaction.
  pub unsigned_tx : Bytes → Option Transaction
  -- `TaprootKey::new`, the aggregate and its script.
  pub taproot_key : PublicKey → PublicKey → Result (KeyAgg × Bytes)
  pub address_of_script : Bytes → Network → Option Bytes
  -- `Address::from_str`, `require_network` and `script_pubkey`.
  pub script_of_address : Bytes → Network → Result Bytes
  -- `script_pubkey` of an address that a wallet handed out.
  pub script_pubkey : Bytes → Bytes
  -- `ClaimOutput::new` of the claim key, the dealer's key and the timeout: the script and the rest.
  pub claim_output : wire.Point → wire.Point → ℕ → Result (Bytes × SpendInfo)
  pub key_spend_sighash : Transaction → ℕ → List TxOut → Result Bytes
  pub leaf_spend_sighash : Transaction → ℕ → List TxOut → SpendInfo → Result Bytes
  -- `sign_schnorr_no_aux_rand`, for the leaf with the plain key, for the key path with the tweaked.
  pub sign_leaf : wire.Scalar → Bytes → Result Bytes
  pub sign_key_path : wire.Scalar → SpendInfo → Bytes → Result Bytes
  -- The leaf script and its control block, as they stand in the witness.
  pub leaf_script : SpendInfo → Bytes
  pub control_block : SpendInfo → Result Bytes
  -- `adapt` and `extract` of src/musig.rs.
  pub adapt : AdaptorSignature → wire.Scalar → Option LiftedSignature
  pub extract : AdaptorSignature → LiftedSignature → Option wire.Scalar
  pub signature_bytes : LiftedSignature → Bytes
  -- `CompactSignature::from_bytes` and `lift_nonce`.
  pub parse_signature : Bytes → Result LiftedSignature
  -- The MuSig2 sessions of src/musig.rs: our index with our key and a seed give a round and a
  -- public nonce; the peer's index and nonce, our key and the message give the second round and our
  -- partial signature, which the adaptor's point joins in an adaptor session.
  pub Round1 : Type 0
  pub Round2 : Type 0
  pub AdaptorRound2 : Type 0
  pub first_round : KeyAgg → ℕ → SecretKey → Bytes → Result (Round1 × wire.PubNonce)
  pub sign :
      Round1 → ℕ → wire.PubNonce → SecretKey → Bytes → Result (Round2 × wire.PartialSignature)
  pub sign_adaptor :
      Round1
      → ℕ
      → wire.PubNonce
      → SecretKey
      → wire.Point
      → Bytes
      → Result (AdaptorRound2 × wire.PartialSignature)
  pub receive : Round2 → ℕ → wire.PartialSignature → Result Round2
  pub receive_adaptor : AdaptorRound2 → ℕ → wire.PartialSignature → Result AdaptorRound2
  pub finalize_plain : Round2 → Result LiftedSignature
  pub finalize : AdaptorRound2 → Result AdaptorSignature
  -- The proofs of src/sigma.rs and src/pi_a.rs. A prover draws its own randomness, from a seed.
  pub prove_thimble_poks : Bytes → wire.Scalar → wire.Scalar → Bytes → Bytes
  pub verify_thimble_poks : wire.Point → wire.Point → Bytes → Bytes → Bool
  pub prove_pi_r :
      Bytes → wire.Scalar → Bool → wire.Point → wire.Point → wire.Point → Bytes → Result Bytes
  pub verify_pi_r : wire.Point → wire.Point → wire.Point → Bytes → Bytes → Bool
  pub prove_pi_a : Bytes → Scheme → PiAStatement wire → PiAWitness wire → Result Bytes
  pub verify_pi_a : Scheme → PiAStatement wire → Bytes → Result Bool
  -- `SharedSecret::new`.
  pub ecdh : SecretKey → PublicKey → Bytes
  -- `Address::from_str(..).assume_checked().script_pubkey()`.
  pub payout_spk : Bytes → Result Bytes
  -- `LockTime::from_height`.
  pub lock_height : ℕ → Option ℕ
