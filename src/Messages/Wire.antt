-- ===== src/Messages/Wire.antt =====
-- The values that src/messages.rs writes through other libraries: points, scalars, partial
-- signatures and public nonces (`musig2`, `secp`), of a fixed width each, and consensus-encoded
-- transactions (`bitcoin`). Each is a parameter: a way to write it and a way to read it back.
use babilonia.Prelude.{ℕ, Option, ◌++◌, length}
use babilonia.Bytes.{Bytes, to_le_bytes}
use babilonia.Tx.{OutPoint, Transaction}
use babilonia.Messages.Reader.{Fixed}

pub record Wire : Type 1 where
  pub Point : Type 0
  pub Scalar : Type 0
  pub PartialSignature : Type 0
  pub PubNonce : Type 0
  pub point : Fixed 33 Point
  pub scalar : Fixed 32 Scalar
  pub partial : Fixed 32 PartialSignature
  pub nonce : Fixed 66 PubNonce
  pub serialize_tx : Transaction → Bytes
  pub deserialize_tx : Bytes → Option Transaction

-- `put_point`, `put_scalar`, `put_partial` and `put_nonce`.
unfoldable pub put_fixed : {n : ℕ} {A : Type 0} → Fixed n A → A → Bytes → Bytes
put_fixed c a out = out ++ c.serialize a

-- `out.extend_from_slice(&n.to_le_bytes())` of a `u64`.
unfoldable pub put_u64 : ℕ → Bytes → Bytes
put_u64 n out = out ++ to_le_bytes 8 n

-- The length is cast to `u32`, whose bytes are the low 32 bits.
unfoldable pub put_lp : Bytes → Bytes → Bytes
put_lp bytes out = (out ++ to_le_bytes 4 (length bytes)) ++ bytes

unfoldable pub put_outpoint : OutPoint → Bytes → Bytes
put_outpoint o out = (out ++ o.txid) ++ to_le_bytes 4 o.vout

infixl 5 ◌▹◌
abbrev pub ◌▹◌ : Bytes → (Bytes → Bytes) → Bytes
out ▹ put = put out
