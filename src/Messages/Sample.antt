-- ===== src/Messages/Sample.antt =====
-- A `Wire` of two points, scalars, partial signatures and nonces, told apart by their first byte.
use babilonia.Prelude.{
  ℕ, zero, suc, ◌≡◌, refl, ap, Bool, true, false, Option, none, some, [], ◌∷◌, ◌==◌, if◌then◌else◌,
  length,
}
use babilonia.Bytes.{Bytes, to_le_bytes, from_le_bytes}
use babilonia.Messages.Reader.{Fixed}
use babilonia.Messages.Wire.{Wire}

abbrev pub zeros : ℕ → Bytes
zeros zero = []
zeros (suc n) = 0 ∷ zeros n

pub length-zeros : (n : ℕ) → length (zeros n) ≡ n
length-zeros zero = refl
length-zeros (suc n) = ap suc (length-zeros n)

abbrev pub bit_of : Bytes → Option Bool
bit_of [] = none
bit_of (b ∷ bs) = if b == 2 then some false else if b == 3 then some true else none

pub bit_of-byte : (n : ℕ) (b : Bool) → bit_of ((if b then 3 else 2) ∷ zeros n) ≡ some b
bit_of-byte n true = refl
bit_of-byte n false = refl

abbrev pub two_values : (n : ℕ) → Fixed (suc n) Bool
two_values n = record {
  serialize = λ b. (if b then 3 else 2) ∷ zeros n;
  from_slice = bit_of;
  length-serialize = λ b. ap suc (length-zeros n);
  from_slice-serialize = bit_of-byte n;
}

abbrev pub sample_wire : Wire
sample_wire = record {
  Point = Bool;
  Scalar = Bool;
  PartialSignature = Bool;
  PubNonce = Bool;
  point = two_values 32;
  scalar = two_values 31;
  partial = two_values 31;
  nonce = two_values 65;
  serialize_tx = λ t. to_le_bytes 4 t.lock_time;
  deserialize_tx =
      λ b. some (record { version = 2; lock_time = from_le_bytes b; input = []; output = [] });
}
