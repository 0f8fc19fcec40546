-- ===== src/Bytes.antt =====
-- Byte strings, the little-endian integers of `to_le_bytes` and `from_le_bytes` of the standard
-- library, and the test that `String::from_utf8` makes. A Rust `String` is its UTF-8 bytes.
pub mod Utf8
use Prim.Native.Char.{code}
use Prim.Native.String.{String}
use babilonia.Prelude.{
  ℕ, zero, suc, ◌+◌, ◌*◌, ◌/◌, ◌%◌, ◌^◌, ◌<◌, ◌≡◌, refl, List, [], ◌∷◌, arith, length, All,
}

abbrev pub Bytes : Type 0
Bytes = List ℕ

abbrev pub AreBytes : Bytes → Type 0
AreBytes = All (λ b. b < 256)

-- The bytes of an ASCII text, as in `b"..."`.
abbrev pub ascii : String → Bytes
ascii String.[] = []
ascii (String.◌∷◌ c s) = code c ∷ ascii s

-- `n.to_le_bytes()` of an integer of w bytes.
unfoldable pub to_le_bytes : ℕ → ℕ → Bytes
to_le_bytes zero n = []
to_le_bytes (suc w) n = n % 256 ∷ to_le_bytes w (n / 256)

-- `from_le_bytes(b)`.
unfoldable pub from_le_bytes : Bytes → ℕ
from_le_bytes [] = 0
from_le_bytes (b ∷ bs) = b + 256 * from_le_bytes bs

pub length-to_le_bytes : (w n : ℕ) → length (to_le_bytes w n) ≡ w
unfolding to_le_bytes
length-to_le_bytes zero n = refl
length-to_le_bytes (suc w) n = omega (arith, length-to_le_bytes w (n / 256))

pub from_to_le_bytes_2 : (n : ℕ) → n < 2 ^ 16 → from_le_bytes (to_le_bytes 2 n) ≡ n
unfolding from_le_bytes to_le_bytes
from_to_le_bytes_2 n h = omega arith

pub from_to_le_bytes_4 : (n : ℕ) → n < 2 ^ 32 → from_le_bytes (to_le_bytes 4 n) ≡ n
unfolding from_le_bytes to_le_bytes
from_to_le_bytes_4 n h = omega arith

pub from_to_le_bytes_8 : (n : ℕ) → n < 2 ^ 64 → from_le_bytes (to_le_bytes 8 n) ≡ n
unfolding from_le_bytes to_le_bytes
from_to_le_bytes_8 n h = omega arith

-- A byte string is the encoding of the number that it is read as.
pub to_from_le_bytes : (bs : Bytes) → AreBytes bs → to_le_bytes (length bs) (from_le_bytes bs) ≡ bs
unfolding from_le_bytes to_le_bytes
to_from_le_bytes [] h = refl
to_from_le_bytes (b ∷ bs) h =
    let r : ℕ = from_le_bytes bs in
    let low : (b + 256 * r) % 256 ≡ b = omega arith in
    let high : (b + 256 * r) / 256 ≡ r = omega arith in rw (low, high, to_from_le_bytes bs h.1)
