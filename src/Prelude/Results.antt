-- ===== src/Prelude/Results.antt =====
-- `crate::Error` and `crate::Result` of src/lib.rs.
use Prim.Native.String.{String}
use mathlib.Core.Path.{◌≡◌, refl, ap}
use native.Mathlib.Omega.{arith}
use mathlib.Core.Bool.{Bool, true, false}
use mathlib.Core.Option.{Option, none, some}

-- The errors of the libraries below (secp256k1, bitcoincore-rpc, std::io) carry their text only.
pub data Error : Type 0 where
  secp musig rpc io transport decode proof_invalid protocol wallet todo : String → Error

-- `crate::Result`, whose error is always the crate's.
pub data Result {ℓ} (T : Type ℓ) : Type ℓ where
  err : Error → Result T
  ok : T → Result T

-- `?` on the way to the rest of a body.
abbrev pub ◌>>=◌ {ℓ κ} : {T : Type ℓ} {U : Type κ} → Result T → (T → Result U) → Result U
err failure >>= rest = err failure
ok value >>= rest = rest value

infixl 5 ◌>>=◌ ◌>>◌
abbrev pub ◌>>◌ {ℓ} : {U : Type ℓ} → Result (Unit {0}) → Result U → Result U
first >> second = first >>= λ done. second

-- `if c { return Err(e) }`.
abbrev pub fail_if : Bool → Error → Result (Unit {0})
fail_if true e = err e
fail_if false e = ok tt

-- `.ok_or(e)` and `.map_err(|_| e)` of a call with no other error.
abbrev pub ok_or {ℓ} : {A : Type ℓ} → Option A → Error → Result A
ok_or none e = err e
ok_or (some a) e = ok a

-- A chain that succeeds is one whose links do.
pub bind-ok {ℓ κ} :
    {T : Type ℓ} {U : Type κ} (r : Result T) (rest : T → Result U) (u : U)
    → (r >>= rest) ≡ ok u
    → (t : T) × (r ≡ ok t) × (rest t ≡ ok u)
bind-ok (ok t) rest u h = (t, refl, h)
bind-ok (err e) rest u h = ground arith

or_else_ok {ℓ} : {A : Type ℓ} → A → Result A → A
or_else_ok a (err e) = a
or_else_ok a (ok b) = b

pub ok-injective {ℓ} : {A : Type ℓ} (a b : A) → ◌≡◌ {A = Result A} (ok a) (ok b) → a ≡ b
unfolding or_else_ok
ok-injective a b h = ap (or_else_ok a) h

pub ok_or-eq-some {ℓ} :
    {A : Type ℓ} (o : Option A) (e : Error) (a : A) → ok_or o e ≡ ok a → o ≡ some a
ok_or-eq-some none e a h = ground arith
ok_or-eq-some (some b) e a h = ap some (ok-injective b a h)
