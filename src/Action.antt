-- ===== src/Action.antt =====
-- Methods that change a state and may return an error. What was changed before an error stays
-- changed, so the state comes back beside the error too.
pub mod Keeps
pub mod Returns
use babilonia.Prelude.{Error, Result, ok, err, Bool, true, false}

abbrev pub Action : Type 0 → Type 0 → Type 0
Action S A = S → Result A × S

module _ {S A : Type 0} where
  pub pure : A → Action S A
  pure a s = (ok a, s)

  pub raise : Error → Action S A
  raise e s = (err e, s)

  -- `r?` of a pure result.
  pub lift : Result A → Action S A
  lift r s = (r, s)

  pub gets : (S → A) → Action S A
  gets f s = (ok (f s), s)

  -- `let _ = m;`, which drops an error.
  pub ignore : Action S A → Action S (Unit {0})
  ignore m s = (ok tt, (m s).1)

module _ {S : Type 0} where
  pub modify : (S → S) → Action S (Unit {0})
  modify f s = (ok tt, f s)

  -- `if c { return Err(e) }`.
  pub raise_if : Bool → Error → Action S (Unit {0})
  raise_if true e s = (err e, s)
  raise_if false e s = (ok tt, s)

  -- `if c { m }`.
  pub when : Bool → Action S (Unit {0}) → Action S (Unit {0})
  when true m s = m s
  when false m s = (ok tt, s)

module _ {S A B : Type 0} where
  abbrev pub continue : Result A → (A → Action S B) → Action S B
  continue (ok a) f s = f a s
  continue (err e) f s = (err e, s)

  infixl 5 ◌>>=◌ ◌>>◌
  -- Opening this opens the primitives too.
  unfoldable pub ◌>>=◌ : Action S A → (A → Action S B) → Action S B
  unfolding pure raise lift gets ignore modify raise_if when
  ◌>>=◌ m f s = let (r, s') = m s in continue r f s'

  abbrev pub ◌>>◌ : Action S A → Action S B → Action S B
  m >> k = m >>= λ _. k
