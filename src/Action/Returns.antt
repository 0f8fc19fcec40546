-- ===== src/Action/Returns.antt =====
-- Rules for what an action returns, if it returns.
use babilonia.Prelude.{◌≡◌, refl, Error, Result, ok, err, subst}
use babilonia.Action.{Action, pure, raise, lift, continue, ◌>>=◌}
use babilonia.Action.Keeps.{Keeps, Triple, Ended}

-- What `m` returns is `Q`.
pub record Returns {S A : Type 0} (Q : A → Type 0) (m : Action S A) : Type 0 where
  pub of : (s : S) (a : A) → (m s).0 ≡ ok a → Q a

module _ {S A : Type 0} {Q : A → Type 0} where
  pub Returns-pure : (a : A) → Q a → Returns Q (pure {S = S} a)
  unfolding pure
  Returns-pure a q = record { of = λ s b h. out (ok b) h }
    where
      held : Result A → Type 0
      held (ok b) = Q b
      held (err e) = Q a

      out : (r : Result A) → ok a ≡ r → held r
      out r h = subst held h q

  pub Returns-raise : (e : Error) → Returns Q (raise {S = S} {A = A} e)
  unfolding raise
  Returns-raise e = record { of = λ s a h. cc }

module _ {S A B : Type 0} {Q : B → Type 0} where
  pub Returns-bind :
      (m : Action S A) (f : A → Action S B) → ((a : A) → Returns Q (f a)) → Returns Q (m >>= f)
  unfolding ◌>>=◌
  Returns-bind m f q = record { of = λ s b h. let (r, s') = m s in after r s' b h }
    where
      after : (r : Result A) (s' : S) (b : B) → (continue r f s').0 ≡ ok b → Q b
      after (ok a) s' b h = (q a).of s' b h
      after (err e) s' b h = cc

  -- The rest may use that `r` is not an error.
  pub Returns-bind-lift :
      (r : Result A) (f : A → Action S B)
      → ((a : A) → r ≡ ok a → Returns Q (f a))
      → Returns Q (lift r >>= f)
  unfolding ◌>>=◌
  Returns-bind-lift (ok a) f q = record { of = (q a refl).of }
  Returns-bind-lift (err e) f q = Returns-raise e

module _ {S A : Type 0} {P : S → Type 0} {Q : A → Type 0} where
  -- Both what it keeps and what it returns.
  pub Triple-Returns : {m : Action S A} → Keeps P m → Returns Q m → Triple P m (λ a s. P s × Q a) P
  Triple-Returns {m} k q = record { run = λ s h. after (m s).0 (m s).1 (k.kept s h) (q.of s) }
    where
      after :
          (r : Result A) (s' : S)
          → P s'
          → ((a : A) → r ≡ ok a → Q a)
          → Ended (λ a s. P s × Q a) P (r, s')
      after (ok a) s' h q = (h, q a refl)
      after (err e) s' h q = h

pub ruleset returns_rules = (Returns-bind-lift, Returns-bind, Returns-raise)
