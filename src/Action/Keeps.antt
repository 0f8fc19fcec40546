-- ===== src/Action/Keeps.antt =====
-- Rules for what an action keeps and what it ends with, one for each way to build an action.
use babilonia.Prelude.{◌≡◌, refl, sym, subst, Error, Result, ok, err, Bool, true, false}
use babilonia.Action.{Action, pure, raise, lift, gets, ignore, raise_if, when, continue, ◌>>=◌}

-- What holds of a state holds of the state that `m` leaves, also after an error.
pub record Keeps {S A : Type 0} (P : S → Type 0) (m : Action S A) : Type 0 where
  pub kept : (s : S) → P s → P (m s).1

module _ {S A : Type 0} {P : S → Type 0} where
  -- An action that leaves the state as it is.
  Keeps-still : (m : Action S A) → ((s : S) → (m s).1 ≡ s) → Keeps P m
  Keeps-still m still = record { kept = λ s p. subst P (sym (still s)) p }

  pub Keeps-gets : (read : S → A) → Keeps P (gets read)
  unfolding gets
  Keeps-gets read = Keeps-still (gets read) (λ s. refl)

  pub Keeps-lift : (result : Result A) → Keeps P (lift result)
  unfolding lift
  Keeps-lift result = Keeps-still (lift result) (λ s. refl)

  pub Keeps-raise : (e : Error) → Keeps P (raise {A = A} e)
  unfolding raise
  Keeps-raise e = Keeps-still (raise e) (λ s. refl)

  pub Keeps-pure : (value : A) → Keeps P (pure value)
  unfolding pure
  Keeps-pure value = Keeps-still (pure value) (λ s. refl)

  pub Keeps-ignore : (m : Action S A) → Keeps P m → Keeps P (ignore m)
  unfolding ignore
  Keeps-ignore m keeps = record { kept = keeps.kept }

module _ {S : Type 0} {P : S → Type 0} where
  pub Keeps-raise_if : (b : Bool) (e : Error) → Keeps P (raise_if b e)
  unfolding raise_if
  Keeps-raise_if true e = Keeps-still (raise_if true e) (λ s. refl)
  Keeps-raise_if false e = Keeps-still (raise_if false e) (λ s. refl)

  pub Keeps-when : (b : Bool) (m : Action S (Unit {0})) → Keeps P m → Keeps P (when b m)
  unfolding when
  Keeps-when true m keeps = record { kept = keeps.kept }
  Keeps-when false m keeps = Keeps-still (when false m) (λ s. refl)

module _ {S A B : Type 0} {P : S → Type 0} where
  continue-kept :
      (rest : A → Action S B)
      → ((a : A) → Keeps P (rest a))
      → (result : Result A) (s : S) → P s
      → P (continue result rest s).1
  continue-kept rest keeps (err e) s p = p
  continue-kept rest keeps (ok a) s p = (keeps a).kept s p

  pub Keeps-bind :
      (first : Action S A) (rest : A → Action S B)
      → Keeps P first
      → ((a : A) → Keeps P (rest a))
      → Keeps P (first >>= rest)
  unfolding ◌>>=◌
  Keeps-bind first rest keeps keep_on = record {
    kept = λ s p. continue-kept rest keep_on (first s).0 (first s).1 (keeps.kept s p);
  }

pub ruleset keeps_rules = (
  Keeps-pure, Keeps-raise, Keeps-lift, Keeps-gets, Keeps-ignore, Keeps-raise_if, Keeps-when,
  Keeps-bind,
)

-- How a call ended: `Q` of its value, or `E` after an error.
abbrev pub Ended : {S A : Type 0} → (A → S → Type 0) → (S → Type 0) → Result A × S → Type 0
Ended Q E (ok a, s) = Q a s
Ended Q E (err e, s) = E s

-- From `P`, `m` ends as `Q` and `E` say.
pub record Triple {S A : Type 0} (P : S → Type 0) (m : Action S A) (Q : A → S → Type 0)
    (E : S → Type 0) : Type 0 where
  pub run : (s : S) → P s → Ended Q E (m s)

module _ {S A B : Type 0} {P : S → Type 0} {E : S → Type 0} {R : A → S → Type 0}
    {Q : B → S → Type 0} where
  pub Triple-bind :
      (m : Action S A) (f : A → Action S B)
      → Triple P m R E
      → ((a : A) → Triple (R a) (f a) Q E)
      → Triple P (m >>= f) Q E
  unfolding ◌>>=◌
  Triple-bind m f tm tf = record { run = λ s h. let (r, s') = m s in after r s' (tm.run s h) }
    where
      after : (r : Result A) (s' : S) → Ended R E (r, s') → Ended Q E (continue r f s')
      after (ok a) s' h = (tf a).run s' h
      after (err e) s' h = h

module _ {S A : Type 0} {P : S → Type 0} where
  -- What keeps `P` ends with it, however it ends.
  pub Triple-Keeps :
      {E : S → Type 0} {m : Action S A} → ((s : S) → P s → E s) → Keeps P m → Triple P m (λ _. P) E
  Triple-Keeps {E} {m} weaken k = record { run = λ s h. after (m s).0 (m s).1 (k.kept s h) }
    where
      after : (r : Result A) (s' : S) → P s' → Ended (λ _. P) E (r, s')
      after (ok a) s' h = h
      after (err e) s' h = weaken s' h

  pub Triple-pure : {E : S → Type 0} (a : A) → Triple P (pure a) (λ _. P) E
  unfolding pure
  Triple-pure a = record { run = λ s h. h }

  -- Any end of a triple implies `E`, if its result does.
  pub Keeps-Triple :
      {m : Action S A} {Q : A → S → Type 0}
      → Triple P m Q P
      → ((a : A) (s : S) → Q a s → P s)
      → Keeps P m
  Keeps-Triple {m} {Q} t back = record { kept = λ s h. after (m s).0 (m s).1 (t.run s h) }
    where
      after : (r : Result A) (s' : S) → Ended Q P (r, s') → P s'
      after (ok a) s' h = back a s' h
      after (err e) s' h = h

-- Binds after which something is known.
module _ {S A B : Type 0} {P : S → Type 0} where
  pub Keeps-bind-lift :
      (r : Result A) (f : A → Action S B)
      → ((a : A) → r ≡ ok a → Keeps P (f a))
      → Keeps P (lift r >>= f)
  unfolding ◌>>=◌
  Keeps-bind-lift (ok a) f k = record { kept = (k a refl).kept }
  Keeps-bind-lift (err e) f k = record { kept = λ s h. h }

  pub Keeps-bind-gets :
      {R : A → Type 0} (g : S → A) (f : A → Action S B)
      → ((s : S) → P s → R (g s))
      → ((a : A) → R a → Keeps P (f a))
      → Keeps P (gets g >>= f)
  unfolding ◌>>=◌
  Keeps-bind-gets g f known k = record { kept = λ s h. (k (g s) (known s h)).kept s h }

module _ {S B : Type 0} {P : S → Type 0} where
  pub Keeps-bind-raise_if :
      (b : Bool) (e : Error) (m : Action S B)
      → (b ≡ false → Keeps P m)
      → Keeps P (raise_if b e >>= λ _. m)
  unfolding ◌>>=◌
  Keeps-bind-raise_if true e m k = record { kept = λ s h. h }
  Keeps-bind-raise_if false e m k = record { kept = (k refl).kept }

module _ {S A B : Type 0} {P : S → Type 0} {E : S → Type 0} {Q : B → S → Type 0} where
  pub Triple-bind-lift :
      (r : Result A) (f : A → Action S B)
      → ((s : S) → P s → E s)
      → ((a : A) → r ≡ ok a → Triple P (f a) Q E)
      → Triple P (lift r >>= f) Q E
  unfolding ◌>>=◌
  Triple-bind-lift (ok a) f weaken t = record { run = (t a refl).run }
  Triple-bind-lift (err e) f weaken t = record { run = weaken }

  pub Triple-bind-gets :
      {R : A → S → Type 0} (g : S → A) (f : A → Action S B)
      → ((s : S) → P s → R (g s) s)
      → ((a : A) → Triple (R a) (f a) Q E)
      → Triple P (gets g >>= f) Q E
  unfolding ◌>>=◌
  Triple-bind-gets g f known t = record { run = λ s h. (t (g s)).run s (known s h) }

module _ {S A : Type 0} {P : S → Type 0} {Q : A → S → Type 0} {E : S → Type 0} where
  pub Triple-after :
      {R : A → S → Type 0} {m : Action S A}
      → Triple P m R E
      → ((a : A) (s : S) → R a s → Q a s)
      → Triple P m Q E
  Triple-after {R} {m} t after = record { run = λ s h. ended (m s).0 (m s).1 (t.run s h) }
    where
      ended : (r : Result A) (s' : S) → Ended R E (r, s') → Ended Q E (r, s')
      ended (ok a) s' h = after a s' h
      ended (err e) s' h = h

module _ {S A : Type 0} {Q : A → S → Type 0} {E : S → Type 0} where
  pub Triple-exists :
      {I : Type 0} {R : I → S → Type 0} {m : Action S A}
      → ((i : I) → Triple (R i) m Q E)
      → Triple (λ s. (i : I) × R i s) m Q E
  Triple-exists t = record { run = λ s h. (t h.0).run s h.1 }

module _ {S A : Type 0} {P : S → Type 0} {Q : A → S → Type 0} {E : S → Type 0} where
  pub Triple-fact :
      {X : Type 0} {m : Action S A} → (X → Triple P m Q E) → Triple (λ s. P s × X) m Q E
  Triple-fact t = record { run = λ s h. (t h.1).run s h.0 }

  pub Triple-lift :
      (r : Result A)
      → ((s : S) → P s → E s)
      → ((a : A) → r ≡ ok a → (s : S) → P s → Q a s)
      → Triple P (lift r) Q E
  unfolding lift
  Triple-lift (ok a) weaken holds = record { run = holds a refl }
  Triple-lift (err e) weaken holds = record { run = weaken }

  pub Triple-error :
      {F : S → Type 0} {m : Action S A} → Triple P m Q F → ((s : S) → F s → E s) → Triple P m Q E
  Triple-error {F} {m} t weaken = record { run = λ s h. ended (m s).0 (m s).1 (t.run s h) }
    where
      ended : (r : Result A) (s' : S) → Ended Q F (r, s') → Ended Q E (r, s')
      ended (ok a) s' h = h
      ended (err e) s' h = weaken s' h
