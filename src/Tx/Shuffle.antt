-- ===== src/Tx/Shuffle.antt =====
-- `shuffle_seeded` of src/txgraph.rs: a Fisher-Yates shuffle driven by SHA-256, a parameter.
use mathlib.Core.List.{Perm}
use mathlib.Core.List.Perm
use babilonia.Prelude.{
  ℕ, zero, suc, ◌+◌, ◌-◌, ◌%◌, ◌≡◌, Option, some, List, [], ◌∷◌, ◌++◌, length, get_elem?, take,
  Option-cases, inl, inr, subst, sym,
}
use babilonia.Bytes.{Bytes, to_le_bytes, from_le_bytes}

module _ {ℓ} {A : Type ℓ} where
  -- A write out of bounds changes nothing.
  abbrev pub set : List A → ℕ → A → List A
  set [] i v = []
  set (x ∷ xs) zero v = v ∷ xs
  set (x ∷ xs) (suc i) v = x ∷ set xs i v

  abbrev exchange : List A → ℕ → ℕ → Option A → Option A → List A
  exchange xs i j (some a) (some b) = set (set xs i b) j a
  exchange xs i j _ _ = xs

  -- `items.swap(i, j)`; both indices are in range where the shuffle calls it.
  unfoldable pub swap : List A → ℕ → ℕ → List A
  swap xs i j = exchange xs i j (get_elem? xs i) (get_elem? xs j)

module _ (sha256 : Bytes → Bytes) where
  -- The index that item `i` is swapped with: the first eight bytes of the hash of the seed and
  -- the counter, reduced.
  unfoldable pub draw : Bytes → ℕ → ℕ
  draw seed i = from_le_bytes (take 8 (sha256 (seed ++ to_le_bytes 4 i))) % (i + 1)

  -- `for i in (1..n + 1).rev()`.
  pub shuffle_from {ℓ} : {A : Type ℓ} → ℕ → Bytes → List A → List A
  shuffle_from zero seed items = items
  shuffle_from (suc i) seed items = shuffle_from i seed (swap items (suc i) (draw seed (suc i)))

  unfoldable pub shuffle_seeded {ℓ} : {A : Type ℓ} → List A → Bytes → List A
  unfolding shuffle_from swap draw
  shuffle_seeded items seed = shuffle_from (length items - 1) seed items

module _ {ℓ} {A : Type ℓ} where
  some-inj : {x y : A} → some x ≡ some y → x ≡ y
  some-inj e = cc

  -- Exchanging the head for item `j`.
  set-perm :
      (xs : List A) (j : ℕ) (x y : A) → get_elem? xs j ≡ some y → Perm (y ∷ set xs j x) (x ∷ xs)
  set-perm [] j x y e = absurd (cc)
  set-perm (z ∷ xs) zero x y e =
      subst (λ t. Perm (t ∷ x ∷ xs) (x ∷ z ∷ xs)) (some-inj e) (Perm.swap x z xs)
  set-perm (z ∷ xs) (suc j) x y e =
      Perm.trans (Perm.swap z y (set xs j x))
        (Perm.trans (Perm.cons z (set-perm xs j x y e)) (Perm.swap x z xs))

  exchange-perm :
      (xs : List A) (i j : ℕ) (a b : A)
      → get_elem? xs i ≡ some a
      → get_elem? xs j ≡ some b
      → Perm (set (set xs i b) j a) xs
  exchange-perm [] i j a b ei ej = absurd (cc)
  exchange-perm (x ∷ xs) zero zero a b ei ej =
      subst (λ t. Perm (t ∷ xs) (x ∷ xs)) (some-inj ei) (Perm.refl (x ∷ xs))
  exchange-perm (x ∷ xs) zero (suc j) a b ei ej =
      subst (λ t. Perm (b ∷ set xs j a) (t ∷ xs)) (sym (some-inj ei)) (set-perm xs j a b ej)
  exchange-perm (x ∷ xs) (suc i) zero a b ei ej =
      subst (λ t. Perm (a ∷ set xs i b) (t ∷ xs)) (sym (some-inj ej)) (set-perm xs i b a ei)
  exchange-perm (x ∷ xs) (suc i) (suc j) a b ei ej = Perm.cons x (exchange-perm xs i j a b ei ej)

  swap-perm : (xs : List A) (i j : ℕ) → Perm (swap xs i j) xs
  unfolding swap
  swap-perm xs i j = elim (Option-cases (get_elem? xs i)) [
    | inl e ↦ rw e (Perm.refl xs)
    | inr (a, e) ↦ elim (Option-cases (get_elem? xs j)) [
      | inl f ↦ rw (e, f) (Perm.refl xs)
      | inr (b, f) ↦ rw (e, f) (exchange-perm xs i j a b e f)
    ]
  ]

module _ {ℓ} {A : Type ℓ} (sha256 : Bytes → Bytes) where
  shuffle_from-perm :
      (n : ℕ) (seed : Bytes) (items : List A) → Perm (shuffle_from sha256 n seed items) items
  unfolding shuffle_from
  shuffle_from-perm zero seed items = Perm.refl items
  shuffle_from-perm (suc i) seed items =
      Perm.trans (shuffle_from-perm i seed (swap items (suc i) (draw sha256 seed (suc i))))
        (swap-perm items (suc i) (draw sha256 seed (suc i)))

  -- A shuffle neither loses nor repeats an item, whatever the seed and the hash.
  pub shuffle_seeded-perm :
      (items : List A) (seed : Bytes) → Perm (shuffle_seeded sha256 items seed) items
  unfolding shuffle_seeded
  shuffle_seeded-perm items seed = shuffle_from-perm (length items - 1) seed items
