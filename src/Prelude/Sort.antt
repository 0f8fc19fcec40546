-- ===== src/Prelude/Sort.antt =====
-- `Vec::sort`, as an insertion sort over a Boolean order.
use mathlib.Core.Path.{◌≡◌, subst, sym}
use mathlib.Core.Logic.{inl, inr}
use mathlib.Core.Bool.{Bool}
use mathlib.Core.List.{List, [], ◌∷◌, Perm}
use mathlib.Core.List.Perm
use babilonia.Prelude.Tests.{if◌then◌else◌, Bool-cases}

module _ {ℓ} {A : Type ℓ} (le : A → A → Bool) where
  pub insert : A → List A → List A
  insert a [] = a ∷ []
  insert a (x ∷ xs) = if le a x then a ∷ x ∷ xs else x ∷ insert a xs

  unfoldable pub sort : List A → List A
  unfolding insert
  sort [] = []
  sort (x ∷ xs) = insert x (sort xs)

  insert-perm : (a : A) (xs : List A) → Perm (insert a xs) (a ∷ xs)
  unfolding insert
  insert-perm a [] = Perm.refl (a ∷ [])
  insert-perm a (x ∷ xs) = elim (Bool-cases (le a x)) [
    | inl e ↦ rw e (Perm.refl (a ∷ x ∷ xs))
    | inr e ↦ rw e (Perm.trans (Perm.cons x (insert-perm a xs)) (Perm.swap a x xs))
  ]

  pub sort-perm : (xs : List A) → Perm (sort xs) xs
  unfolding sort
  sort-perm [] = Perm.refl []
  sort-perm (x ∷ xs) = Perm.trans (insert-perm x (sort xs)) (Perm.cons x (sort-perm xs))

  -- Lists with the same sorted list are permutations of each other.
  pub perm_of_sort-eq : (xs ys : List A) → sort xs ≡ sort ys → Perm xs ys
  perm_of_sort-eq xs ys e =
      Perm.trans (Perm.symm (sort-perm xs)) (subst (λ l. Perm l ys) (sym e) (sort-perm ys))
