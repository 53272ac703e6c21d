-- ===== src/Base/Sorting.antt =====
-- Python's stable `sorted`, by the test that the key of the first is not above that of the second.
use mathlib.Core.Path.{◌≡◌, refl, ap, ◌∙◌}
use mathlib.Core.Bool.{Bool, true, false}
use mathlib.Core.Logic.{inl, inr}
use mathlib.Core.List.{List, [], ◌∷◌, Perm}
use mathlib.Core.List.Perm
use native.Mathlib.Omega.{arith}
use theta_plus.Base.Tests.{if◌then◌else◌, Bool-cases}

module _ {A : Type 0} where
  unfoldable pub insert_by : (A → A → Bool) → A → List A → List A
  insert_by le x [] = x ∷ []
  insert_by le x (y ∷ ys) = let rest = insert_by le x ys in if le x y then x ∷ y ∷ ys else y ∷ rest

  unfoldable pub sorted_by : (A → A → Bool) → List A → List A
  sorted_by le [] = []
  sorted_by le (x ∷ xs) = insert_by le x (sorted_by le xs)

  insert_by-Perm : (le : A → A → Bool) (x : A) (ys : List A) → Perm (insert_by le x ys) (x ∷ ys)
  unfolding insert_by
  insert_by-Perm le x [] = Perm.refl _
  insert_by-Perm le x (y ∷ ys) = elim (Bool-cases (le x y)) [
    | inl h ↦ rw h (Perm.refl _)
    | inr h ↦ rw h (Perm.trans (Perm.cons y (insert_by-Perm le x ys)) (Perm.swap _ _ _))
  ]

  pub sorted_by-Perm : (le : A → A → Bool) (xs : List A) → Perm (sorted_by le xs) xs
  unfolding sorted_by
  sorted_by-Perm le [] = Perm.refl []
  sorted_by-Perm le (x ∷ xs) =
      Perm.trans (insert_by-Perm le x (sorted_by le xs)) (Perm.cons x (sorted_by-Perm le xs))

  -- Each element is not above the next one.
  abbrev pub Ascending : (A → A → Bool) → List A → Type 0
  Ascending le [] = Unit
  Ascending le (x ∷ []) = Unit
  Ascending le (x ∷ y ∷ xs) = (le x y ≡ true) × Ascending le (y ∷ xs)

  module _ (le : A → A → Bool) (total : (a b : A) → le a b ≡ false → le b a ≡ true) where
    insert_by-Ascending : (x : A) (ys : List A) → Ascending le ys → Ascending le (insert_by le x ys)
    unfolding insert_by
    insert_by-Ascending x [] h = tt
    insert_by-Ascending x (y ∷ []) h = ground (arith, total x y)
    insert_by-Ascending x (y ∷ z ∷ ys) h =
        ground (arith, total x y, total x z, insert_by-Ascending x (z ∷ ys))

    pub sorted_by-Ascending : (xs : List A) → Ascending le (sorted_by le xs)
    unfolding sorted_by
    sorted_by-Ascending [] = tt
    sorted_by-Ascending (x ∷ xs) = insert_by-Ascending x (sorted_by le xs) (sorted_by-Ascending xs)

  insert_by-first :
      (le : A → A → Bool) (x : A) (ys : List A) → Ascending le (x ∷ ys) → insert_by le x ys ≡ x ∷ ys
  unfolding insert_by
  insert_by-first le x [] h = refl
  insert_by-first le x (y ∷ ys) h = rw h.0 refl

  -- Sorting leaves an ascending list as it is.
  pub sorted_by-id : (le : A → A → Bool) (xs : List A) → Ascending le xs → sorted_by le xs ≡ xs
  unfolding sorted_by
  sorted_by-id le [] h = refl
  sorted_by-id le (x ∷ []) h = insert_by-first le x [] tt
  sorted_by-id le (x ∷ y ∷ ys) h =
      ap (insert_by le x) (sorted_by-id le (y ∷ ys) h.1) ∙ insert_by-first le x (y ∷ ys) h
