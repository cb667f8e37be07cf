-- ===== src/Base/Sort.antt =====
-- sort.Slice, as insertion sort. Elements that the order does not tell apart may come in any order
-- in Go; here they keep theirs.
use mathlib.Core.Bool.{Bool, true, false}
use mathlib.Core.Path.{◌≡◌}
use mathlib.Core.Logic.{inl, inr}
use mathlib.Core.List.Perm
use mathlib.Core.List.{Perm}
use native.Mathlib.Omega.{arith}
use nano_cloud.Base.Tests.{Bool-cases}
use mathlib.Core.List.{List, [], ◌∷◌}
use nano_cloud.Base.Tests.{if◌then◌else◌}

module _ {ℓ} {A : Type ℓ} (before : A → A → Bool) where
  unfoldable pub insert_sorted : A → List A → List A
  insert_sorted x [] = x ∷ []
  insert_sorted x (y ∷ ys) =
      let rest = insert_sorted x ys in if before y x then y ∷ rest else x ∷ y ∷ ys

  unfoldable pub sort_slice : List A → List A
  unfolding insert_sorted
  sort_slice [] = []
  sort_slice (x ∷ xs) = insert_sorted x (sort_slice xs)

  -- each element is followed by one that need not come before it
  abbrev pub IsSorted : List A → Type 0
  IsSorted [] = Unit
  IsSorted (x ∷ []) = Unit
  IsSorted (x ∷ y ∷ ys) = (before y x ≡ false) × IsSorted (y ∷ ys)

  module _ (asym : (x y : A) → before x y ≡ true → before y x ≡ false) where
    -- `insert_sorted x ys` may follow `z`
    insert_sorted-follows :
        (z x : A) (ys : List A)
        → before x z ≡ false
        → IsSorted (z ∷ ys)
        → IsSorted (insert_sorted x ys)
        → IsSorted (z ∷ insert_sorted x ys)
    unfolding insert_sorted
    insert_sorted-follows z x [] h s t = (h, tt)
    insert_sorted-follows z x (y ∷ ys) h s t = ground arith

    insert_sorted-IsSorted : (x : A) (ys : List A) → IsSorted ys → IsSorted (insert_sorted x ys)
    unfolding insert_sorted
    insert_sorted-IsSorted x [] s = tt
    insert_sorted-IsSorted x (y ∷ ys) s = ground (
      arith,
      asym y x,
      insert_sorted-follows y x ys,
      insert_sorted-IsSorted x ys (tail_sorted y ys s),
    )
      where
        tail_sorted : (y : A) (ys : List A) → IsSorted (y ∷ ys) → IsSorted ys
        tail_sorted y [] s = tt
        tail_sorted y (z ∷ ys) s = s.1

    pub sort_slice-IsSorted : (xs : List A) → IsSorted (sort_slice xs)
    unfolding sort_slice
    sort_slice-IsSorted [] = tt
    sort_slice-IsSorted (x ∷ xs) = insert_sorted-IsSorted x (sort_slice xs) (sort_slice-IsSorted xs)

  insert_sorted-perm : (x : A) (ys : List A) → Perm (insert_sorted x ys) (x ∷ ys)
  unfolding insert_sorted
  insert_sorted-perm x [] = Perm.refl (x ∷ [])
  insert_sorted-perm x (y ∷ ys) = elim (Bool-cases (before y x)) [
    | inl first ↦ rw first (Perm.trans (Perm.cons y (insert_sorted-perm x ys)) (Perm.swap x y ys))
    | inr later ↦ rw later (Perm.refl (x ∷ y ∷ ys))
  ]

  -- sorting keeps each element, as often as it was there
  pub sort_slice-perm : (xs : List A) → Perm (sort_slice xs) xs
  unfolding sort_slice
  sort_slice-perm [] = Perm.refl []
  sort_slice-perm (x ∷ xs) =
      Perm.trans (insert_sorted-perm x (sort_slice xs)) (Perm.cons x (sort_slice-perm xs))
