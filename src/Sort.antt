-- ===== src/Sort.antt =====
-- `Array.prototype.sort(compare)`: a stable sort, by the sign of the comparator's result. For a
-- consistent comparator the language fixes the result, so insertion sort stands for it.
pub mod Laws
pub mod Sorted
use info_crate.Common.{Bool, true, false, List, [], ◌∷◌, Ordering}

module _ {ℓ} {A : Type ℓ} (cmp : A → A → Ordering) where
  -- `x`, which came before all of the list, goes before the first element that is not less.
  unfoldable pub insert_by : A → List A → List A
  insert_by x [] = x ∷ []
  insert_by x (y ∷ ys) = elim (cmp x y) [ Ordering.gt ↦ y ∷ insert_by x ys | _ ↦ x ∷ y ∷ ys ]

  unfoldable pub sort_by : List A → List A
  unfolding insert_by
  sort_by [] = []
  sort_by (x ∷ xs) = insert_by x (sort_by xs)
