-- ===== src/Sort/Laws.antt =====
-- Sorting keeps the members.
use mathlib.Core.List.{Perm}
use mathlib.Core.List.Perm
use info_crate.Common.{List, [], ◌∷◌, All, Ordering}
use info_crate.Sort.{insert_by, sort_by}

module _ {ℓ} {A : Type ℓ} (cmp : A → A → Ordering) where
  insert_by-perm : (x : A) (ys : List A) → Perm (insert_by cmp x ys) (x ∷ ys)
  unfolding insert_by
  insert_by-perm x [] = Perm.refl _
  insert_by-perm x (y ∷ ys) = place (cmp x y) (insert_by-perm x ys)
    where
      place :
          (o : Ordering)
          → Perm (insert_by cmp x ys) (x ∷ ys)
          → Perm (elim o [ Ordering.gt ↦ y ∷ insert_by cmp x ys | _ ↦ x ∷ y ∷ ys ]) (x ∷ y ∷ ys)
      place Ordering.lt i = Perm.refl _
      place Ordering.eq i = Perm.refl _
      place Ordering.gt i = Perm.trans (Perm.cons y i) (Perm.swap x y ys)

  pub sort_by-perm : (xs : List A) → Perm (sort_by cmp xs) xs
  unfolding sort_by
  sort_by-perm [] = Perm.refl _
  sort_by-perm (x ∷ xs) =
      Perm.trans (insert_by-perm x (sort_by cmp xs)) (Perm.cons x (sort_by-perm xs))

  module _ {κ} (P : A → Type κ) where
    pub All-insert_by : (x : A) (ys : List A) → P x → All P ys → All P (insert_by cmp x ys)
    unfolding insert_by
    All-insert_by x [] p h = (p, h)
    All-insert_by x (y ∷ ys) p h = place (cmp x y) (All-insert_by x ys p h.1)
      where
        place :
            (o : Ordering)
            → All P (insert_by cmp x ys)
            → All P (elim o [ Ordering.gt ↦ y ∷ insert_by cmp x ys | _ ↦ x ∷ y ∷ ys ])
        place Ordering.lt i = (p, h)
        place Ordering.eq i = (p, h)
        place Ordering.gt i = (h.0, i)

    pub All-sort_by : (xs : List A) → All P xs → All P (sort_by cmp xs)
    unfolding sort_by
    All-sort_by [] h = tt
    All-sort_by (x ∷ xs) h = All-insert_by x (sort_by cmp xs) h.0 (All-sort_by xs h.1)
