-- ===== src/Sort/Sorted.antt =====
-- The order of what `Array.prototype.sort` returns, for a comparison that agrees with an order on the
-- elements at hand.
use info_crate.Common.{◌≡◌, ◌≢◌, arith, List, [], ◌∷◌, All, Ordering, inl, inr, ◌⊎◌, refl}
use info_crate.Sort.{insert_by, sort_by}
use info_crate.Sort.Laws.{All-insert_by, All-sort_by}

abbrev pub IsSortedBy {ℓ κ} : {A : Type ℓ} → (A → A → Type κ) → List A → Type κ
IsSortedBy R [] = Unit
IsSortedBy R (x ∷ xs) = All (R x) xs × IsSortedBy R xs

pub gt-or-ne : (o : Ordering) → (o ≡ Ordering.gt) ⊎ (o ≢ Ordering.gt)
gt-or-ne Ordering.gt = inl refl
gt-or-ne Ordering.lt = inr (λ h. cc)
gt-or-ne Ordering.eq = inr (λ h. cc)

module _ {A : Type 0} (cmp : A → A → Ordering) where
  pub insert_by_gt :
      (x y : A) (ys : List A)
      → cmp x y ≡ Ordering.gt
      → insert_by cmp x (y ∷ ys) ≡ y ∷ insert_by cmp x ys
  unfolding insert_by
  insert_by_gt x y ys e = ground arith

  pub insert_by_le :
      (x y : A) (ys : List A) → cmp x y ≢ Ordering.gt → insert_by cmp x (y ∷ ys) ≡ x ∷ y ∷ ys
  unfolding insert_by
  insert_by_le x y ys h = ground arith

  module _ (P : A → Type 0) (R : A → A → Type 0)
      (after : (x y : A) → P x → P y → cmp x y ≡ Ordering.gt → R y x)
      (before : (x y : A) → P x → P y → cmp x y ≢ Ordering.gt → R x y)
      (trans : (x y z : A) → R x y → R y z → R x z) where
    All-trans : (x y : A) (ys : List A) → R x y → All (R y) ys → All (R x) ys
    All-trans x y [] h k = tt
    All-trans x y (z ∷ ys) h k = (trans x y z h k.0, All-trans x y ys h k.1)

    insert_by-IsSortedBy :
        (x : A) (ys : List A) → P x → All P ys → IsSortedBy R ys → IsSortedBy R (insert_by cmp x ys)
    insert_by-IsSortedBy x [] px ps o = unfold insert_by in (tt, tt)
    insert_by-IsSortedBy x (y ∷ ys) px ps o = elim (gt-or-ne (cmp x y)) [
      | inl larger ↦ rw (insert_by_gt x y ys larger) (
        All-insert_by cmp (R y) x ys (after x y px ps.0 larger) o.0,
        insert_by-IsSortedBy x ys px ps.1 o.1,
      )
      | inr smaller ↦
          let first = before x y px ps.0 smaller in
          rw (insert_by_le x y ys smaller) ((first, All-trans x y ys first o.0), o)
    ]

    pub sort_by-IsSortedBy : (xs : List A) → All P xs → IsSortedBy R (sort_by cmp xs)
    unfolding sort_by
    sort_by-IsSortedBy [] h = tt
    sort_by-IsSortedBy (x ∷ xs) h =
        insert_by-IsSortedBy x _ h.0 (All-sort_by cmp P xs h.1) (sort_by-IsSortedBy xs h.1)
