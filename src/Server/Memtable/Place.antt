-- ===== src/Server/Memtable/Place.antt =====
-- `Put` and `Delete` of go/pkg/lsm/skiplist.go as one insertion into an ascending list.
use info_crate.Common.{
  ℕ, ◌<◌, ◌≡◌, refl, arith, Bool, true, false, Option, none, some, List, [], ◌∷◌, ◌++◌, All, subst,
  Bool-cases, inl, inr, if◌then◌else◌,
}
use info_crate.Text.{str_eq, str_lt}
use info_crate.Text.Laws.{str_eq_iff, str_lt_trans, str_lt_irrefl, str_lt_total}
use info_crate.Server.Memtable.{SkipListNode, hit_node, replace_head, answer}
use info_crate.Server.Memtable.Search.{KeyLt, IsChain, seek, lower}

-- `n` takes the place of the node of its key, whose height it gets, or goes where its key belongs.
unfoldable pub place : SkipListNode → List SkipListNode → List SkipListNode
place n [] = n ∷ []
place n (x ∷ xs) =
    if str_lt x.key n.key
    then x ∷ place n xs
    else if str_eq x.key n.key
    then record n { height = x.height } ∷ xs
    else n ∷ x ∷ xs

pub place_insert :
    (n : SkipListNode) (nodes : List SkipListNode)
    → hit_node n.key (seek n.key nodes) ≡ none
    → lower n.key nodes ++ n ∷ seek n.key nodes ≡ place n nodes
unfolding place lower seek hit_node
place_insert n [] h = refl
place_insert n (x ∷ xs) h = ground (arith, place_insert n xs)

pub place_replace :
    (n old : SkipListNode) (nodes : List SkipListNode)
    → hit_node n.key (seek n.key nodes) ≡ some old
    → lower n.key nodes
        ++ replace_head (record n { key = old.key; height = old.height }) (seek n.key nodes)
      ≡ place n nodes
unfolding place lower seek hit_node replace_head
place_replace n old [] h = cc
place_replace n old (x ∷ xs) h = ground (arith, place_replace n old xs, str_eq_iff x.key n.key)

All-place :
    (x n : SkipListNode) (xs : List SkipListNode)
    → KeyLt x n
    → All (KeyLt x) xs
    → All (KeyLt x) (place n xs)
unfolding place
All-place x n [] p h = (p, tt)
All-place x n (y ∷ ys) p h = ground (arith, All-place x n ys p h.1)

All-KeyLt-trans :
    (x y : SkipListNode) (ys : List SkipListNode) → KeyLt x y → All (KeyLt y) ys → All (KeyLt x) ys
All-KeyLt-trans x y [] p h = tt
All-KeyLt-trans x y (z ∷ zs) p h =
    (str_lt_trans x.key y.key z.key p h.0, All-KeyLt-trans x y zs p h.1)

pub place-IsChain :
    (n : SkipListNode) (nodes : List SkipListNode)
    → 0 < n.height
    → IsChain nodes
    → IsChain (place n nodes)
unfolding place
place-IsChain n [] h c = (h, tt, tt)
place-IsChain n (x ∷ xs) h c = elim (Bool-cases (str_lt x.key n.key)) [
  | inl less ↦ rw less (c.0, All-place x n xs less c.1, place-IsChain n xs h c.2)
  | inr more ↦ elim (Bool-cases (str_eq x.key n.key)) [
    | inl same ↦
        let key = (str_eq_iff x.key n.key).0 same in
        rw (more, same)
          (c.0, subst (λ (k : List ℕ). All (λ y. str_lt k y.key ≡ true) xs) key c.1, c.2)
    | inr other ↦
        let above = str_lt_total x.key n.key more other in
        rw (more, other) (h, (above, All-KeyLt-trans n x xs above c.1), c)
  ]
]

-- What the chain says of a key.
unfoldable pub view : List ℕ → List SkipListNode → Option (List ℕ × Bool)
view q [] = none
view q (n ∷ chain) =
    if str_eq n.key q
    then some (if n.is_tombstone then ([], true) else (n.value, false))
    else view q chain

pub view-place :
    (q : List ℕ) (n : SkipListNode) (nodes : List SkipListNode)
    → view q (place n nodes) ≡ (
        if str_eq n.key q
        then some (if n.is_tombstone then ([], true) else (n.value, false))
        else view q nodes)
unfolding place view
view-place q n [] = refl
view-place q n (x ∷ xs) = ground (
  arith,
  view-place q n xs,
  str_eq_iff n.key q,
  str_eq_iff x.key q,
  str_eq_iff x.key n.key,
  str_lt_irrefl q,
)

view-below :
    (q : List ℕ) (x : SkipListNode) (xs : List SkipListNode)
    → str_lt q x.key ≡ true
    → All (KeyLt x) xs
    → view q xs ≡ none
unfolding view
view-below q x [] p h = refl
view-below q x (y ∷ ys) p h = ground (
  arith,
  view-below q x ys p h.1,
  str_eq_iff y.key q,
  str_lt_trans q x.key y.key p h.0,
  str_lt_irrefl q,
)

-- The node that the walk stops at tells all.
pub answer-seek :
    (q : List ℕ) (nodes : List SkipListNode)
    → IsChain nodes
    → answer (hit_node q (seek q nodes)) ≡ view q nodes
unfolding seek view hit_node answer
answer-seek q [] c = refl
answer-seek q (x ∷ xs) c = ground (
  arith,
  answer-seek q xs c.2,
  view-below q x xs,
  c,
  str_lt_total x.key q,
  str_eq_iff x.key q,
  str_lt_irrefl q,
)
