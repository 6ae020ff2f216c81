-- ===== src/Server/Memtable/Sums.antt =====
-- How a call on the memtable of go/pkg/lsm/skiplist.go changes the sums over the nodes.
use info_crate.Common.{
  ℕ, suc, ◌+◌, ◌*◌, ◌≤◌, ◌≡◌, refl, arith, none, some, List, [], ◌∷◌, length, All,
}
use info_crate.Text.Laws.{str_eq_iff}
use info_crate.Server.Memtable.{SkipListNode, hit_node}
use info_crate.Server.Memtable.Search.{seek}
use info_crate.Server.Memtable.Place.{place}

-- The bytes that the source charges for the nodes.
unfoldable pub footprint : List SkipListNode → ℕ
footprint [] = 0
footprint (n ∷ chain) = length n.key + length n.value + n.height * 8 + 32 + footprint chain

-- What `place` does to the sums, by the node that it meets.
module _ (n : SkipListNode) where
  pub place_new :
      (nodes : List SkipListNode)
      → hit_node n.key (seek n.key nodes) ≡ none
      → (length (place n nodes) ≡ suc (length nodes))
        × (footprint (place n nodes)
            ≡ footprint nodes + (length n.key + length n.value + n.height * 8 + 32))
  unfolding place seek hit_node footprint
  place_new [] h = (refl, omega arith)
  place_new (x ∷ xs) h = ground (arith, place_new xs)

  pub place_old :
      (old : SkipListNode) (nodes : List SkipListNode)
      → hit_node n.key (seek n.key nodes) ≡ some old
      → (length (place n nodes) ≡ length nodes)
        × (footprint (place n nodes) + (length old.key + length old.value)
            ≡ footprint nodes + (length n.key + length n.value))
        × (length old.key ≡ length n.key)
  unfolding place seek hit_node footprint
  place_old old [] h = cc
  place_old old (x ∷ xs) h = ground (arith, place_old old xs, str_eq_iff x.key n.key)

  pub place-heights :
      (l : ℕ) (nodes : List SkipListNode)
      → n.height ≤ l
      → All (λ x. x.height ≤ l) nodes
      → All (λ x. x.height ≤ l) (place n nodes)
  unfolding place
  place-heights l [] h a = (h, tt)
  place-heights l (x ∷ xs) h a = ground (arith, place-heights l xs h a.1)

-- The node of the key that is there, and its place in the sums.
module _ (n old : SkipListNode) where
  pub footprint-hit :
      (nodes : List SkipListNode)
      → hit_node n.key (seek n.key nodes) ≡ some old
      → length old.key + length old.value ≤ footprint nodes
  unfolding hit_node seek footprint
  footprint-hit [] hit = cc
  footprint-hit (x ∷ xs) hit = ground (arith, footprint-hit xs)

  pub heights-hit :
      (l : ℕ) (nodes : List SkipListNode)
      → hit_node n.key (seek n.key nodes) ≡ some old
      → All (λ x. x.height ≤ l) nodes
      → All (λ x. x.height ≤ l) (place n nodes)
  unfolding hit_node seek place
  heights-hit l [] hit a = cc
  heights-hit l (x ∷ xs) hit a = ground (arith, heights-hit l xs, a)
