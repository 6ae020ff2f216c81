-- ===== src/Server/Memtable/Valid.antt =====
-- The invariant of the skip list of go/pkg/lsm/skiplist.go.
use info_crate.Common.{
  ℕ, zero, suc, ◌+◌, ◌-◌, ◌*◌, ◌≤◌, ◌<◌, ◌≡◌, refl, arith, Bool, true, false, none, some, List, [],
  ◌∷◌, length, All, ltb, Option-cases, inl, inr, if◌then◌else◌,
}
use info_crate.Server.Memtable.{
  SkipListNode, Memtable, max_skip_list_level, new_memtable, new_node, climb, random_level,
  find_place, hit_node, insert_node, write_node, put_at, put, delete_at, delete,
}
use info_crate.Server.Memtable.Search.{IsChain, seek, place_lem, before-seek}
use info_crate.Server.Memtable.Place.{place, place_insert, place_replace, place-IsChain}
use info_crate.Server.Memtable.Sums.{
  footprint, place_new, place_old, place-heights, footprint-hit, heights-hit,
}

-- Keys ascend on level 0, the heights are within the level, and both counters are exact.
pub record IsValid (m : Memtable) : Type 0 where
  pub chain : IsChain m.nodes
  pub positive : 0 < m.level
  pub bounded : m.level ≤ max_skip_list_level
  pub heights : All (λ n. n.height ≤ m.level) m.nodes
  pub counted : m.count ≡ length m.nodes
  pub sized : m.size_bytes ≡ footprint m.nodes

pub data MemOp : Type 0 where
  mem_put : (ℕ → Bool) → List ℕ → List ℕ → ℕ → MemOp
  mem_delete : (ℕ → Bool) → List ℕ → ℕ → MemOp

unfoldable pub apply : MemOp → Memtable → Memtable
apply (mem_put coins key value ts) m = put coins key value ts m
apply (mem_delete coins key ts) m = delete coins key ts m

-- The node that a call writes, if the key is new.
abbrev pub node_of : MemOp → SkipListNode
node_of (mem_put coins key value ts) = new_node key value false ts (random_level coins)
node_of (mem_delete coins key ts) = new_node key [] true ts (random_level coins)

climb-le : (left k : ℕ) (coins : ℕ → Bool) → climb left k coins ≤ left
unfolding climb
climb-le zero k coins = omega arith
climb-le (suc left) k coins = ground (arith, climb-le left (suc k) coins)

random_level-le : (coins : ℕ → Bool) → random_level coins ≤ max_skip_list_level
unfolding random_level
random_level-le coins = omega (arith, climb-le 15 0 coins)

random_level-positive : (coins : ℕ → Bool) → 0 < random_level coins
unfolding random_level
random_level-positive coins = omega arith

-- The memtable after a call, when the key has the node `old` and when it has none.
abbrev rewritten : MemOp → SkipListNode → Memtable → Memtable
rewritten (mem_put coins key value ts) old m = record m {
  nodes = place (new_node key value false ts (random_level coins)) m.nodes;
  size_bytes = m.size_bytes + (length key + length value) - (length old.key + length old.value);
}
rewritten (mem_delete coins key ts) old m = record m {
  nodes = place (new_node key [] true ts (random_level coins)) m.nodes;
  size_bytes = m.size_bytes - length old.value;
}

abbrev grown : SkipListNode → Memtable → Memtable
grown n m = record {
  nodes = place n m.nodes;
  level = if ltb m.level n.height then n.height else m.level;
  size_bytes = m.size_bytes + (length n.key + length n.value + n.height * 8 + 32);
  count = m.count + 1;
}

pub find_place_lem : (key : List ℕ) (m : Memtable) → IsValid m → find_place key m ≡ seek key m.nodes
unfolding find_place
find_place_lem key m v = place_lem m.level key m.nodes v.positive v.chain

apply_old :
    (op : MemOp) (m : Memtable) (old : SkipListNode)
    → IsValid m
    → hit_node (node_of op).key (seek (node_of op).key m.nodes) ≡ some old
    → apply op m ≡ rewritten op old m
unfolding apply put delete put_at delete_at write_node
apply_old (mem_put coins key value ts) m old v hit =
    rw
      (
        find_place_lem key m v,
        hit,
        before-seek key m.nodes,
        put_at,
        place_replace (new_node key value false ts (random_level coins)) old m.nodes hit,
      )
      refl
apply_old (mem_delete coins key ts) m old v hit =
    rw
      (
        find_place_lem key m v,
        hit,
        before-seek key m.nodes,
        delete_at,
        place_replace (new_node key [] true ts (random_level coins)) old m.nodes hit,
      )
      refl

apply_new :
    (op : MemOp) (m : Memtable)
    → IsValid m
    → hit_node (node_of op).key (seek (node_of op).key m.nodes) ≡ none
    → apply op m ≡ grown (node_of op) m
unfolding apply put delete put_at delete_at insert_node
apply_new (mem_put coins key value ts) m v hit =
    rw
      (
        find_place_lem key m v,
        hit,
        before-seek key m.nodes,
        put_at,
        place_insert (new_node key value false ts (random_level coins)) m.nodes hit,
      )
      refl
apply_new (mem_delete coins key ts) m v hit =
    rw
      (
        find_place_lem key m v,
        hit,
        before-seek key m.nodes,
        delete_at,
        place_insert (new_node key [] true ts (random_level coins)) m.nodes hit,
      )
      refl

All-raised :
    (l k : ℕ) (nodes : List SkipListNode)
    → l ≤ k
    → All (λ n. n.height ≤ l) nodes
    → All (λ n. n.height ≤ k) nodes
All-raised l k [] h a = tt
All-raised l k (n ∷ nodes) h a = (omega (arith, a.0), All-raised l k nodes h a.1)

node_of-height : (op : MemOp) → 0 < (node_of op).height
node_of-height (mem_put coins key value ts) = random_level-positive coins
node_of-height (mem_delete coins key ts) = random_level-positive coins

node_of-height-le : (op : MemOp) → (node_of op).height ≤ max_skip_list_level
node_of-height-le (mem_put coins key value ts) = random_level-le coins
node_of-height-le (mem_delete coins key ts) = random_level-le coins

grown-IsValid :
    (n : SkipListNode) (m : Memtable)
    → 0 < n.height
    → n.height ≤ max_skip_list_level
    → hit_node n.key (seek n.key m.nodes) ≡ none
    → IsValid m
    → IsValid (grown n m)
grown-IsValid n m positive high hit v =
    let sums = place_new n m.nodes hit in
    let level = if ltb m.level n.height then n.height else m.level in
    let over : m.level ≤ level = ground arith in
    let under : n.height ≤ level = ground arith in
    record {
      chain = place-IsChain n m.nodes positive v.chain;
      positive = omega (arith, over, v.positive);
      bounded = ground (arith, v.bounded);
      heights =
          place-heights n level m.nodes under (All-raised m.level level m.nodes over v.heights);
      counted = omega (arith, sums.0, v.counted);
      sized = omega (arith, sums.1, v.sized);
    }

rewritten-IsValid :
    (op : MemOp) (old : SkipListNode) (m : Memtable)
    → hit_node (node_of op).key (seek (node_of op).key m.nodes) ≡ some old
    → IsValid m
    → IsValid (rewritten op old m)
rewritten-IsValid (mem_put coins key value ts) old m hit v =
    let n = node_of (mem_put coins key value ts) in
    let sums = place_old n old m.nodes hit in
    record {
      chain = place-IsChain n m.nodes (node_of-height (mem_put coins key value ts)) v.chain;
      positive = v.positive;
      bounded = v.bounded;
      heights = heights-hit n old m.level m.nodes hit v.heights;
      counted = omega (arith, sums.0, v.counted);
      sized = omega (arith, sums.1, v.sized, footprint-hit n old m.nodes hit);
    }
rewritten-IsValid (mem_delete coins key ts) old m hit v =
    let n = node_of (mem_delete coins key ts) in
    let sums = place_old n old m.nodes hit in
    record {
      chain = place-IsChain n m.nodes (node_of-height (mem_delete coins key ts)) v.chain;
      positive = v.positive;
      bounded = v.bounded;
      heights = heights-hit n old m.level m.nodes hit v.heights;
      counted = omega (arith, sums.0, v.counted);
      sized = omega (arith, sums.1, sums.2, v.sized, footprint-hit n old m.nodes hit);
    }

-- One call keeps the memtable valid, and places one node.
pub apply_lem :
    (op : MemOp) (m : Memtable)
    → IsValid m
    → IsValid (apply op m) × ((apply op m).nodes ≡ place (node_of op) m.nodes)
apply_lem op m v = elim (Option-cases (hit_node (node_of op).key (seek (node_of op).key m.nodes))) [
  | inl none' ↦
      rw (apply_new op m v none')
        (grown-IsValid (node_of op) m (node_of-height op) (node_of-height-le op) none' v, refl)
  | inr hit ↦
      rw (apply_old op m hit.0 v hit.1)
        (rewritten-IsValid op hit.0 m hit.1 v, rewritten_nodes op hit.0 m)
]
  where
    rewritten_nodes :
        (op : MemOp) (old : SkipListNode) (m : Memtable)
        → (rewritten op old m).nodes ≡ place (node_of op) m.nodes
    rewritten_nodes (mem_put coins key value ts) old m = refl
    rewritten_nodes (mem_delete coins key ts) old m = refl

pub new_memtable-IsValid : IsValid new_memtable
unfolding new_memtable footprint
new_memtable-IsValid = record {
  chain = tt;
  positive = omega arith;
  bounded = omega arith;
  heights = tt;
  counted = refl;
  sized = refl;
}
