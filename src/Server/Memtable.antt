-- ===== src/Server/Memtable.antt =====
-- The skip list of go/pkg/lsm/skiplist.go. The memtable is the chain of level 0, each node with its
-- height, the length of its `Forward`: `Forward[i]` of a node, or of the head, is taken for
-- the first later node that is higher than `i`, so that a place in the list is the chain behind it;
-- the array `update` and the splice on each level, by which the source keeps it so, are not
-- modelled. Keys and values are bytes; the results of `rnd.Float64() < Probability` are an argument.
pub mod Search
pub mod Place
pub mod Sums
pub mod Valid
pub mod Refinement
use info_crate.Common.{
  ℕ, zero, suc, ◌+◌, ◌-◌, ◌*◌, Bool, true, false, Option, none, some, List, [], ◌∷◌, ◌++◌, map,
  length, take, ltb, if◌then◌else◌,
}
use info_crate.Text.{str_eq, str_lt}

pub record SkipListNode : Type 0 where
  pub key : List ℕ
  pub value : List ℕ
  pub is_tombstone : Bool
  pub timestamp : ℕ
  pub height : ℕ

pub record Memtable : Type 0 where
  pub nodes : List SkipListNode
  pub level : ℕ
  pub size_bytes : ℕ
  pub count : ℕ

abbrev pub max_skip_list_level : ℕ
max_skip_list_level = 16

unfoldable pub new_memtable : Memtable
new_memtable = record { nodes = []; level = 1; size_bytes = 0; count = 0 }

-- The loop of `randomLevel`, with `k` flips behind it.
unfoldable pub climb : ℕ → ℕ → (ℕ → Bool) → ℕ
climb zero k coins = 0
climb (suc left) k coins = let more = climb left (suc k) coins in if coins k then suc more else 0

unfoldable pub random_level : (ℕ → Bool) → ℕ
unfolding climb
random_level coins = 1 + climb (max_skip_list_level - 1) 0 coins

-- `Forward[i]` of the place in front of a chain, with the chain behind it.
unfoldable pub forward : ℕ → List SkipListNode → List SkipListNode
forward i [] = []
forward i (n ∷ chain) = if ltb i n.height then n ∷ chain else forward i chain

-- `for curr.Forward[i] != nil && curr.Forward[i].Key < key`: `chain` is what is behind `curr`, and
-- `ahead` the rest of it that is not looked at yet.
unfoldable pub advance : ℕ → List ℕ → List SkipListNode → List SkipListNode → List SkipListNode
advance i key chain [] = chain
advance i key chain (n ∷ ahead) =
    let on = advance i key ahead ahead in
    let past = advance i key chain ahead in
    if ltb i n.height then (if str_lt n.key key then on else chain) else past

-- `for i := m.level - 1; i >= 0; i--`: the chain behind the last `curr`.
unfoldable pub descend : ℕ → List ℕ → List SkipListNode → List SkipListNode
unfolding advance
descend zero key chain = chain
descend (suc i) key chain = descend i key (advance i key chain chain)

-- `curr = curr.Forward[0]`, if its key is `key`.
unfoldable pub hit_node : List ℕ → List SkipListNode → Option SkipListNode
hit_node key [] = none
hit_node key (n ∷ chain) = if str_eq n.key key then some n else none

-- What is in front of the last `curr`, with it.
unfoldable pub before : List SkipListNode → List SkipListNode → List SkipListNode
before nodes chain = take (length nodes - length chain) nodes

unfoldable pub replace_head : SkipListNode → List SkipListNode → List SkipListNode
replace_head n [] = []
replace_head n (old ∷ chain) = n ∷ chain

-- A new node behind `update[0]` on level 0, the level and the counters. The links of the levels above
-- are not kept: what `Forward[i]` is follows from the heights.
unfoldable pub insert_node : SkipListNode → List SkipListNode → Memtable → Memtable
insert_node n chain m = record {
  nodes = before m.nodes chain ++ n ∷ chain;
  level = if ltb m.level n.height then n.height else m.level;
  size_bytes = m.size_bytes + (length n.key + length n.value + n.height * 8 + 32);
  count = m.count + 1;
}

abbrev pub new_node : List ℕ → List ℕ → Bool → ℕ → ℕ → SkipListNode
new_node key value is_tombstone ts height = record {
  key = key;
  value = value;
  is_tombstone = is_tombstone;
  timestamp = ts;
  height = height;
}

-- The node of a key that is there is written in place.
unfoldable pub write_node : SkipListNode → List SkipListNode → Memtable → Memtable
unfolding replace_head
write_node n chain m = record m { nodes = before m.nodes chain ++ replace_head n chain }

-- The place that the loop finds: `curr.Forward[0]` and what is behind it.
unfoldable pub find_place : List ℕ → Memtable → List SkipListNode
find_place key m = forward 0 (descend m.level key m.nodes)

-- `Put` from the node of the key, if there is one.
unfoldable pub put_at :
    (ℕ → Bool) → List ℕ → List ℕ → ℕ → Memtable → Option SkipListNode → List SkipListNode → Memtable
put_at coins key value ts m none chain =
    insert_node (new_node key value false ts (random_level coins)) chain m
put_at coins key value ts m (some old) chain =
    let old_size = length old.key + length old.value in
    let new_size = length key + length value in
    record (write_node (new_node old.key value false ts old.height) chain m) {
      size_bytes = m.size_bytes + new_size - old_size;
    }

unfoldable pub put : (ℕ → Bool) → List ℕ → List ℕ → ℕ → Memtable → Memtable
put coins key value ts m =
    let chain = find_place key m in put_at coins key value ts m (hit_node key chain) chain

-- `Delete` from the node of the key, if there is one.
unfoldable pub delete_at :
    (ℕ → Bool) → List ℕ → ℕ → Memtable → Option SkipListNode → List SkipListNode → Memtable
delete_at coins key ts m none chain =
    insert_node (new_node key [] true ts (random_level coins)) chain m
delete_at coins key ts m (some old) chain =
    record (write_node (new_node old.key [] true ts old.height) chain m) {
      size_bytes = m.size_bytes - length old.value;
    }

unfoldable pub delete : (ℕ → Bool) → List ℕ → ℕ → Memtable → Memtable
delete coins key ts m =
    let chain = find_place key m in delete_at coins key ts m (hit_node key chain) chain

-- What `Get` returns for a node: the value and the mark of a tombstone.
unfoldable pub answer : Option SkipListNode → Option (List ℕ × Bool)
answer none = none
answer (some n) = some (if n.is_tombstone then ([], true) else (n.value, false))

unfoldable pub get : List ℕ → Memtable → Option (List ℕ × Bool)
get key m = answer (hit_node key (find_place key m))

pub record Entry : Type 0 where
  pub key : List ℕ
  pub value : List ℕ
  pub is_tombstone : Bool
  pub timestamp : ℕ

abbrev pub entry_of : SkipListNode → Entry
entry_of n = record {
  key = n.key;
  value = n.value;
  is_tombstone = n.is_tombstone;
  timestamp = n.timestamp;
}

-- The loop of `AllEntries` from the node behind a place.
unfoldable pub entries_from : List SkipListNode → List Entry
entries_from [] = []
entries_from (n ∷ chain) =
    if ltb 0 n.height then entry_of n ∷ entries_from chain else entries_from chain

unfoldable pub all_entries : Memtable → List Entry
unfolding entries_from
all_entries m = entries_from m.nodes
