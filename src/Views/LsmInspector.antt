-- ===== src/Views/LsmInspector.antt =====
-- What src/components/LsmInspector.tsx renders, and what its controls do.
pub mod Panels
use info_crate.Common.{
  ℕ, Bool, true, false, ◌&&◌, Option, none, some, List, [], ◌∷◌, ◌++◌, length, map, leb, ◌==◌,
  if◌then◌else◌, Ordering, ◌%◌,
}
use info_crate.Text.{JsString, units}
use info_crate.Wal.{WalFrame}
use info_crate.Hash.{fnv1a64, murmur3_64}
use info_crate.Lsm.{SkipListNodeView}
use info_crate.Cluster.{NodeState, ShardState, ClusterSimulator}
use info_crate.Cluster.Control.{trigger_compaction, flush_memtable}
use info_crate.Dashboard.{all_nodes, active_node, bloom_bit_indices}
use info_crate.Views.{Item, Shown, shows, text, number, button, field, choice, str, label, each}
use info_crate.Views.ClusterTopology.{role_name}

pub data LsmSubTab : Type 0 where
  skiplist wal sstables bloom compaction : LsmSubTab

pub record Inspector : Type 0 where
  pub selected_node_id : JsString
  pub lsm_sub_tab : LsmSubTab
  pub bloom_test_key : JsString

abbrev pub first_inspector : Inspector
first_inspector = record {
  selected_node_id = units "node-1";
  lsm_sub_tab = skiplist;
  bloom_test_key = units "user:1001";
}

pub data InspectorAction : Type 0 where
  set_selected_node_id : JsString → InspectorAction
  set_lsm_sub_tab : LsmSubTab → InspectorAction
  set_bloom_test_key : JsString → InspectorAction
  flush_node compact_node : JsString → InspectorAction

module _ (collate : JsString → JsString → Ordering) where
  unfoldable pub act_inspector :
      InspectorAction → Inspector → ClusterSimulator → Inspector × ClusterSimulator
  act_inspector (set_selected_node_id id) inspector s =
      (record inspector { selected_node_id = id }, s)
  act_inspector (set_lsm_sub_tab tab) inspector s = (record inspector { lsm_sub_tab = tab }, s)
  act_inspector (set_bloom_test_key key) inspector s =
      (record inspector { bloom_test_key = key }, s)
  act_inspector (flush_node id) inspector s = (inspector, flush_memtable collate s id)
  act_inspector (compact_node id) inspector s = (inspector, trigger_compaction collate s id)

abbrev pub same_sub_tab : LsmSubTab → LsmSubTab → Bool
same_sub_tab skiplist skiplist = true
same_sub_tab wal wal = true
same_sub_tab sstables sstables = true
same_sub_tab bloom bloom = true
same_sub_tab compaction compaction = true
same_sub_tab a b = false

abbrev pub node_option : NodeState → JsString × List Shown
node_option n = (
  n.id,
  text n.id ∷ str " (" ∷ text n.shard_id ∷ str " • " ∷ text (role_name n.role) ∷ str ")" ∷ [],
)

unfoldable pub node_selector : List NodeState → JsString → List (Item InspectorAction)
node_selector nodes selected_node_id =
    label "LSM-Tree Storage Engine Inspector"
    ∷ label
        "Inspect Memtable Skip List, WAL binary frames, SSTables, Bloom filters, and compaction."
    ∷ label "Node Target:"
    ∷ choice selected_node_id (map node_option nodes) set_selected_node_id
    ∷ []

unfoldable pub sub_tabs : LsmSubTab → List (Item InspectorAction)
sub_tabs tab =
    button (same_sub_tab tab skiplist) (set_lsm_sub_tab skiplist)
      (str "1. Concurrent Skip List (Memtable)" ∷ [])
    ∷ button (same_sub_tab tab wal) (set_lsm_sub_tab wal)
        (str "2. WAL Binary Frame Format (CRC32)" ∷ [])
    ∷ button (same_sub_tab tab sstables) (set_lsm_sub_tab sstables)
        (str "3. SSTables & Sparse Block Index" ∷ [])
    ∷ button (same_sub_tab tab bloom) (set_lsm_sub_tab bloom)
        (str "4. In-Memory Bloom Filters" ∷ [])
    ∷ button (same_sub_tab tab compaction) (set_lsm_sub_tab compaction)
        (str "5. Leveled Compaction Worker" ∷ [])
    ∷ []

-- A record in the row of a level: its key, if it reaches the level.
unfoldable pub level_cell : ℕ → SkipListNodeView → List (Item InspectorAction)
level_cell lvl entry =
    (if leb lvl entry.height
      then shows (text entry.key)
        ∷ label " "
        ∷ (if entry.is_tombstone then label "(DEL)" ∷ [] else [])
      else label "•••" ∷ [])
    ++ label "→" ∷ []

unfoldable pub level_row : List SkipListNodeView → ℕ → List (Item InspectorAction)
level_row memtable lvl =
    label "Level "
      ∷ shows (number lvl)
      ∷ label ":"
      ∷ label "HEAD"
      ∷ label "→"
      ∷ each (level_cell lvl) memtable
    ++ label "NIL" ∷ []

-- What the table shows of a value: nothing for `undefined`.
abbrev pub value_text : Option JsString → JsString
value_text none = []
value_text (some value) = value

unfoldable pub record_row : SkipListNodeView → List (Item InspectorAction)
record_row node =
    shows (text node.key)
    ∷ shows (text (if node.is_tombstone then units "<Tombstone Marker>" else value_text node.value))
    ∷ shows (number node.height)
    ∷ label " levels"
    ∷ shows (number node.timestamp)
    ∷ label (if node.is_tombstone then "Tombstone (Deleted)" else "Active Key")
    ∷ []

abbrev pub record_rows : List SkipListNodeView → List (Item InspectorAction)
record_rows [] = label "Memtable is currently empty (recently flushed to SSTables)." ∷ []
record_rows (n ∷ memtable) = each record_row (n ∷ memtable)

unfoldable pub skip_list_panel : NodeState → List (Item InspectorAction)
skip_list_panel node =
    label "Active Memtable (Concurrent Skip List)"
      ∷ shows (number (length node.memtable))
      ∷ label " Active Records"
      ∷ label
          "Protected via sync.RWMutex. Geometric level distribution (p=0.5) ensures O(log N) operations."
      ∷ button false (flush_node node.id) (str "Flush to Immutable → SSTable L0" ∷ [])
      ∷ label "Multi-Level Forward Pointer Structure"
      ∷ each (level_row node.memtable) (4 ∷ 3 ∷ 2 ∷ 1 ∷ [])
    ++ label "Key"
      ∷ label "Value Payload"
      ∷ label "Skip Height"
      ∷ label "Timestamp (Unix Nano)"
      ∷ label "Status"
      ∷ record_rows node.memtable
