-- ===== src/Views/LsmInspector/Panels.antt =====
-- The panels of src/components/LsmInspector.tsx for the log, the tables, the filter and the
-- compaction, and the whole of the component.
use info_crate.Common.{
  ℕ, zero, suc, ◌%◌, ◌==◌, ◌||◌, Bool, false, Option, none, some, List, [], ◌∷◌, ◌++◌, length,
  if◌then◌else◌,
}
use mathlib.Core.Option
use info_crate.Text.{JsString}
use info_crate.Wal.{WalFrame}
use info_crate.Hash.{fnv1a64, murmur3_64}
use info_crate.SsTable.{SsTableBlockView, SsTableView}
use info_crate.Cluster.{NodeState, ShardState}
use info_crate.Dashboard.{all_nodes, active_node, bloom_bit_indices}
use info_crate.Views.{Item, shows, text, number, button, field, str, label, each}
use info_crate.Views.LsmInspector.{
  LsmSubTab, skiplist, wal, sstables, bloom, compaction, Inspector, InspectorAction,
  set_bloom_test_key, compact_node, node_selector, sub_tabs, skip_list_panel,
}

unfoldable pub frame_row : WalFrame → List (Item InspectorAction)
frame_row frame =
    label "Offset "
      ∷ shows (number frame.offset)
      ∷ label "B"
      ∷ label "•"
      ∷ shows (text frame.key)
      ∷ label "•"
      ∷ (if frame.is_tombstone
          then label "<TOMBSTONE>" ∷ []
          else shows (number frame.val_size) ∷ label " bytes" ∷ [])
    ++ label "CRC32: "
      ∷ shows (text frame.crc32)
      ∷ label "RAW HEX: "
      ∷ shows (text frame.raw_hex)
      ∷ []

unfoldable pub wal_panel : NodeState → List (Item InspectorAction)
wal_panel node =
    label "Write-Ahead Log (WAL) Binary Specification"
    ∷ label
        "Every committed write is fsync'd before memtable insertion to guarantee 100% crash durability."
    ∷ label "Frame Layout:"
    ∷ label "CRC32 (4B) • IEEE"
    ∷ label "Timestamp (8B) • Nano"
    ∷ label "Key Size (4B)"
    ∷ label "Value Size (4B)"
    ∷ label "Key Payload (VarBytes)"
    ∷ label "Value Payload (VarBytes)"
    ∷ label "Recent WAL Frames on Disk (Offset Order)"
    ∷ each frame_row node.wal_frames

abbrev pub block_row : SsTableBlockView → List (Item InspectorAction)
block_row b =
    label "Block #"
    ∷ shows (number b.block_index)
    ∷ label " (Offset: "
    ∷ shows (number b.offset)
    ∷ label "B)"
    ∷ label "LastKey: "
    ∷ shows (text b.last_key)
    ∷ []

unfoldable pub ss_table_card : SsTableView → List (Item InspectorAction)
ss_table_card table =
    shows (text table.filename)
    ∷ shows (number table.file_bytes)
    ∷ label " bytes"
    ∷ label "Key Range: "
    ∷ label "["
    ∷ shows (text table.min_key)
    ∷ label " → "
    ∷ shows (text table.max_key)
    ∷ label "]"
    ∷ label "Entries: "
    ∷ shows (number table.entry_count)
    ∷ label "Data Blocks:"
    ∷ each block_row table.blocks

-- The cards, or the line that stands where there are none.
abbrev pub cards_or : Item InspectorAction → List SsTableView → List (Item InspectorAction)
cards_or empty_line [] = empty_line ∷ []
cards_or empty_line (t ∷ tables) = each ss_table_card (t ∷ tables)

unfoldable pub ss_tables_panel : NodeState → List (Item InspectorAction)
ss_tables_panel node =
    label "On-Disk SSTables & Sparse Block Indexes"
      ∷ label "Level 0 (overlapping) & Level 1 (partitioned non-overlapping key ranges)."
      ∷ button false (compact_node node.id) (str "Compact L0 → L1" ∷ [])
      ∷ label "Level 0 SSTables ("
      ∷ shows (number (length node.sstables_l0))
      ∷ label ")"
      ∷ label "Flush Target"
      ∷ cards_or (label "No Level 0 SSTables currently. (Click \"Flush Memtable\" to create).")
          node.sstables_l0
    ++ label "Level 1 Compacted SSTables ("
      ∷ shows (number (length node.sstables_l1))
      ∷ label ")"
      ∷ label "Sorted Run"
      ∷ cards_or (label "No Level 1 SSTables yet. (Compaction merges L0 into L1).") node.sstables_l1

-- `bloomBitIndices.join(', ')`
abbrev pub joined : List ℕ → List (Item InspectorAction)
joined [] = []
joined (n ∷ []) = shows (number n) ∷ []
joined (n ∷ m ∷ ns) = shows (number n) ∷ label ", " ∷ joined (m ∷ ns)

-- `bloomBitIndices.includes(idx)`
unfoldable pub includes : ℕ → List ℕ → Bool
includes idx [] = false
includes idx (n ∷ ns) = n == idx || includes idx ns

-- The bits from `idx` on, `n` of them, and whether each is drawn as one of the key's.
unfoldable pub bit_cells : ℕ → ℕ → List ℕ → List (ℕ × Bool)
bit_cells zero idx indices = []
bit_cells (suc n) idx indices = (idx, includes idx indices) ∷ bit_cells n (suc idx) indices

abbrev pub bit_cell : ℕ × Bool → List (Item InspectorAction)
bit_cell (idx, is_target_bit) =
    shows (number idx) ∷ (if is_target_bit then label "(set)" ∷ [] else [])

unfoldable pub bloom_panel : JsString → List (Item InspectorAction)
bloom_panel key =
    label "In-Memory Bloom Filter Inspector"
      ∷ label "Double hashing with FNV-1a and Murmur3 eliminates 99% of negative disk reads."
      ∷ label "Test Key Membership & Hash Computation"
      ∷ field key set_bloom_test_key
      ∷ label "FNV-1a Hash (h1):"
      ∷ shows (number (fnv1a64 key % 64))
      ∷ label "Murmur3 Hash (h2):"
      ∷ shows (number (murmur3_64 key % 64))
      ∷ label "Bit Indices (k=4):"
      ∷ joined (bloom_bit_indices key)
    ++ label "64-Bit Array Representation (Active Filter Block)"
      ∷ each bit_cell (bit_cells 64 0 (bloom_bit_indices key))

unfoldable pub compaction_panel : List (Item InspectorAction)
compaction_panel =
    label "Multi-Way Merge Compaction & Tombstone GC"
    ∷ label
        "Merges overlapping Level 0 SSTables into sorted Level 1 runs and reclaims disk space by discarding tombstones."
    ∷ label "Compaction Pipeline Lifecycle"
    ∷ label "1"
    ∷ label "Level 0 Threshold Trigger"
    ∷ label "When L0 table count reaches 4, background worker initiates compaction task."
    ∷ label "2"
    ∷ label "K-Way Sorted Merge"
    ∷ label
        "Reads candidate tables, sorts by Key ascending and Timestamp descending to retain only the newest version per key."
    ∷ label "3"
    ∷ label "Tombstone Garbage Collection"
    ∷ label
        "Tombstones reaching the bottom level are dropped, reclaiming disk space without leaking deletions."
    ∷ []

-- A panel that reads the active node: without one the code throws, which is `none`.
abbrev pub of_active :
    (NodeState → List (Item InspectorAction))
    → Option NodeState
    → Option (List (Item InspectorAction))
of_active panel none = none
of_active panel (some node) = some (panel node)

unfoldable pub sub_panel :
    Inspector → Option NodeState → LsmSubTab → Option (List (Item InspectorAction))
sub_panel inspector active skiplist = of_active skip_list_panel active
sub_panel inspector active wal = of_active wal_panel active
sub_panel inspector active sstables = of_active ss_tables_panel active
sub_panel inspector active bloom = some (bloom_panel inspector.bloom_test_key)
sub_panel inspector active compaction = some compaction_panel

unfoldable pub lsm_inspector : List ShardState → Inspector → Option (List (Item InspectorAction))
lsm_inspector shards inspector =
    Option.map
      (λ panel.
        node_selector (all_nodes shards) inspector.selected_node_id
        ++ sub_tabs inspector.lsm_sub_tab
        ++ panel)
      (sub_panel inspector (active_node shards inspector.selected_node_id) inspector.lsm_sub_tab)
