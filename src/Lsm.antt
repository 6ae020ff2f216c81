-- ===== src/Lsm.antt =====
-- `SimulatedLsmEngine` of src/engine/storageEngine.ts. A method returns its result and the new
-- engine. `collate a b` is the sign of `a.localeCompare(b)`, which the platform's collation decides;
-- the time stamp of a write and the outcomes of `Math.random() < 0.5` are arguments.
pub mod Lookup
pub mod Counts
pub mod LogFrames
pub mod Newest
pub mod Sorted
pub mod Range
pub mod Rotation
pub mod Compaction
pub mod Recent
pub mod Timed
pub mod Refinement
pub mod History
pub mod Stale
pub mod Snapshot
use info_crate.Common.{
  ℕ, zero, suc, ◌+◌, Bool, true, false, ◌||◌, Option, none, some, List, [], ◌∷◌, ◌++◌, map, length,
  drop_last, ltb, leb, ◌==◌, if◌then◌else◌, compare, Ordering,
}
use info_crate.Text.{JsString, str_eq, str_lt}
use info_crate.Sort.{sort_by}
use info_crate.Dict
use info_crate.Dict.{Dict}
use info_crate.Wal.{WalFrame, put_frame, delete_frame, put_raw, delete_raw}
use info_crate.SsTable.{
  Entry, SsTableBlockView, SsTableView, create_ss_table, check_bloom_filter, search_blocks, or_else,
}

pub record MemEntry : Type 0 where
  pub value : Option JsString
  pub is_tombstone : Bool
  pub ts : ℕ
  pub height : ℕ

pub record SkipListNodeView : Type 0 where
  pub key : JsString
  pub value : Option JsString
  pub is_tombstone : Bool
  pub timestamp : ℕ
  pub height : ℕ

pub record SimulatedLsmEngine : Type 0 where
  pub memtable : Dict MemEntry
  pub immutable : List (Dict MemEntry)
  pub l0_tables : List SsTableView
  pub l1_tables : List SsTableView
  pub wal_frames : List WalFrame
  pub next_ss_table_id : ℕ
  pub current_offset : ℕ

abbrev pub empty_engine : SimulatedLsmEngine
empty_engine = record {
  memtable = [];
  immutable = [];
  l0_tables = [];
  l1_tables = [];
  wal_frames = [];
  next_ss_table_id = 1;
  current_offset = 0;
}

-- `while (height < 8 && Math.random() < 0.5) height++`
unfoldable pub height_loop : ℕ → List Bool → ℕ
height_loop height [] = height
height_loop height (false ∷ flips) = height
height_loop height (true ∷ flips) =
    let higher = height_loop (height + 1) flips in if ltb height 8 then higher else height

unfoldable pub random_height : List Bool → ℕ
random_height flips = height_loop 1 flips

-- `unshift`, then `pop` past 50 frames.
unfoldable pub log_frame : SimulatedLsmEngine → WalFrame → ℕ → SimulatedLsmEngine
log_frame s frame size =
    let frames = frame ∷ s.wal_frames in
    record s {
      wal_frames = if ltb 50 (length frames) then drop_last frames else frames;
      current_offset = s.current_offset + size;
    }

unfoldable pub height_for : Option MemEntry → List Bool → ℕ
height_for none flips = random_height flips
height_for (some existing) flips = existing.height

unfoldable pub set_memtable :
    SimulatedLsmEngine → JsString → Option JsString → Bool → ℕ → List Bool → SimulatedLsmEngine
set_memtable s key value is_tombstone ts flips =
    let height = height_for (Dict.get key s.memtable) flips in
    record s {
      memtable =
          Dict.set key
            (record { value = value; is_tombstone = is_tombstone; ts = ts; height = height })
            s.memtable;
    }

abbrev pub mem_entry : JsString × MemEntry → Entry
mem_entry (key, entry) = record {
  key = key;
  value = entry.value;
  is_tombstone = entry.is_tombstone;
  timestamp = entry.ts;
}

abbrev pub entries_of : List SsTableBlockView → List Entry
entries_of [] = []
entries_of (b ∷ blocks) = b.entries ++ entries_of blocks

-- The entries of all tables, table by table and block by block.
abbrev pub all_entries : List SsTableView → List Entry
all_entries [] = []
all_entries (t ∷ tables) = entries_of t.blocks ++ all_entries tables

-- The first entry of each key, without the tombstones.
unfoldable pub deduplicate : List JsString → List Entry → List Entry
deduplicate seen [] = []
deduplicate seen (e ∷ entries) =
    let again = deduplicate seen entries in
    let rest = deduplicate (e.key ∷ seen) entries in
    if Dict.has e.key seen then again else if e.is_tombstone then rest else e ∷ rest

unfoldable pub add_l1_table : SimulatedLsmEngine → List Entry → SimulatedLsmEngine
add_l1_table s [] = s
add_l1_table s (e ∷ merged) = record s {
  l1_tables = s.l1_tables ++ create_ss_table s.next_ss_table_id (e ∷ merged) 1 ∷ [];
  next_ss_table_id = s.next_ss_table_id + 1;
}

-- A key of the memtable with its entry, as `getMemtableSnapshot` shows it.
abbrev pub node_view : JsString × MemEntry → SkipListNodeView
node_view (key, entry) = record {
  key = key;
  value = entry.value;
  is_tombstone = entry.is_tombstone;
  timestamp = entry.ts;
  height = entry.height;
}

module _ (collate : JsString → JsString → Ordering) where
  abbrev pub compare_keys : Entry → Entry → Ordering
  compare_keys a b = collate a.key b.key

  -- By key, and the later time stamp first.
  unfoldable pub compare_entries : Entry → Entry → Ordering
  compare_entries a b =
      if str_eq a.key b.key then compare b.timestamp a.timestamp else collate a.key b.key

  unfoldable pub trigger_compaction : SimulatedLsmEngine → SimulatedLsmEngine
  trigger_compaction s =
      if ltb (length s.l0_tables) 2
      then s
      else add_l1_table (record s { l0_tables = [] })
          (deduplicate [] (sort_by compare_entries (all_entries s.l0_tables)))

  unfoldable pub flush : SimulatedLsmEngine → SimulatedLsmEngine
  flush s =
      let entries = sort_by compare_keys (map mem_entry s.memtable) in
      record s {
        memtable = [];
        l0_tables = create_ss_table s.next_ss_table_id entries 0 ∷ s.l0_tables;
        next_ss_table_id = s.next_ss_table_id + 1;
      }

  unfoldable pub rotate_and_flush : SimulatedLsmEngine → SimulatedLsmEngine
  rotate_and_flush s =
      if length s.memtable == 0
      then s
      else if leb 3 (length (flush s).l0_tables)
      then trigger_compaction (flush s)
      else flush s

  unfoldable pub rotate_if_full : SimulatedLsmEngine → SimulatedLsmEngine
  rotate_if_full s = if leb 8 (length s.memtable) then rotate_and_flush s else s

  unfoldable pub put :
      SimulatedLsmEngine → ℕ → List Bool → JsString → JsString → WalFrame × SimulatedLsmEngine
  put s ts flips key value =
      let frame = put_frame s.current_offset ts key value in
      let logged = log_frame s frame (length (put_raw ts key value)) in
      (frame, rotate_if_full (set_memtable logged key (some value) false ts flips))

  unfoldable pub delete :
      SimulatedLsmEngine → ℕ → List Bool → JsString → WalFrame × SimulatedLsmEngine
  delete s ts flips key =
      let frame = delete_frame s.current_offset ts key in
      let logged = log_frame s frame (length (delete_raw ts key)) in
      (frame, rotate_if_full (set_memtable logged key none true ts flips))

  -- The constructor: each pair of the record is put in turn; `inputs` has the time stamp and the
  -- coin tosses of each key's `put`.
  unfoldable pub load :
      (JsString → ℕ × List Bool)
      → List (JsString × JsString)
      → SimulatedLsmEngine
      → SimulatedLsmEngine
  load inputs [] s = s
  load inputs ((key, value) ∷ pairs) s =
      load inputs pairs (put s (inputs key).0 (inputs key).1 key value).1

  unfoldable pub get_memtable_snapshot : SimulatedLsmEngine → List SkipListNodeView
  get_memtable_snapshot s = sort_by (λ a b. collate a.key b.key) (map node_view s.memtable)
