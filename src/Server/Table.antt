-- ===== src/Server/Table.antt =====
-- The table files of go/pkg/lsm/sstable.go: the writer, from the entries to the bytes of the file.
-- The system's writes are taken to succeed.
pub mod Reader
pub mod Records
pub mod Index
pub mod Layout
pub mod Written
pub mod Scan
pub mod Lookup
pub mod RoundTrip
use info_crate.Common.{
  ℕ, zero, suc, ◌+◌, Bool, true, false, ◌||◌, Option, none, some, List, [], ◌∷◌, ◌++◌, length, ltb,
  leb, ◌==◌, if◌then◌else◌,
}
use info_crate.Text.{str_lt}
use info_crate.Wal.{le_bytes}
use info_crate.Server.Memtable.{Entry}
use info_crate.Server.Bloom
use info_crate.Server.Bloom.{BloomFilter, BloomMath, new_bloom_filter}

abbrev pub ss_table_magic_number : ℕ
ss_table_magic_number = 0x494e464f43524154

abbrev pub default_block_size : ℕ
default_block_size = 4096

abbrev pub footer_size : ℕ
footer_size = 40

pub record IndexEntry : Type 0 where
  pub last_key : List ℕ
  pub offset : ℕ
  pub length : ℕ

pub record SsTableMetadata : Type 0 where
  pub min_key : List ℕ
  pub max_key : List ℕ
  pub entry_num : ℕ
  pub file_bytes : ℕ

pub record SsTableWriter : Type 0 where
  pub file : List ℕ
  pub curr_block : List ℕ
  pub index_entries : List IndexEntry
  pub bloom : BloomFilter
  pub min_key : List ℕ
  pub max_key : List ℕ
  pub entry_count : ℕ
  pub offset : ℕ

unfoldable pub new_writer : BloomMath → ℕ → SsTableWriter
new_writer math expected_entries = record {
  file = [];
  curr_block = [];
  index_entries = [];
  bloom = new_bloom_filter math expected_entries;
  min_key = [];
  max_key = [];
  entry_count = 0;
  offset = 0;
}

abbrev pub is_empty : List ℕ → Bool
is_empty [] = true
is_empty (b ∷ bytes) = false

-- [KeyLen (2B)][ValLen (4B)][Flags (1B)][Timestamp (8B)][Key][Value]
unfoldable pub encode_entry : Entry → List ℕ
encode_entry e =
    let v_bytes = if e.is_tombstone then [] else e.value in
    le_bytes 2 (length e.key)
    ++ (le_bytes 4 (length v_bytes)
        ++ ((if e.is_tombstone then 1 else 0) ∷ (le_bytes 8 e.timestamp ++ (e.key ++ v_bytes))))

unfoldable pub flush_block : List ℕ → SsTableWriter → SsTableWriter
flush_block last_key w =
    let n = length w.curr_block in
    if is_empty w.curr_block then w else record w {
      file = w.file ++ w.curr_block;
      index_entries =
          w.index_entries ++ record { last_key = last_key; offset = w.offset; length = n } ∷ [];
      offset = w.offset + n;
      curr_block = [];
    }

-- `Add` before the block is flushed.
unfoldable pub append_entry : BloomMath → Entry → SsTableWriter → SsTableWriter
unfolding encode_entry
append_entry math e w = record w {
  min_key = if is_empty w.min_key || str_lt e.key w.min_key then e.key else w.min_key;
  max_key = if str_lt w.max_key e.key then e.key else w.max_key;
  bloom = Bloom.add math e.key w.bloom;
  entry_count = w.entry_count + 1;
  curr_block = w.curr_block ++ encode_entry e;
}

unfoldable pub add : BloomMath → Entry → SsTableWriter → SsTableWriter
unfolding append_entry flush_block
add math e w =
    let after = append_entry math e w in
    if leb default_block_size (length after.curr_block) then flush_block e.key after else after

-- The index block.
unfoldable pub encode_index : List IndexEntry → List ℕ
encode_index [] = []
encode_index (ie ∷ index) =
    le_bytes 2 (length ie.last_key)
    ++ (le_bytes 8 ie.offset ++ (le_bytes 8 ie.length ++ (ie.last_key ++ encode_index index)))

unfoldable pub footer : ℕ → ℕ → ℕ → ℕ → List ℕ
footer filter_offset filter_length index_offset index_length =
    le_bytes 8 filter_offset
    ++ (le_bytes 8 filter_length
        ++ (le_bytes 8 index_offset
            ++ (le_bytes 8 index_length ++ le_bytes 8 ss_table_magic_number)))

-- `Finish`: the description of the table, and the bytes of the file.
unfoldable pub finish : SsTableWriter → SsTableMetadata × List ℕ
unfolding flush_block encode_index footer
finish w =
    let flushed = flush_block w.max_key w in
    let filter_bytes = Bloom.encode flushed.bloom in
    let index_bytes = encode_index flushed.index_entries in
    let index_offset = flushed.offset + length filter_bytes in
    let end = index_offset + length index_bytes in
    (
      record {
        min_key = flushed.min_key;
        max_key = flushed.max_key;
        entry_num = flushed.entry_count;
        file_bytes = end + footer_size;
      },
      flushed.file
          ++ (filter_bytes
              ++ (index_bytes
                  ++ footer flushed.offset (length filter_bytes) index_offset
                      (length index_bytes))),
    )

-- The loop of `Add` over entries.
unfoldable pub add_entries : BloomMath → List Entry → SsTableWriter → SsTableWriter
add_entries math [] w = w
add_entries math (e ∷ entries) w = add_entries math entries (add math e w)

-- `NewSSTableWriter`, `Add` for each entry, and `Finish`.
unfoldable pub write_table : BloomMath → List Entry → SsTableMetadata × List ℕ
unfolding finish
write_table math entries = finish (add_entries math entries (new_writer math (length entries)))
