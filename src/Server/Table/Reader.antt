-- ===== src/Server/Table/Reader.antt =====
-- The reader of the table files of go/pkg/lsm/sstable.go, on the bytes of the file. `none` is an
-- error, or the panic of `make` for a size that is read from the file and is never checked.
use info_crate.Common.{
  ℕ, zero, suc, ◌+◌, ◌-◌, Bool, true, false, ◌||◌, ◌&&◌, ◌^◌, not, Option, none, some, List, [],
  ◌∷◌, ◌++◌, length, take, drop, get_or, ltb, ◌==◌, if◌then◌else◌,
}
use info_crate.Text.{str_eq, str_lt}
use info_crate.Wal.Recover.{le_value}
use info_crate.Server.Memtable.{Entry}
use info_crate.Server.Bloom
use info_crate.Server.Bloom.{BloomFilter, BloomMath}
use info_crate.Server.Table.{IndexEntry, footer_size, ss_table_magic_number}

pub record SsTableReader : Type 0 where
  pub file : List ℕ
  pub min_key : List ℕ
  pub max_key : List ℕ
  pub bloom : BloomFilter
  pub index_entries : List IndexEntry

-- `make` of a buffer, of a size from the file, and `ReadAt` into it: a buffer that the file does not
-- fill is an error; a size that cannot be allocated is a panic. Both are `none`.
unfoldable pub read_at : ℕ → ℕ → List ℕ → Option (List ℕ)
read_at offset size file =
    if ltb (length file) (offset + size) then none else some (take size (drop offset file))

-- The loop over the index block; an entry that is not there in full ends it.
unfoldable pub index_loop : ℕ → List ℕ → List IndexEntry
index_loop zero bytes = []
index_loop (suc fuel) bytes =
    let k_len = le_value (take 2 bytes) in
    let rest = drop 18 bytes in
    let more = index_loop fuel (drop k_len rest) in
    if ltb (length bytes) 18 || ltb (length rest) k_len
    then []
    else record {
      last_key = take k_len rest;
      offset = le_value (take 8 (drop 2 bytes));
      length = le_value (take 8 (drop 10 bytes));
    }
      ∷ more

unfoldable pub last_key_of : List IndexEntry → List ℕ
last_key_of [] = []
last_key_of (ie ∷ []) = ie.last_key
last_key_of (ie ∷ je ∷ index) = last_key_of (je ∷ index)

unfoldable pub opened : List ℕ → List IndexEntry → Option BloomFilter → Option SsTableReader
opened file index_entries none = none
opened file index_entries (some bloom) = some (record {
  file = file;
  min_key = [];
  max_key = last_key_of index_entries;
  bloom = bloom;
  index_entries = index_entries;
})

-- What `OpenSSTableReader` makes of the two blocks; an index has fewer entries than bytes.
unfoldable pub open_blocks : List ℕ → Option (List ℕ) → Option (List ℕ) → Option SsTableReader
unfolding opened
open_blocks file none index_bytes = none
open_blocks file (some filter_bytes) none = none
open_blocks file (some filter_bytes) (some index_bytes) =
    opened file (index_loop (length index_bytes) index_bytes) (Bloom.decode filter_bytes)

-- `OpenSSTableReader`
unfoldable pub open_reader : List ℕ → Option SsTableReader
unfolding open_blocks
open_reader file =
    let footer_buf = drop (length file - footer_size) file in
    let filter_offset = le_value (take 8 footer_buf) in
    let filter_length = le_value (take 8 (drop 8 footer_buf)) in
    let index_offset = le_value (take 8 (drop 16 footer_buf)) in
    let index_length = le_value (take 8 (drop 24 footer_buf)) in
    if ltb (length file) footer_size
      || not (le_value (take 8 (drop 32 footer_buf)) == ss_table_magic_number)
    then none
    else open_blocks file (read_at filter_offset filter_length file)
        (read_at index_offset index_length file)

-- `make` panics for a size above the limit of 64-bit platforms.
abbrev pub max_alloc : ℕ
max_alloc = 2 ^ 48

-- The filter block decodes, so that the index block is read.
unfoldable pub filter_opens : Option (List ℕ) → Bool
filter_opens none = false
filter_opens (some filter_bytes) = not (ltb (length filter_bytes) 12)

-- Whether what is not a reader is a panic of `make` and not an error.
unfoldable pub open_panics : List ℕ → Bool
unfolding filter_opens
open_panics file =
    let footer_buf = drop (length file - footer_size) file in
    let filter_offset = le_value (take 8 footer_buf) in
    let filter_length = le_value (take 8 (drop 8 footer_buf)) in
    let index_length = le_value (take 8 (drop 24 footer_buf)) in
    if ltb (length file) footer_size
      || not (le_value (take 8 (drop 32 footer_buf)) == ss_table_magic_number)
    then false
    else if ltb max_alloc filter_length
    then true
    else filter_opens (read_at filter_offset filter_length file) && ltb max_alloc index_length

-- An entry as it stands in a block.
pub record Record : Type 0 where
  pub key : List ℕ
  pub body : List ℕ
  pub is_tombstone : Bool
  pub timestamp : ℕ

-- The header and the payload of the next entry, with what follows; `none` is a `break`.
unfoldable pub next_record : List ℕ → Option (Record × List ℕ)
next_record bytes =
    let k_len = le_value (take 2 bytes) in
    let size = k_len + le_value (take 4 (drop 2 bytes)) in
    let payload = take size (drop 15 bytes) in
    if ltb (length bytes) 15 || ltb (length (drop 15 bytes)) size
    then none
    else some (
      record {
        key = take k_len payload;
        body = drop k_len payload;
        is_tombstone = get_or bytes 6 0 == 1;
        timestamp = le_value (take 8 (drop 7 bytes));
      },
      drop size (drop 15 bytes),
    )

-- `Search(n, LastKey >= key)`: the first index entry whose test holds.
unfoldable pub search : List ℕ → List IndexEntry → Option IndexEntry
search key [] = none
search key (ie ∷ index) = if str_lt ie.last_key key then search key index else some ie

-- What a round of the scan of `Get` does: it ends with the value and the mark of a tombstone or with
-- nothing, or it goes on.
pub data ScanStep : Type 0 where
  finished : Option (List ℕ × Bool) → ScanStep
  continued : List ℕ → ScanStep

unfoldable pub get_step : List ℕ → Option (Record × List ℕ) → ScanStep
get_step key none = finished none
get_step key (some (r, rest)) =
    if str_eq r.key key
    then finished (some (if r.is_tombstone then ([], true) else (r.body, false)))
    else if str_lt key r.key
    then finished none
    else continued rest

unfoldable pub get_loop : ℕ → List ℕ → List ℕ → Option (List ℕ × Bool)
get_loop zero key bytes = none
get_loop (suc fuel) key bytes = elim (get_step key (next_record bytes)) [
  | finished r ↦ r
  | continued rest ↦ get_loop fuel key rest
]

-- A block has fewer entries than bytes.
unfoldable pub get_in : List ℕ → Option (List ℕ) → Option (Option (List ℕ × Bool))
unfolding get_loop
get_in key none = none
get_in key (some block_buf) = some (get_loop (length block_buf) key block_buf)

-- `Get` in the block of an index entry.
unfoldable pub get_block :
    List ℕ → SsTableReader → Option IndexEntry → Option (Option (List ℕ × Bool))
unfolding get_in
get_block key r none = some none
get_block key r (some ie) = get_in key (read_at ie.offset ie.length r.file)

-- `Get` after the filter was asked.
unfoldable pub get_checked : List ℕ → SsTableReader → Option Bool → Option (Option (List ℕ × Bool))
get_checked key r none = none
get_checked key r (some false) = some none
get_checked key r (some true) = get_block key r (search key r.index_entries)

-- `Get`: an error, or what was found.
unfoldable pub get : BloomMath → List ℕ → SsTableReader → Option (Option (List ℕ × Bool))
unfolding get_checked
get math key r = get_checked key r (Bloom.may_contain math key r.bloom)

-- The entry that `ScanAll` makes of a record; a value of size 0 is nil.
unfoldable pub scanned : Record → Entry
scanned r = record {
  key = r.key;
  value = if r.is_tombstone then [] else r.body;
  is_tombstone = r.is_tombstone;
  timestamp = r.timestamp;
}

unfoldable pub scan_loop : ℕ → List ℕ → List Entry
scan_loop zero bytes = []
scan_loop (suc fuel) bytes = elim (next_record bytes) [
  | none ↦ []
  | some (r, rest) ↦ scanned r ∷ scan_loop fuel rest
]

-- A block, and what the later ones yield.
unfoldable pub scan_block : Option (List ℕ) → Option (List Entry) → Option (List Entry)
unfolding scan_loop
scan_block none more = none
scan_block (some block_buf) none = none
scan_block (some block_buf) (some entries) =
    some (scan_loop (length block_buf) block_buf ++ entries)

-- `ScanAll`
unfoldable pub scan_blocks : List ℕ → List IndexEntry → Option (List Entry)
unfolding scan_block
scan_blocks file [] = some []
scan_blocks file (ie ∷ index) =
    scan_block (read_at ie.offset ie.length file) (scan_blocks file index)

unfoldable pub scan_all : SsTableReader → Option (List Entry)
unfolding scan_blocks
scan_all r = scan_blocks r.file r.index_entries
