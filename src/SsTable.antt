-- ===== src/SsTable.antt =====
-- The tables of src/engine/storageEngine.ts: `createSSTable`, `checkBloomFilter` and the search of
-- a table's blocks, with the views of src/types/infocrate.ts.
pub mod Bloom
pub mod Search
pub mod Layout
use info_crate.Common.{
  ℕ, zero, suc, ◌+◌, ◌*◌, ◌%◌, Bool, true, false, Option, none, some, List, [], ◌∷◌, ◌++◌, length,
  take, drop, set, get_or, replicate, find, if◌then◌else◌,
}
use info_crate.Text.{JsString, units, str_eq}
use info_crate.Text.Format.{to_string, pad_start}
use info_crate.Hash.{fnv1a64, murmur3_64}

pub record Entry : Type 0 where
  pub key : JsString
  pub value : Option JsString
  pub is_tombstone : Bool
  pub timestamp : ℕ

pub record SsTableBlockView : Type 0 where
  pub block_index : ℕ
  pub offset : ℕ
  pub length : ℕ
  pub last_key : JsString
  pub entries : List Entry

pub record SsTableView : Type 0 where
  pub id : ℕ
  pub level : ℕ
  pub min_key : JsString
  pub max_key : JsString
  pub entry_count : ℕ
  pub file_bytes : ℕ
  pub filename : JsString
  pub bloom_bit_array : List Bool
  pub bloom_num_bits : ℕ
  pub bloom_num_hash : ℕ
  pub blocks : List SsTableBlockView

-- `Math.abs((h1 + i * h2) % numBits)`
unfoldable pub bloom_bit : ℕ → JsString → ℕ → ℕ
bloom_bit num_bits key i = (fnv1a64 key % num_bits + i * (murmur3_64 key % num_bits)) % num_bits

-- The rounds `i`, `i + 1`, … of the loop that sets a key's bits, `n` of them.
unfoldable pub set_bits : ℕ → ℕ → JsString → List Bool → List Bool
set_bits zero i key bits = bits
set_bits (suc n) i key bits = set_bits n (suc i) key (set bits (bloom_bit 64 key i) true)

unfoldable pub fill_bloom : List Entry → List Bool → List Bool
fill_bloom [] bits = bits
fill_bloom (e ∷ entries) bits = fill_bloom entries (set_bits 4 0 e.key bits)

-- `chunk[chunk.length - 1].key`
unfoldable pub last_key_or : JsString → List Entry → JsString
last_key_or key [] = key
last_key_or key (e ∷ entries) = last_key_or e.key entries

abbrev pub value_length : Option JsString → ℕ
value_length none = 0
value_length (some v) = length v

-- `chunk.reduce((sum, item) => sum + item.key.length + (item.value?.length || 0) + 15, 0)`
unfoldable pub chunk_length : ℕ → List Entry → ℕ
chunk_length sum [] = sum
chunk_length sum (e ∷ chunk) = chunk_length (sum + length e.key + value_length e.value + 15) chunk

-- The loop over the entries in steps of three; the fuel is their number.
unfoldable pub build_blocks : ℕ → ℕ → ℕ → List Entry → List SsTableBlockView × ℕ
build_blocks zero index offset entries = ([], offset)
build_blocks (suc fuel) index offset [] = ([], offset)
build_blocks (suc fuel) index offset (e ∷ entries) =
    let chunk = take 3 (e ∷ entries) in
    let block : SsTableBlockView = record {
      block_index = index;
      offset = offset;
      length = chunk_length 0 chunk;
      last_key = last_key_or [] chunk;
      entries = chunk;
    } in
    let (blocks, end) =
      build_blocks fuel (suc index) (offset + chunk_length 0 chunk) (drop 3 (e ∷ entries)) in
    (block ∷ blocks, end)

abbrev pub first_key : List Entry → JsString
first_key [] = []
first_key (e ∷ entries) = e.key

unfoldable pub filename_of : ℕ → ℕ → JsString
filename_of level id =
    units "sstable_L"
    ++ (to_string 10 level ++ (units "_" ++ (pad_start 6 (to_string 10 id) ++ units ".sst")))

unfoldable pub create_ss_table : ℕ → List Entry → ℕ → SsTableView
create_ss_table id entries level =
    let (blocks, offset) = build_blocks (length entries) 0 0 entries in
    record {
      id = id;
      level = level;
      min_key = first_key entries;
      max_key = last_key_or [] entries;
      entry_count = length entries;
      file_bytes = offset + 64 + 40;
      filename = filename_of level id;
      bloom_bit_array = fill_bloom entries (replicate 64 false);
      bloom_num_bits = 64;
      bloom_num_hash = 4;
      blocks = blocks;
    }

-- The rounds `i`, `i + 1`, … of the check; a bit that is not there reads as unset.
unfoldable pub check_bits : ℕ → ℕ → ℕ → JsString → List Bool → Bool
check_bits zero i num_bits key bits = true
check_bits (suc n) i num_bits key bits =
    let rest = check_bits n (suc i) num_bits key bits in
    if get_or bits (bloom_bit num_bits key i) false then rest else false

unfoldable pub check_bloom_filter : SsTableView → JsString → Bool
check_bloom_filter table key =
    check_bits table.bloom_num_hash 0 table.bloom_num_bits key table.bloom_bit_array

-- The first entry with the key.
abbrev pub find_entry : JsString → List Entry → Option Entry
find_entry key = find (λ e. str_eq e.key key)

abbrev pub or_else {ℓ} : {A : Type ℓ} → Option A → Option A → Option A
or_else (some a) o = some a
or_else none o = o

-- The loops over a table's blocks and their entries.
unfoldable pub search_blocks : JsString → List SsTableBlockView → Option Entry
search_blocks key [] = none
search_blocks key (b ∷ blocks) = or_else (find_entry key b.entries) (search_blocks key blocks)
