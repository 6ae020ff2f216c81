-- ===== src/Wal/Recover.antt =====
-- `WAL.Recover` of go/pkg/lsm/wal.go: the frames of a log file are read from offset 0 on, up to an
-- incomplete frame, which ends the recovery, or a checksum that does not fit, which is an error.
-- `uint32` sums wrap; a slice out of range is a panic.
use info_crate.Common.{
  ℕ, zero, suc, ◌+◌, ◌-◌, ◌*◌, ◌%◌, ◌^◌, Bool, true, false, not, Option, none, some, List, [], ◌∷◌,
  ◌++◌, length, take, drop, ltb, ◌==◌, if◌then◌else◌,
}
use info_crate.Hash.{crc32_ieee}

-- An `int64`, the conversion from a `uint64`, which takes the upper half to negative numbers, and the
-- conversion to one.
pub data ℤ : Type 0 where
  pos : ℕ → ℤ
  negsuc : ℕ → ℤ

unfoldable pub int64 : ℕ → ℤ
int64 n = if ltb n (2 ^ 63) then pos n else negsuc (2 ^ 64 - 1 - n)

unfoldable pub uint64 : ℤ → ℕ
uint64 (pos n) = n
uint64 (negsuc n) = 2 ^ 64 - 1 - n

pub record WalEntry : Type 0 where
  pub checksum : ℕ
  pub timestamp : ℤ
  pub key : List ℕ
  pub value : Option (List ℕ)
  pub is_tombstone : Bool

pub data Recovered : Type 0 where
  recovered : List WalEntry → Recovered
  corrupt_wal : List WalEntry → Recovered
  panic : Recovered

-- `binary.LittleEndian.Uint32` and `Uint64`
unfoldable pub le_value : List ℕ → ℕ
le_value [] = 0
le_value (b ∷ bytes) = b + 256 * le_value bytes

-- The value of an entry, whose size alone tells a tombstone.
unfoldable pub entry_of : ℕ → ℤ → List ℕ → List ℕ → WalEntry
entry_of checksum ts key [] = record {
  checksum = checksum;
  timestamp = ts;
  key = key;
  value = none;
  is_tombstone = true;
}
entry_of checksum ts key (b ∷ val) = record {
  checksum = checksum;
  timestamp = ts;
  key = key;
  value = some (b ∷ val);
  is_tombstone = false;
}

abbrev pub u32 : ℕ → ℕ
u32 n = n % 2 ^ 32

-- The body of the loop after the header: `k` and `v` are the sizes, `meta` the header's last 16
-- bytes and `rest` what follows the header; the slices of the two buffers are checked where the
-- source takes them. A result other than `none` ends the loop.
unfoldable pub read_frame :
    ℕ → ℤ → ℕ → ℕ → List ℕ → List ℕ → List WalEntry → Option Recovered × List WalEntry × List ℕ
unfolding entry_of
read_frame expected ts k v meta rest entries =
    let data_size = u32 (k + v) in
    let data_buf = take data_size rest in
    let actual = crc32_ieee (meta ++ data_buf) in
    if ltb (u32 (16 + k + v)) 16
    then (some panic, entries, rest)
    else if ltb (length rest) data_size
    then (some (recovered entries), entries, rest)
    else if not (actual == expected)
    then (some (corrupt_wal entries), entries, rest)
    else if ltb data_size k
    then (some panic, entries, rest)
    else (
      none,
      entries ++ entry_of actual ts (take k data_buf) (drop k data_buf) ∷ [],
      drop data_size rest,
    )

-- The body of the loop: a header of 20 bytes that is not there in full ends it.
unfoldable pub next_frame : List ℕ → List WalEntry → Option Recovered × List WalEntry × List ℕ
next_frame file entries =
    if ltb (length file) 20
    then (some (recovered entries), entries, file)
    else read_frame (le_value (take 4 file)) (int64 (le_value (take 8 (drop 4 file))))
        (le_value (take 4 (drop 12 file))) (le_value (take 4 (drop 16 file)))
        (take 16 (drop 4 file)) (drop 20 file) entries

unfoldable pub recover : ℕ → List ℕ → List WalEntry → Recovered
recover zero file entries = recovered entries
recover (suc fuel) file entries =
    let step = next_frame file entries in
    elim step.0 as (λ _. Recovered) [ some r ↦ r | none ↦ recover fuel step.2 step.1 ]
