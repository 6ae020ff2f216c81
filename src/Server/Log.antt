-- ===== src/Server/Log.antt =====
-- The write-ahead log of go/pkg/lsm/wal.go as a file of bytes. The time of a write, as the 64 bits
-- of its `int64`, and what the operating system reports are arguments; the lock makes each call one step.
pub mod Torn
pub mod Recovery
use info_crate.Common.{
  ℕ, ◌+◌, ◌-◌, ◌%◌, ◌^◌, Bool, true, false, Option, none, some, List, [], ◌++◌, length, take,
  replicate, ltb, if◌then◌else◌,
}
use info_crate.Hash.{crc32_ieee}
use info_crate.Wal.{le_bytes}
use info_crate.Wal.Recover.{WalEntry, Recovered, u32, recover, int64}

pub record WalFile : Type 0 where
  pub file : List ℕ
  pub byte_size : ℕ

-- What the system reports of `file.Write` and `file.Sync`: a write that fails has put a part of the
-- frame into the file.
pub data Io : Type 0 where
  io_ok io_sync_failed : Io
  io_write_failed : ℕ → Io

-- `OpenWAL` on a file that is there, or on a new one of no bytes.
unfoldable pub open_wal : List ℕ → WalFile
open_wal file = record { file = file; byte_size = length file }

-- `vBytes`: a tombstone or a nil value has none.
unfoldable pub value_bytes : Option (List ℕ) → Bool → List ℕ
value_bytes none is_tombstone = []
value_bytes (some value) is_tombstone = if is_tombstone then [] else value

-- The bytes of the value are copied only if their size, of 32 bits, is not 0.
unfoldable pub copied : List ℕ → List ℕ
copied v_bytes = if ltb 0 (u32 (length v_bytes)) then v_bytes else replicate (length v_bytes) 0

unfoldable pub write_payload : ℕ → List ℕ → List ℕ → List ℕ
unfolding copied
write_payload ts key v_bytes =
    le_bytes 8 ts
    ++ (le_bytes 4 (u32 (length key))
        ++ (le_bytes 4 (u32 (length v_bytes)) ++ (key ++ copied v_bytes)))

-- The frame that `Write` hands to the system.
unfoldable pub write_frame : ℕ → List ℕ → List ℕ → List ℕ
write_frame ts key v_bytes =
    le_bytes 4 (crc32_ieee (write_payload ts key v_bytes)) ++ write_payload ts key v_bytes

-- `Write`: the file, and the entry if there was no error.
unfoldable pub write :
    Io → ℕ → List ℕ → Option (List ℕ) → Bool → WalFile → WalFile × Option WalEntry
unfolding value_bytes write_frame
write (io_write_failed n) ts key value is_tombstone w =
    let frame = write_frame ts key (value_bytes value is_tombstone) in
    (record w { file = w.file ++ take n frame }, none)
write io_sync_failed ts key value is_tombstone w =
    let frame = write_frame ts key (value_bytes value is_tombstone) in
    (record w { file = w.file ++ frame }, none)
write io_ok ts key value is_tombstone w =
    let frame = write_frame ts key (value_bytes value is_tombstone) in
    (
      record { file = w.file ++ frame; byte_size = w.byte_size + length frame },
      some (record {
        checksum = crc32_ieee (write_payload ts key (value_bytes value is_tombstone));
        timestamp = int64 ts;
        key = key;
        value = value;
        is_tombstone = is_tombstone;
      }),
    )

-- `Reset`, without an error of the system.
unfoldable pub reset : WalFile → WalFile
reset w = record { file = []; byte_size = 0 }

-- `Size`
unfoldable pub size : WalFile → ℕ
size w = w.byte_size

-- `Recover`; a file has fewer frames than bytes.
unfoldable pub recover_wal : WalFile → Recovered
recover_wal w = recover (length w.file) w.file []
