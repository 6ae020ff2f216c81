-- ===== src/Wal.antt =====
-- The frames of the write-ahead log that `put` and `delete` of src/engine/storageEngine.ts encode:
-- the CRC-32 of the payload, then the timestamp, the two sizes, the key and the value.
pub mod Recover
pub mod RoundTrip
pub mod Hex
use info_crate.Common.{
  ℕ, zero, suc, ◌+◌, ◌/◌, ◌%◌, Bool, true, false, Option, none, some, List, [], ◌∷◌, ◌++◌, length,
  take, ltb, if◌then◌else◌,
}
use info_crate.Text.{JsString, units, encode, trim}
use info_crate.Text.Format.{to_string, pad_start}
use info_crate.Hash.{crc32_ieee}

pub record WalFrame : Type 0 where
  pub offset : ℕ
  pub crc32 : JsString
  pub crc_valid : Bool
  pub timestamp : ℕ
  pub key_size : ℕ
  pub val_size : ℕ
  pub key : JsString
  pub value : Option JsString
  pub is_tombstone : Bool
  pub raw_hex : JsString

-- `setUint32` and `setBigUint64`, little-endian; what does not fit the width is cut off.
unfoldable pub le_bytes : ℕ → ℕ → List ℕ
le_bytes zero x = []
le_bytes (suc n) x = (x % 256) ∷ le_bytes n (x / 256)

-- [Timestamp (8B)][Key Size (4B)][Value Size (4B)][Key][Value]
unfoldable pub payload : ℕ → List ℕ → List ℕ → List ℕ
unfolding le_bytes
payload ts key_bytes val_bytes =
    le_bytes 8 ts
    ++ (le_bytes 4 (length key_bytes)
        ++ (le_bytes 4 (length val_bytes) ++ (key_bytes ++ val_bytes)))

-- [CRC32 (4B)][Payload]
unfoldable pub raw_frame : ℕ → List ℕ → List ℕ → List ℕ
raw_frame ts key_bytes val_bytes =
    le_bytes 4 (crc32_ieee (payload ts key_bytes val_bytes)) ++ payload ts key_bytes val_bytes

-- `'0x' + checksum.toString(16).padStart(8, '0').toUpperCase()`
unfoldable pub crc_hex : ℕ → JsString
crc_hex checksum = units "0x" ++ pad_start 8 (to_string 16 checksum)

-- Each byte as two digits and a space.
unfoldable pub hex_dump : List ℕ → JsString
hex_dump [] = []
hex_dump (b ∷ bytes) = pad_start 2 (to_string 16 b) ++ (units " " ++ hex_dump bytes)

-- `put` marks a dump that was cut.
unfoldable pub put_hex : List ℕ → JsString
put_hex frame =
    trim (hex_dump (take 32 frame) ++ (if ltb 32 (length frame) then units "..." else []))

unfoldable pub delete_hex : List ℕ → JsString
delete_hex frame = trim (hex_dump (take 32 frame))

-- The bytes that `put` writes.
unfoldable pub put_raw : ℕ → JsString → JsString → List ℕ
put_raw ts key value = raw_frame ts (encode key) (encode value)

-- The bytes that `delete` writes: a value of size 0.
unfoldable pub delete_raw : ℕ → JsString → List ℕ
delete_raw ts key = raw_frame ts (encode key) []

unfoldable pub put_frame : ℕ → ℕ → JsString → JsString → WalFrame
put_frame offset ts key value = record {
  offset = offset;
  crc32 = crc_hex (crc32_ieee (payload ts (encode key) (encode value)));
  crc_valid = true;
  timestamp = ts;
  key_size = length (encode key);
  val_size = length (encode value);
  key = key;
  value = some value;
  is_tombstone = false;
  raw_hex = put_hex (put_raw ts key value);
}

unfoldable pub delete_frame : ℕ → ℕ → JsString → WalFrame
delete_frame offset ts key = record {
  offset = offset;
  crc32 = crc_hex (crc32_ieee (payload ts (encode key) []));
  crc_valid = true;
  timestamp = ts;
  key_size = length (encode key);
  val_size = 0;
  key = key;
  value = none;
  is_tombstone = true;
  raw_hex = delete_hex (delete_raw ts key);
}
