-- ===== src/Wal/Hex.antt =====
-- The checksum that a frame of src/engine/storageEngine.ts shows, next to the one in its bytes.
use info_crate.Common.{
  ℕ, zero, suc, ◌+◌, ◌-◌, ◌*◌, ◌/◌, ◌%◌, ◌≡◌, ◌<◌, ◌≤◌, refl, sym, ap, ◌∙◌, arith, inl, inr, List,
  [], ◌∷◌, ◌++◌, take, drop, replicate, ltb, ltb→lt, if◌then◌else◌, Bool-cases,
}
use info_crate.Text.{JsString, encode}
use info_crate.Text.Format.{digit, digits_in, to_string, pad_start}
use info_crate.Hash.{crc32_ieee}
use info_crate.Hash.Bounds.{crc32_ieee-lt}
use info_crate.Wal.{
  le_bytes, payload, crc_hex, raw_frame, put_raw, put_frame, delete_raw, delete_frame,
}
use info_crate.Wal.Recover.{le_value}
use info_crate.Wal.RoundTrip.{le_value-le_bytes}

-- The value of a hexadecimal digit in capital letters.
abbrev pub digit_value : ℕ → ℕ
digit_value c = if ltb c 58 then c - 48 else c - 55

-- The value of hexadecimal digits, the highest first, after those that make up `acc`.
unfoldable pub hex_value : ℕ → JsString → ℕ
hex_value acc [] = acc
hex_value acc (c ∷ s) = hex_value (acc * 16 + digit_value c) s

digit_value-digit : (d : ℕ) → d < 16 → digit_value (digit d) ≡ d
unfolding digit
digit_value-digit d h = ground (arith, h)

-- One digit more is read.
hex_value-digit :
    (acc d : ℕ) (s : JsString) → d < 16 → hex_value acc (digit d ∷ s) ≡ hex_value (acc * 16 + d) s
unfolding hex_value
hex_value-digit acc d s h = ap (λ v. hex_value (acc * 16 + v) s) (digit_value-digit d h)

hex_value-digits_in :
    (fuel n : ℕ) (s : JsString) → n < fuel → hex_value 0 (digits_in 16 fuel n s) ≡ hex_value n s
unfolding digits_in
hex_value-digits_in zero n s h = omega (arith, h)
hex_value-digits_in (suc fuel) n s h = elim (Bool-cases (ltb n 16)) [
  | inl small ↦
      rw small (hex_value-digit 0 n s (ltb→lt n 16 small) ∙ ap (λ v. hex_value v s) (omega arith))
  | inr large ↦
      let bound : 16 ≤ n = ground (arith, large) in
      rw large (
        hex_value-digits_in fuel (n / 16) (digit (n % 16) ∷ s) (omega (arith, h, bound))
        ∙ hex_value-digit (n / 16) (n % 16) s (omega arith)
        ∙ ap (λ v. hex_value v s) (omega arith))
]

hex_value-replicate : (k : ℕ) (s : JsString) → hex_value 0 (replicate k 48 ++ s) ≡ hex_value 0 s
unfolding hex_value
hex_value-replicate zero s = refl
hex_value-replicate (suc k) s = hex_value-replicate k s

-- What stands after `0x` reads as the checksum.
hex_value-crc_hex : (checksum : ℕ) → hex_value 0 (drop 2 (crc_hex checksum)) ≡ checksum
unfolding crc_hex pad_start to_string
hex_value-crc_hex checksum =
    hex_value-replicate _ _
    ∙ hex_value-digits_in (suc checksum) checksum [] (omega arith)
    ∙ unfold hex_value in refl

le_value-raw_frame :
    (ts : ℕ) (key val : List ℕ)
    → le_value (take 4 (raw_frame ts key val)) ≡ crc32_ieee (payload ts key val)
unfolding raw_frame le_bytes
le_value-raw_frame ts key val =
    unfold le_bytes in
    le_value-le_bytes 4 (crc32_ieee (payload ts key val)) (crc32_ieee-lt (payload ts key val))

-- The checksum that `put` and `delete` show as text, read as a hexadecimal number, is the number
-- that the first four bytes of the frame hold, the lowest first.
pub crc32-put_frame :
    (offset ts : ℕ) (key value : JsString)
    → (hex_value 0 (drop 2 (put_frame offset ts key value).crc32)
        ≡ le_value (take 4 (put_raw ts key value)))
      × (hex_value 0 (drop 2 (delete_frame offset ts key).crc32)
          ≡ le_value (take 4 (delete_raw ts key)))
unfolding put_frame delete_frame put_raw delete_raw
crc32-put_frame offset ts key value = (
  hex_value-crc_hex _ ∙ sym (le_value-raw_frame ts (encode key) (encode value)),
  hex_value-crc_hex _ ∙ sym (le_value-raw_frame ts (encode key) []),
)
