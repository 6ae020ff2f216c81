-- ===== src/Hash.antt =====
-- src/engine/crc32.ts: CRC-32 by table, FNV-1a and the Murmur-like hash, and src/engine's use of
-- them. Bit operations on 32-bit numbers are on unsigned bit patterns, as `>>> 0` leaves them.
pub mod Xor
pub mod Crc
pub mod Bounds
use info_crate.Common.{
  ℕ, zero, suc, ◌+◌, ◌*◌, ◌/◌, ◌%◌, ◌^◌, List, [], ◌∷◌, bit_xor, bit_or, ◌==◌, if◌then◌else◌,
  get_or,
}
use info_crate.Text.{JsString}

abbrev pub polynomial : ℕ
polynomial = 0xedb88320

-- One round of the inner loop: `(c & 1) ? (0xedb88320 ^ (c >>> 1)) : (c >>> 1)`.
unfoldable pub crc_round : ℕ → ℕ
crc_round c = if c % 2 == 1 then bit_xor polynomial (c / 2) else c / 2

unfoldable pub crc_rounds : ℕ → ℕ → ℕ
unfolding crc_round
crc_rounds zero c = c
crc_rounds (suc j) c = crc_rounds j (crc_round c)

-- The entries from `i` on, `n` of them.
unfoldable pub table_from : ℕ → ℕ → List ℕ
table_from zero i = []
table_from (suc n) i = crc_rounds 8 i ∷ table_from n (suc i)

unfoldable pub crc32_table : List ℕ
crc32_table = table_from 256 0

-- `CRC32_TABLE[(crc ^ b) & 0xff] ^ (crc >>> 8)`
unfoldable pub crc_step : ℕ → ℕ → ℕ
crc_step crc b = bit_xor (get_or crc32_table (bit_xor crc b % 256) 0) (crc / 256)

unfoldable pub crc_loop : ℕ → List ℕ → ℕ
crc_loop crc [] = crc
crc_loop crc (b ∷ bytes) = crc_loop (crc_step crc b) bytes

unfoldable pub crc32_ieee : List ℕ → ℕ
crc32_ieee bytes = bit_xor (crc_loop 0xffff_ffff bytes) 0xffff_ffff

abbrev pub word64 : ℕ
word64 = 2 ^ 64

-- `hash = ((hash ^ c) * prime) & 0xffffffffffffffff`
unfoldable pub fnv_step : ℕ → ℕ → ℕ
fnv_step hash c = bit_xor hash c * 0x100_0000_01b3 % word64

unfoldable pub fnv_loop : ℕ → JsString → ℕ
unfolding fnv_step
fnv_loop hash [] = hash
fnv_loop hash (c ∷ str) = fnv_loop (fnv_step hash c) str

unfoldable pub fnv1a64 : JsString → ℕ
unfolding fnv_loop
fnv1a64 str = fnv_loop 0xcbf2_9ce4_8422_2325 str

-- `((x << s) | (x >> (64 - s))) & 0xffffffffffffffff`
unfoldable pub rotate_left : ℕ → ℕ → ℕ → ℕ
rotate_left x s t = bit_or (x * 2 ^ s) (x / 2 ^ t) % word64

unfoldable pub murmur_scramble : ℕ → ℕ
unfolding rotate_left
murmur_scramble c = rotate_left (c * 0xcc9e_2d51 % word64) 15 49 * 0x1b87_3593 % word64

unfoldable pub murmur_step : ℕ → ℕ → ℕ
unfolding murmur_scramble
murmur_step h c = (rotate_left (bit_xor h (murmur_scramble c)) 13 51 * 5 + 0xe654_6b64) % word64

unfoldable pub murmur_loop : ℕ → JsString → ℕ
unfolding murmur_step
murmur_loop h [] = h
murmur_loop h (c ∷ str) = murmur_loop (murmur_step h c) str

unfoldable pub murmur3_64 : JsString → ℕ
unfolding murmur_loop
murmur3_64 str = murmur_loop 0x5bd1_e995 str
