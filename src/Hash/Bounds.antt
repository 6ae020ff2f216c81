-- ===== src/Hash/Bounds.antt =====
-- The width of the checksum of src/engine/crc32.ts.
use info_crate.Common.{
  ℕ, zero, suc, ◌+◌, ◌/◌, ◌%◌, ◌^◌, ◌<◌, ◌≤◌, arith, bit_xor, List, [], ◌∷◌, get_or,
}
use info_crate.Hash.{
  polynomial, crc_round, crc_rounds, table_from, crc32_table, crc_step, crc_loop, crc32_ieee,
}
use info_crate.Hash.Xor.{bit_xor-lt}

crc_round-lt : (c : ℕ) → c < 2 ^ 32 → crc_round c < 2 ^ 32
unfolding crc_round
crc_round-lt c h = ground (arith, bit_xor-lt 32 polynomial (c / 2) (omega arith) (omega arith))

crc_rounds-lt : (j c : ℕ) → c < 2 ^ 32 → crc_rounds j c < 2 ^ 32
unfolding crc_rounds
crc_rounds-lt zero c h = h
crc_rounds-lt (suc j) c h = crc_rounds-lt j (crc_round c) (crc_round-lt c h)

get_or-lt : (n i k : ℕ) → i + n ≤ 256 → get_or (table_from n i) k 0 < 2 ^ 32
unfolding table_from
get_or-lt zero i k h = omega arith
get_or-lt (suc n) i zero h = crc_rounds-lt 8 i (omega arith)
get_or-lt (suc n) i (suc k) h = get_or-lt n (suc i) k (omega arith)

get_or-crc32_table-lt : (k : ℕ) → get_or crc32_table k 0 < 2 ^ 32
unfolding crc32_table
get_or-crc32_table-lt k = get_or-lt 256 0 k (omega arith)

crc_step-lt : (crc b : ℕ) → crc < 2 ^ 32 → crc_step crc b < 2 ^ 32
unfolding crc_step
crc_step-lt crc b h =
    bit_xor-lt 32 (get_or crc32_table (bit_xor crc b % 256) 0) (crc / 256)
      (get_or-crc32_table-lt (bit_xor crc b % 256)) (omega arith)

crc_loop-lt : (crc : ℕ) (bytes : List ℕ) → crc < 2 ^ 32 → crc_loop crc bytes < 2 ^ 32
unfolding crc_loop
crc_loop-lt crc [] h = h
crc_loop-lt crc (b ∷ bytes) h = crc_loop-lt (crc_step crc b) bytes (crc_step-lt crc b h)

pub crc32_ieee-lt : (bytes : List ℕ) → crc32_ieee bytes < 2 ^ 32
unfolding crc32_ieee
crc32_ieee-lt bytes =
    bit_xor-lt 32 (crc_loop 0xffff_ffff bytes) 0xffff_ffff
      (crc_loop-lt 0xffff_ffff bytes (omega arith)) (omega arith)
