-- ===== src/Server/Bloom.antt =====
-- The Bloom filter of go/pkg/lsm/bloom.go, an array of bytes. The hashes of the packages hash/fnv and
-- murmur3 and the sizes that floating-point formulas yield are parameters.
pub mod Bits
pub mod Adding
pub mod NoFalseNegative
use info_crate.Common.{
  ℕ, zero, suc, ◌+◌, ◌*◌, ◌/◌, ◌%◌, ◌^◌, Bool, true, false, ◌||◌, Option, none, some, List, [], ◌∷◌,
  ◌++◌, length, take, drop, set, get_elem?, get_or, replicate, bit_and, bit_or, ltb, ◌==◌,
  if◌then◌else◌,
}
use info_crate.Wal.{le_bytes}
use info_crate.Wal.Recover.{u32, le_value}

-- A panic of `Add` is a mark that stays.
pub record BloomFilter : Type 0 where
  pub bits : List ℕ
  pub num_bits : ℕ
  pub num_hash : ℕ
  pub key_count : ℕ
  pub panicked : Bool

-- `Sum64` of `fnv.New64a`, and of murmur3; `uint32(math.Ceil(m))` for `n` keys; `uint32(math.Round(k))` for a number of bits
-- and of keys.
pub record BloomMath : Type 0 where
  pub fnv64a : List ℕ → ℕ
  pub sum64 : List ℕ → ℕ
  pub ceil_bits : ℕ → ℕ
  pub round_hash : ℕ → ℕ → ℕ

-- `bf.bits[byteIdx] |= (1 << bitOffset)`; an index out of the array is a panic, `none`.
unfoldable pub set_byte : ℕ → List ℕ → Option ℕ → Option (List ℕ)
set_byte bit_idx bits none = none
set_byte bit_idx bits (some byte) = some (set bits (bit_idx / 8) (bit_or byte (2 ^ (bit_idx % 8))))

unfoldable pub set_bit : ℕ → List ℕ → Option (List ℕ)
unfolding set_byte
set_bit bit_idx bits = set_byte bit_idx bits (get_elem? bits (bit_idx / 8))

-- `(bf.bits[byteIdx] & (1 << bitOffset)) == 0` ends the loop; an index out of the array is a panic,
-- `none`.
unfoldable pub test_byte : Option ℕ → ℕ → Option Bool → Option Bool
test_byte none bit_offset rest = none
test_byte (some byte) bit_offset rest =
    if bit_and byte (2 ^ bit_offset) == 0 then some false else rest

module _ (math : BloomMath) where
  -- `NewBloomFilter(expectedKeys, 0.01)`
  unfoldable pub new_bloom_filter : ℕ → BloomFilter
  new_bloom_filter expected_keys =
      let n = if expected_keys == 0 then 1 else expected_keys in
      let num_bits = if ltb (math.ceil_bits n) 64 then 64 else math.ceil_bits n in
      let num_hash = math.round_hash num_bits n in
      record {
        bits = replicate (u32 (num_bits + 7) / 8) 0;
        num_bits = num_bits;
        num_hash = if ltb num_hash 1 then 1 else num_hash;
        key_count = 0;
        panicked = false;
      }

  -- `(h1 + uint64(i)*h2) % uint64(bf.numBits)`
  unfoldable pub bit_index : List ℕ → ℕ → ℕ → ℕ
  bit_index key num_bits i = (math.fnv64a key + i * math.sum64 key) % 2 ^ 64 % num_bits

  -- The rounds from `i` on, `n` of them.
  unfoldable pub add_loop : ℕ → ℕ → List ℕ → ℕ → List ℕ → Option (List ℕ)
  unfolding set_bit
  add_loop zero i key num_bits bits = some bits
  add_loop (suc n) i key num_bits bits = elim (set_bit (bit_index key num_bits i) bits) [
    | none ↦ none
    | some after ↦ add_loop n (suc i) key num_bits after
  ]

  unfoldable pub added : BloomFilter → Option (List ℕ) → BloomFilter
  added bf none = record bf { panicked = true }
  added bf (some bits) = record bf { bits = bits; key_count = u32 (bf.key_count + 1) }

  -- `Add`, which is not reached after a panic.
  unfoldable pub add : List ℕ → BloomFilter → BloomFilter
  unfolding add_loop added
  add key bf = if bf.panicked then bf else added bf (add_loop bf.num_hash 0 key bf.num_bits bf.bits)

  unfoldable pub contain_loop : ℕ → ℕ → List ℕ → ℕ → List ℕ → Option Bool
  contain_loop zero i key num_bits bits = some true
  contain_loop (suc n) i key num_bits bits =
      let bit_idx = bit_index key num_bits i in
      let rest = contain_loop n (suc i) key num_bits bits in
      test_byte (get_elem? bits (bit_idx / 8)) (bit_idx % 8) rest

  -- `MayContain`
  unfoldable pub may_contain : List ℕ → BloomFilter → Option Bool
  unfolding contain_loop
  may_contain key bf =
      if bf.num_bits == 0 || length bf.bits == 0
      then some true
      else contain_loop bf.num_hash 0 key bf.num_bits bf.bits

-- `Encode`
unfoldable pub encode : BloomFilter → List ℕ
encode bf =
    le_bytes 4 bf.num_bits ++ (le_bytes 4 bf.num_hash ++ (le_bytes 4 bf.key_count ++ bf.bits))

-- `DecodeBloomFilter`; `none` is `ErrShortRead`.
unfoldable pub decode : List ℕ → Option BloomFilter
decode bytes =
    if ltb (length bytes) 12
    then none
    else some (record {
      bits = drop 12 bytes;
      num_bits = le_value (take 4 bytes);
      num_hash = le_value (take 4 (drop 4 bytes));
      key_count = le_value (take 4 (drop 8 bytes));
      panicked = false;
    })
