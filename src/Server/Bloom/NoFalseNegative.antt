-- ===== src/Server/Bloom/NoFalseNegative.antt =====
-- A key that was added to the filter of go/pkg/lsm/bloom.go is found in it, also after the filter was
-- written to a file and read back.
use info_crate.Common.{
  ℕ, zero, suc, ◌+◌, ◌/◌, ◌^◌, ◌<◌, ◌≡◌, arith, refl, Bool, true, false, ◌||◌, some, List, length,
  replicate, ltb, ◌==◌, if◌then◌else◌, All, length-replicate,
}
use info_crate.Dict.{has}
use info_crate.Wal.{le_bytes}
use info_crate.Wal.Recover.{u32}
use info_crate.Wal.RoundTrip.{le_value-le_bytes}
use info_crate.Server.Bloom.{
  BloomFilter, BloomMath, new_bloom_filter, contain_loop, may_contain, encode, decode,
}
use info_crate.Server.Bloom.Bits.{IsByte}
use info_crate.Server.Bloom.Adding.{
  contain_loop-total, add_all-Grows, contain_loop-add_all, add_all, IsUsable,
}

-- The sizes of a new filter fit their 32 bits.
pub record MathFits (math : BloomMath) (expected : ℕ) : Type 0 where
  pub num_bits_fit : (new_bloom_filter math expected).num_bits + 7 < 2 ^ 32
  pub num_hash_fit : (new_bloom_filter math expected).num_hash < 2 ^ 32

decode-encode :
    (bf : BloomFilter)
    → bf.panicked ≡ false
    → bf.num_bits < 2 ^ 32
    → bf.num_hash < 2 ^ 32
    → bf.key_count < 2 ^ 32
    → decode (encode bf) ≡ some bf
unfolding decode encode le_bytes
decode-encode bf runs p q r =
    rw
      (
        le_value-le_bytes 4 bf.num_bits p,
        le_value-le_bytes 4 bf.num_hash q,
        le_value-le_bytes 4 bf.key_count r,
      )
      (ground (arith, runs))

All-replicate : (n : ℕ) → All IsByte (replicate n 0)
All-replicate zero = tt
All-replicate (suc n) = (omega arith, All-replicate n)

new-IsUsable :
    (math : BloomMath) (expected : ℕ)
    → MathFits math expected
    → IsUsable math (new_bloom_filter math expected)
unfolding new_bloom_filter
new-IsUsable math expected fits =
    let n = if expected == 0 then 1 else expected in
    let bits = if ltb (math.ceil_bits n) 64 then 64 else math.ceil_bits n in
    let size : u32 (bits + 7) ≡ bits + 7 = omega (arith, fits.num_bits_fit) in
    record {
      runs = refl;
      positive = ground arith;
      sized = record {
        room = omega (arith, size, length-replicate {A = ℕ} (u32 (bits + 7) / 8) 0);
        bytes = All-replicate (u32 (bits + 7) / 8);
      };
    }

-- Reading back what was written restores the filter.
pub decode-add_all :
    (math : BloomMath) (expected : ℕ) (keys : List (List ℕ))
    → MathFits math expected
    → decode (encode (add_all math keys (new_bloom_filter math expected)))
      ≡ some (add_all math keys (new_bloom_filter math expected))
decode-add_all math expected keys fits =
    let new = new_bloom_filter math expected in
    let start = new-IsUsable math expected fits in
    let grows = add_all-Grows math keys new start in
    decode-encode (add_all math keys new) grows.runs_on
      (omega (arith, grows.num_bits_same, fits.num_bits_fit))
      (omega (arith, grows.num_hash_same, fits.num_hash_fit))
      (grows.key_count_fits (unfold new_bloom_filter in omega arith))

-- With any two hashes, and where the number of hashes and seven more than the number of bits are
-- below 2 ^ 32: adding any keys to a new filter does not panic, the filter that is written and read
-- back is the same, and its check passes for each of the keys.
pub may_contain-add_all :
    (math : BloomMath) (expected : ℕ) (keys : List (List ℕ)) (q : List ℕ)
    → MathFits math expected
    → has q keys ≡ true
    → ((add_all math keys (new_bloom_filter math expected)).panicked ≡ false)
      × (decode (encode (add_all math keys (new_bloom_filter math expected)))
          ≡ some (add_all math keys (new_bloom_filter math expected)))
      × (may_contain math q (add_all math keys (new_bloom_filter math expected)) ≡ some true)
may_contain-add_all math expected keys q fits added =
    let new = new_bloom_filter math expected in
    let start = new-IsUsable math expected fits in
    let grows = add_all-Grows math keys new start in
    (
      grows.runs_on,
      decode-add_all math expected keys fits,
      unfold may_contain in
          rw (grows.num_bits_same, grows.num_hash_same)
            (ground (arith, contain_loop-add_all math keys q new start added)),
    )

-- The check of such a filter returns.
pub may_contain-total :
    (math : BloomMath) (expected : ℕ) (keys : List (List ℕ)) (q : List ℕ)
    → MathFits math expected
    → (b : Bool) × (may_contain math q (add_all math keys (new_bloom_filter math expected))
        ≡ some b)
may_contain-total math expected keys q fits =
    let new = new_bloom_filter math expected in
    let after = add_all math keys new in
    let start = new-IsUsable math expected fits in
    let grows = add_all-Grows math keys new start in
    let loop =
      contain_loop-total math q new.num_bits new.num_hash 0 after.bits start.positive grows.still in
    (
      if after.num_bits == 0 || length after.bits == 0 then true else loop.0,
      may_contain_lem math q after grows.num_bits_same grows.num_hash_same loop.1,
    )
  where
    may_contain_lem :
        (math : BloomMath) (q : List ℕ) (bf : BloomFilter) {m k : ℕ} {b : Bool}
        → bf.num_bits ≡ m
        → bf.num_hash ≡ k
        → contain_loop math k 0 q m bf.bits ≡ some b
        → may_contain math q bf ≡ some (if bf.num_bits == 0 || length bf.bits == 0 then true else b)
    may_contain_lem math q bf same_bits same_hash loop =
        unfold may_contain in rw (same_bits, same_hash, loop) (ground arith)
