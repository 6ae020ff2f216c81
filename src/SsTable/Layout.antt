-- ===== src/SsTable/Layout.antt =====
-- The layout of a table's blocks.
use info_crate.Common.{
  ℕ, zero, suc, ◌+◌, ◌≤◌, ◌<◌, ◌≡◌, refl, arith, List, [], ◌∷◌, length, take, drop,
}
use info_crate.SsTable.{
  Entry, SsTableBlockView, chunk_length, last_key_or, build_blocks, create_ss_table,
}

-- From index `i` and offset `o` on the blocks are numbered in order, lie end to end up to `end`,
-- and hold one to three entries each, under the last one's key.
abbrev pub IsLaidOut : ℕ → ℕ → List SsTableBlockView → ℕ → Type 0
IsLaidOut i o [] end = o ≡ end
IsLaidOut i o (b ∷ blocks) end =
    (b.block_index ≡ i)
    × (b.offset ≡ o)
    × (b.length ≡ chunk_length 0 b.entries)
    × (0 < length b.entries)
    × (length b.entries ≤ 3)
    × (b.last_key ≡ last_key_or [] b.entries)
    × IsLaidOut (suc i) (o + b.length) blocks end

length-take-le : (n : ℕ) (xs : List Entry) → length (take n xs) ≤ n
length-take-le zero xs = omega arith
length-take-le (suc n) [] = omega arith
length-take-le (suc n) (x ∷ xs) = omega (arith, length-take-le n xs)

build_blocks-IsLaidOut :
    (fuel i o : ℕ) (entries : List Entry)
    → IsLaidOut i o (build_blocks fuel i o entries).0 (build_blocks fuel i o entries).1
unfolding build_blocks
build_blocks-IsLaidOut zero i o entries = refl
build_blocks-IsLaidOut (suc fuel) i o [] = refl
build_blocks-IsLaidOut (suc fuel) i o (e ∷ entries) = (
  refl,
  refl,
  refl,
  omega arith,
  omega (arith, length-take-le 2 entries),
  refl,
  build_blocks-IsLaidOut fuel (suc i) (o + chunk_length 0 (take 3 (e ∷ entries))) (drop 2 entries),
)

-- The blocks of a table are numbered from 0, lie end to end from offset 0, hold one to three
-- entries each, name the key of their last entry, and together with the 104 bytes of filter and
-- footer make up the file.
pub create_ss_table-IsLaidOut :
    (id level : ℕ) (entries : List Entry)
    → (end : ℕ) × IsLaidOut 0 0 (create_ss_table id entries level).blocks end
      × ((create_ss_table id entries level).file_bytes ≡ end + 104)
unfolding create_ss_table
create_ss_table-IsLaidOut id level entries = (
  (build_blocks (length entries) 0 0 entries).1,
  build_blocks-IsLaidOut (length entries) 0 0 entries,
  omega arith,
)
