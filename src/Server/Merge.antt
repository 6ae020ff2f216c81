-- ===== src/Server/Merge.antt =====
-- The merge of go/pkg/lsm/compaction.go, from the entries that the tables yield to those that are
-- written.
pub mod Order
pub mod Newest
use info_crate.Common.{
  ℕ, Bool, true, false, ◌&&◌, Option, none, some, List, [], ◌∷◌, ◌++◌, ltb, if◌then◌else◌, Ordering,
}
use info_crate.Text.{str_eq, str_lt}
use info_crate.Sort.{sort_by}
use info_crate.Server.Memtable.{Entry}

-- `sort.SliceStable(entries, less)`: a stable sort.
module _ {A : Type 0} (less : A → A → Bool) where
  abbrev pub less_compare : A → A → Ordering
  less_compare a b = if less b a then Ordering.gt else Ordering.lt

  unfoldable pub slice_stable : List A → List A
  slice_stable xs = sort_by less_compare xs

-- `Gather all entries`: those of the tables, one table after the other.
unfoldable pub gather : List (List Entry) → List Entry
gather [] = []
gather (entries ∷ tables) = entries ++ gather tables

unfoldable pub entry_less : Entry → Entry → Bool
entry_less a b = if str_eq a.key b.key then ltb b.timestamp a.timestamp else str_lt a.key b.key

-- The loop over the sorted entries, from the last key on.
unfoldable pub dedup_loop : Bool → Option (List ℕ) → List Entry → List Entry
dedup_loop bottom last [] = []
dedup_loop bottom none (entry ∷ rest) =
    let more = dedup_loop bottom (some entry.key) rest in
    if entry.is_tombstone && bottom then more else entry ∷ more
dedup_loop bottom (some last) (entry ∷ rest) =
    let same = dedup_loop bottom (some last) rest in
    let more = dedup_loop bottom (some entry.key) rest in
    if str_eq entry.key last
    then same
    else if entry.is_tombstone && bottom
    then more
    else entry ∷ more

-- The entries of the table that `MergeSSTables` writes; without any it writes no table.
unfoldable pub merge_entries : Bool → List (List Entry) → List Entry
unfolding entry_less gather
merge_entries bottom tables = dedup_loop bottom none (slice_stable entry_less (gather tables))
