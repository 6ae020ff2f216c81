-- ===== src/Lsm/Lookup.antt =====
-- `get` of src/engine/storageEngine.ts: the memtable, the immutable memtables, the tables of level
-- 0 and those of level 1, in this order; the first hit is the answer.
use mathlib.Core.Option
use info_crate.Common.{ℕ, suc, Bool, true, false, ◌||◌, Option, none, List, [], ◌∷◌, if◌then◌else◌}
use info_crate.Text.{JsString, str_lt}
use info_crate.Dict
use info_crate.Dict.{Dict}
use info_crate.SsTable.{Entry, SsTableView, check_bloom_filter, search_blocks, or_else}
use info_crate.Lsm.{MemEntry, SimulatedLsmEngine}

-- The place of a hit, which the source writes as a text.
pub data Location : Type 0 where
  memtable memtable_tombstone : Location
  immutable immutable_tombstone : ℕ → Location
  l0 l0_tombstone l1 l1_tombstone : JsString → Location
  nowhere : Location

pub record GetResult : Type 0 where
  pub value : Option JsString
  pub found : Bool
  pub location : Location
  pub bloom_checked : Bool

-- A hit: a tombstone is not found.
unfoldable pub hit : Option JsString → Bool → Bool → Location → Location → GetResult
hit value is_tombstone bloom_checked live dead =
    if is_tombstone
    then record { value = none; found = false; location = dead; bloom_checked = bloom_checked }
    else record { value = value; found = true; location = live; bloom_checked = bloom_checked }

unfoldable pub get_memtable : Dict MemEntry → JsString → Option GetResult
get_memtable m key =
    Option.map (λ (e : MemEntry). hit e.value e.is_tombstone false memtable memtable_tombstone)
      (Dict.get key m)

unfoldable pub get_immutable : ℕ → List (Dict MemEntry) → JsString → Option GetResult
get_immutable i [] key = none
get_immutable i (m ∷ ms) key =
    or_else
      (Option.map
        (λ (e : MemEntry). hit e.value e.is_tombstone false (immutable i) (immutable_tombstone i))
        (Dict.get key m))
      (get_immutable (suc i) ms key)

unfoldable pub get_l0 : List SsTableView → JsString → Option GetResult
get_l0 [] key = none
get_l0 (table ∷ tables) key =
    or_else
      (if check_bloom_filter table key
        then Option.map
            (λ (e : Entry).
              hit e.value e.is_tombstone true (l0 table.filename) (l0_tombstone table.filename))
            (search_blocks key table.blocks)
        else none)
      (get_l0 tables key)

-- `key < table.minKey || key > table.maxKey`
abbrev pub out_of_range : SsTableView → JsString → Bool
out_of_range table key = str_lt key table.min_key || str_lt table.max_key key

unfoldable pub get_l1 : List SsTableView → JsString → Option GetResult
get_l1 [] key = none
get_l1 (table ∷ tables) key =
    or_else
      (if out_of_range table key
        then none
        else if check_bloom_filter table key
        then Option.map
            (λ (e : Entry).
              hit e.value e.is_tombstone true (l1 table.filename) (l1_tombstone table.filename))
            (search_blocks key table.blocks)
        else none)
      (get_l1 tables key)

abbrev pub not_found : GetResult
not_found = record { value = none; found = false; location = nowhere; bloom_checked = true }

unfoldable pub get : SimulatedLsmEngine → JsString → GetResult
get s key =
    Option.get_or
      (or_else (get_memtable s.memtable key) (
        or_else (get_immutable 0 s.immutable key)
          (or_else (get_l0 s.l0_tables key) (get_l1 s.l1_tables key))))
      not_found
