-- ===== src/SsTable/Search.antt =====
-- The search of a table that was built from entries, next to a search of the entries.
use info_crate.Common.{
  ℕ, zero, suc, ◌≤◌, ◌≡◌, refl, sym, ap, ◌∙◌, arith, Bool, true, false, Option, none, List, [], ◌∷◌,
  ◌++◌, length, take, drop, take-append-drop, length-drop-le, Option-cases, inl, inr, if◌then◌else◌,
}
use info_crate.Text.{JsString}
use info_crate.SsTable.{
  Entry, SsTableView, build_blocks, create_ss_table, check_bloom_filter, find_entry, or_else,
  search_blocks,
}
use info_crate.SsTable.Bloom.{check_bloom_filter-create_ss_table}

pub find_entry-append :
    (key : JsString) (xs ys : List Entry)
    → find_entry key (xs ++ ys) ≡ or_else (find_entry key xs) (find_entry key ys)
find_entry-append key [] ys = refl
find_entry-append key (x ∷ xs) ys = ground (arith, find_entry-append key xs ys)

search_blocks-build_blocks :
    (fuel index offset : ℕ) (entries : List Entry) (key : JsString)
    → length entries ≤ fuel
    → search_blocks key (build_blocks fuel index offset entries).0 ≡ find_entry key entries
unfolding search_blocks build_blocks
search_blocks-build_blocks zero index offset [] key h = refl
search_blocks-build_blocks zero index offset (e ∷ entries) key h = absurd (omega arith)
search_blocks-build_blocks (suc fuel) index offset [] key h = refl
search_blocks-build_blocks (suc fuel) index offset (e ∷ entries) key h =
    ap (or_else (find_entry key (take 3 (e ∷ entries)))) (
      search_blocks-build_blocks fuel (suc index) _ (drop 2 entries) key
        (omega (arith, length-drop-le 2 entries)))
    ∙ sym (find_entry-append key (take 3 (e ∷ entries)) (drop 2 entries))
    ∙ ap (find_entry key) (take-append-drop 3 (e ∷ entries))

pub search_blocks-create_ss_table :
    (id level : ℕ) (entries : List Entry) (key : JsString)
    → search_blocks key (create_ss_table id entries level).blocks ≡ find_entry key entries
unfolding create_ss_table
search_blocks-create_ss_table id level entries key =
    search_blocks-build_blocks (length entries) 0 0 entries key (omega arith)

if_same {ℓ} : {A : Type ℓ} {x : A} (b : Bool) → (if b then x else x) ≡ x
if_same true = refl
if_same false = refl

-- The search of a table, its filter first.
abbrev pub lookup_table : SsTableView → JsString → Option Entry
lookup_table table key =
    if check_bloom_filter table key then search_blocks key table.blocks else none

-- A table built from any entries, searched filter first and block by block, yields for each key
-- the first of the entries with that key, and nothing exactly where there is none.
pub lookup_table-create_ss_table :
    (id level : ℕ) (entries : List Entry) (key : JsString)
    → lookup_table (create_ss_table id entries level) key ≡ find_entry key entries
lookup_table-create_ss_table id level entries key = elim (Option-cases (find_entry key entries)) [
  | inl miss ↦ rw (search_blocks-create_ss_table, miss) (if_same (check_bloom_filter _ key))
  | inr (e, hit) ↦
      rw (check_bloom_filter-create_ss_table id level entries key hit)
        (search_blocks-create_ss_table id level entries key)
]
