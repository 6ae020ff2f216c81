-- ===== src/Lsm/Compaction.antt =====
-- The merge of level 0 into a table of level 1, as the newest entries see it.
use info_crate.Common.{
  ℕ, ◌≡◌, refl, ap, ◌∙◌, arith, Bool, true, false, Option, none, some, List, [], ◌∷◌, ◌++◌, map,
  length, ltb, if◌then◌else◌, Bool-cases, Option-cases, inl, inr,
}
use info_crate.Text.{JsString}
use info_crate.Sort.{sort_by}
use info_crate.Dict
use info_crate.SsTable.{Entry, SsTableView, create_ss_table, find_entry, or_else}
use info_crate.Lsm.{
  SimulatedLsmEngine, mem_entry, all_entries, deduplicate, compare_entries, add_l1_table,
  trigger_compaction,
}
use info_crate.Lsm.Lookup.{out_of_range}
use info_crate.Lsm.Newest.{answer, newest, l1_entry}
use info_crate.Lsm.Rotation.{entries_of-create_ss_table}
use info_crate.Lsm.Sorted.{
  IsRecent, IsRecent-KeepsKeys, find_entry-sort_by, live, find_entry-deduplicate,
}
use info_crate.Lsm.Range.{
  Collation, HasPlainKeys, IsOrdered, sort_by-IsOrdered, deduplicate-IsOrdered,
  out_of_range-create_ss_table,
}

-- Level 1 is searched from its first table on.
pub l1_entry-append :
    (tables : List SsTableView) (t : SsTableView) (q : JsString)
    → l1_entry (tables ++ t ∷ []) q ≡ or_else (l1_entry tables q) (l1_entry (t ∷ []) q)
unfolding l1_entry
l1_entry-append [] t q = refl
l1_entry-append (u ∷ tables) t q = ground (arith, l1_entry-append tables t q)

-- A table of sorted entries, on level 1, yields its entries.
l1_entry-create_ss_table :
    (id : ℕ) (es : List Entry) (q : JsString)
    → IsOrdered es
    → l1_entry (create_ss_table id es 1 ∷ []) q ≡ find_entry q es
unfolding l1_entry
l1_entry-create_ss_table id es q ordered = elim (Option-cases (find_entry q es)) [
  | inl miss ↦
      rw (entries_of-create_ss_table, miss) (same_none (out_of_range (create_ss_table id es 1) q))
  | inr (e, here) ↦
      rw (out_of_range-create_ss_table id 1 es q ordered here, entries_of-create_ss_table, here)
]
  where
    same_none : (b : Bool) → or_else {A = Entry} (if b then none else none) none ≡ none
    same_none true = refl
    same_none false = refl

or_else-none : (o : Option Entry) → or_else o none ≡ o
or_else-none none = refl
or_else-none (some e) = refl

newest-add_l1_table :
    (s : SimulatedLsmEngine) (merged : List Entry) (q : JsString)
    → IsOrdered merged
    → s.l0_tables ≡ []
    → newest (add_l1_table s merged) q
      ≡ or_else
          (find_entry q (map mem_entry s.memtable))
          (or_else (l1_entry s.l1_tables q) (find_entry q merged))
unfolding add_l1_table newest
newest-add_l1_table s [] q ordered empty = unfold newest in rw (empty, or_else-none)
newest-add_l1_table s (e ∷ merged) q ordered empty =
    rw (empty, l1_entry-append, l1_entry-create_ss_table s.next_ss_table_id (e ∷ merged) q ordered)

answer-live :
    (m o : Option Entry) → answer (or_else m (live o)) ≡ answer (or_else m (or_else o none))
answer-live (some e) o = refl
answer-live none none = refl
answer-live none (some e) = ground arith

module _ (c : Collation) where
  open c use {locale_compare}

  merge : List Entry → List Entry
  merge es = deduplicate [] (sort_by (compare_entries locale_compare) es)

  find_entry-merge :
      (es : List Entry) (q : JsString)
      → IsRecent es
      → find_entry q (merge es) ≡ live (find_entry q es)
  unfolding merge
  find_entry-merge es q recent =
      unfold Dict.has in
      (find_entry-deduplicate q [] (sort_by (compare_entries locale_compare) es)
        ∙ ap live (
            find_entry-sort_by (compare_entries locale_compare) q es
              (IsRecent-KeepsKeys locale_compare es recent)))

  -- The engine answers for a key as before a compaction, if no table of level 1 answered for it, the
  -- entries of level 0 stand with the later time stamps first, and the collation sorts their keys as
  -- `<` does.
  pub answer-trigger_compaction :
      (s : SimulatedLsmEngine) (q : JsString)
      → l1_entry s.l1_tables q ≡ none
      → IsRecent (all_entries s.l0_tables)
      → HasPlainKeys c (all_entries s.l0_tables)
      → answer (newest (trigger_compaction locale_compare s) q) ≡ answer (newest s q)
  unfolding trigger_compaction merge
  answer-trigger_compaction s q fresh recent plain =
      elim (Bool-cases (ltb (length s.l0_tables) 2)) [
        | inl few ↦ rw few
        | inr many ↦
            rw
              (
                many,
                newest-add_l1_table (record s { l0_tables = [] }) (merge (all_entries s.l0_tables))
                    q merged_ordered refl,
                fresh,
                find_entry-merge (all_entries s.l0_tables) q recent,
              )
              (unfold newest in
                rw fresh (
                  answer-live (find_entry q (map mem_entry s.memtable))
                    (find_entry q (all_entries s.l0_tables))))
      ]
    where
      merged_ordered : IsOrdered (merge (all_entries s.l0_tables))
      merged_ordered =
          deduplicate-IsOrdered [] _ (sort_by-IsOrdered c (all_entries s.l0_tables) plain)
