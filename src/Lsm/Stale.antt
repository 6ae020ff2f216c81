-- ===== src/Lsm/Stale.antt =====
-- Compaction of src/engine/storageEngine.ts where a table of level 1 has the key.
use info_crate.Common.{
  ◌≤◌, ◌≡◌, refl, ap, ◌∙◌, arith, none, some, List, [], ◌∷◌, map, length, ltb, Bool-cases, inl, inr,
  ltb→lt, Ordering,
}
use info_crate.Text.{JsString}
use info_crate.SsTable.{Entry, find_entry}
use info_crate.Lsm.{SimulatedLsmEngine, mem_entry, add_l1_table, trigger_compaction}
use info_crate.Lsm.Lookup.{get}
use info_crate.Lsm.Counts.{compacts, step, IsValid, step-IsValid}
use info_crate.Lsm.Newest.{answer, outcome, newest, l1_entry, outcome-get}
use info_crate.Lsm.Compaction.{l1_entry-append}

newest-add_l1_table_stale :
    (s : SimulatedLsmEngine) (merged : List Entry) (q : JsString) {e : Entry}
    → l1_entry s.l1_tables q ≡ some e
    → find_entry q (map mem_entry s.memtable) ≡ none
    → s.l0_tables ≡ []
    → newest (add_l1_table s merged) q ≡ some e
unfolding add_l1_table newest
newest-add_l1_table_stale s [] q old absent empty = unfold newest in rw (absent, empty, old)
newest-add_l1_table_stale s (d ∷ merged) q old absent empty =
    rw (absent, empty, l1_entry-append, old)

module _ (collate : JsString → JsString → Ordering) where
  -- On a valid engine, once level 1 answers for a key, a compaction of two tables or more brings that old answer back:
  -- where the memtable does not have the key, `get` then answers by the entry of level 1, whatever
  -- level 0 held, a later value or a tombstone.
  pub get-trigger_compaction_stale :
      (s : SimulatedLsmEngine) (q : JsString) {e : Entry}
      → IsValid s
      → l1_entry s.l1_tables q ≡ some e
      → find_entry q (map mem_entry s.memtable) ≡ none
      → 2 ≤ length s.l0_tables
      → outcome (get (trigger_compaction collate s) q) ≡ answer (some e)
  unfolding trigger_compaction step
  get-trigger_compaction_stale s q {e} v old absent two =
      outcome-get (trigger_compaction collate s) q (step-IsValid collate s compacts v).sound
      ∙ ap answer shadowed
    where
      shadowed : newest (trigger_compaction collate s) q ≡ some e
      shadowed = elim (Bool-cases (ltb (length s.l0_tables) 2)) [
        | inl few ↦ absurd (omega (arith, ltb→lt _ _ few))
        | inr many ↦
            rw many (newest-add_l1_table_stale (record s { l0_tables = [] }) _ q old absent refl)
      ]
