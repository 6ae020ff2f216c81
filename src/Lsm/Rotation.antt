-- ===== src/Lsm/Rotation.antt =====
-- Writing to the memtable and flushing it, as the newest entries see them.
use info_crate.Common.{
  ℕ, zero, suc, ◌≤◌, ◌≡◌, refl, ap, ◌∙◌, arith, Bool, Option, none, some, List, [], ◌∷◌, ◌++◌, map,
  length, take, drop, take-append-drop, length-drop-le, if◌then◌else◌, Bool-cases, inl, inr,
  Ordering,
}
use info_crate.Text.{JsString, str_eq}
use info_crate.Text.Laws.{str_eq_iff}
use info_crate.Dict
use info_crate.Dict.{Dict}
use info_crate.Dict.Laws.{Distinct}
use info_crate.Wal.{WalFrame}
use info_crate.SsTable.{Entry, build_blocks, create_ss_table, find_entry, or_else}
use info_crate.SsTable.Search.{find_entry-append}
use info_crate.Lsm.{
  MemEntry, SimulatedLsmEngine, mem_entry, entries_of, all_entries, set_memtable, log_frame, flush,
  compare_keys,
}
use info_crate.Lsm.Newest.{newest, l1_entry}
use info_crate.Lsm.Sorted.{find_entry-sort_by, Distinct-KeepsKeys}

pub entries_of-build_blocks :
    (fuel i o : ℕ) (entries : List Entry)
    → length entries ≤ fuel
    → entries_of (build_blocks fuel i o entries).0 ≡ entries
unfolding build_blocks
entries_of-build_blocks zero i o [] h = refl
entries_of-build_blocks zero i o (e ∷ entries) h = absurd (omega arith)
entries_of-build_blocks (suc fuel) i o [] h = refl
entries_of-build_blocks (suc fuel) i o (e ∷ entries) h =
    ap (λ (t : List Entry). take 3 (e ∷ entries) ++ t)
      (entries_of-build_blocks fuel (suc i) _ (drop 2 entries)
        (omega (arith, length-drop-le 2 entries)))
    ∙ take-append-drop 3 (e ∷ entries)

pub entries_of-create_ss_table :
    (id level : ℕ) (entries : List Entry)
    → entries_of (create_ss_table id entries level).blocks ≡ entries
unfolding create_ss_table
entries_of-create_ss_table id level entries =
    entries_of-build_blocks (length entries) 0 0 entries (omega arith)

abbrev pub written : JsString → Option JsString → Bool → ℕ → Entry
written key value is_tombstone ts = record {
  key = key;
  value = value;
  is_tombstone = is_tombstone;
  timestamp = ts;
}

find_entry-set :
    (key q : JsString) (e : MemEntry) (m : Dict MemEntry)
    → find_entry q (map mem_entry (Dict.set key e m))
      ≡ (if str_eq key q then some (mem_entry (key, e)) else find_entry q (map mem_entry m))
unfolding Dict.set
find_entry-set key q e [] = refl
find_entry-set key q e ((j, d) ∷ m) =
    ground (arith, find_entry-set key q e m, str_eq_iff key q, str_eq_iff j key, str_eq_iff j q)

module _ (s : SimulatedLsmEngine) (q : JsString) where
  pub newest-log_frame : (f : WalFrame) (size : ℕ) → newest (log_frame s f size) q ≡ newest s q
  unfolding log_frame newest
  newest-log_frame f size = refl

  pub newest-set_memtable :
      (key : JsString) (value : Option JsString) (is_tombstone : Bool) (ts : ℕ) (flips : List Bool)
      → newest (set_memtable s key value is_tombstone ts flips) q
        ≡ (if str_eq key q then some (written key value is_tombstone ts) else newest s q)
  unfolding set_memtable newest
  newest-set_memtable key value is_tombstone ts flips =
      rw find_entry-set
        (elim (Bool-cases (str_eq key q)) [ inl same ↦ rw same | inr other ↦ rw other ])

  or_else_assoc : (a b c : Option Entry) → or_else (or_else a b) c ≡ or_else a (or_else b c)
  or_else_assoc none b c = refl
  or_else_assoc (some e) b c = refl

  -- A flush moves the memtable's entries to the front of level 0, and hides none.
  pub newest-flush :
      (collate : JsString → JsString → Ordering)
      → Distinct s.memtable
      → newest (flush collate s) q ≡ newest s q
  unfolding flush newest
  newest-flush collate distinct =
      rw
        (
          entries_of-create_ss_table,
          find_entry-append q,
          find_entry-sort_by (compare_keys collate) q (map mem_entry s.memtable)
              (Distinct-KeepsKeys (compare_keys collate) s.memtable distinct),
        )
        (or_else_assoc (find_entry q (map mem_entry s.memtable))
          (find_entry q (all_entries s.l0_tables)) (l1_entry s.l1_tables q))
