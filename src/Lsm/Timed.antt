-- ===== src/Lsm/Timed.antt =====
-- Time stamps that do not run backwards: the memtable is no older than level 0, and level 0 stands
-- with the later entries first.
use info_crate.Common.{
  ℕ, ◌≤◌, arith, Bool, true, false, Option, List, [], ◌∷◌, map, All, All-append, if◌then◌else◌,
  Ordering,
}
use info_crate.Text.{JsString}
use info_crate.Sort.{sort_by}
use info_crate.Sort.Laws.{All-sort_by}
use info_crate.Dict.Laws.{Distinct}
use info_crate.Wal.{WalFrame}
use info_crate.SsTable.{Entry}
use info_crate.Lsm.{
  SimulatedLsmEngine, mem_entry, all_entries, set_memtable, log_frame, add_l1_table, compare_keys,
  flush, trigger_compaction, rotate_and_flush, rotate_if_full,
}
use info_crate.Lsm.Rotation.{entries_of-create_ss_table}
use info_crate.Lsm.Sorted.{IsRecent}
use info_crate.Lsm.Range.{Collation, HasPlainKeys}
use info_crate.Lsm.Recent.{
  NoTwice-map, sort_by-NoTwice, IsAfter, NoTwice-IsRecent-append, All-le_mono, All-set,
}

module _ (c : Collation) where
  open c use {locale_compare, IsPlain}

  -- No entry is later than `last`, the memtable is no older than level 0, and all keys are plain.
  pub record IsTimed (last : ℕ) (s : SimulatedLsmEngine) : Type 0 where
    pub mem_le : All (λ e. e.timestamp ≤ last) (map mem_entry s.memtable)
    pub l0_le : All (λ e. e.timestamp ≤ last) (all_entries s.l0_tables)
    pub later : All (IsAfter (all_entries s.l0_tables)) (map mem_entry s.memtable)
    pub recent : IsRecent (all_entries s.l0_tables)
    pub plain_mem : HasPlainKeys c (map mem_entry s.memtable)
    pub plain_l0 : HasPlainKeys c (all_entries s.l0_tables)

  pub set_memtable-IsTimed :
      (last : ℕ) (s : SimulatedLsmEngine) (key : JsString) (value : Option JsString)
      (is_tombstone : Bool) (ts : ℕ) (flips : List Bool)
      → last ≤ ts
      → IsPlain key
      → IsTimed last s
      → IsTimed ts (set_memtable s key value is_tombstone ts flips)
  unfolding set_memtable
  set_memtable-IsTimed last s key value is_tombstone ts flips up plain t = record {
    mem_le = All-set _ key _ s.memtable (omega arith) (All-le_mono last ts _ up t.mem_le);
    l0_le = All-le_mono last ts _ up t.l0_le;
    later =
        All-set (IsAfter (all_entries s.l0_tables)) key _ s.memtable
          (All-le_mono last ts _ up t.l0_le) t.later;
    recent = t.recent;
    plain_mem = All-set (λ e. IsPlain e.key) key _ s.memtable plain t.plain_mem;
    plain_l0 = t.plain_l0;
  }

  pub log_frame-IsTimed :
      (last : ℕ) (s : SimulatedLsmEngine) (f : WalFrame) (size : ℕ)
      → IsTimed last s
      → IsTimed last (log_frame s f size)
  unfolding log_frame
  log_frame-IsTimed last s f size t = record {
    mem_le = t.mem_le;
    l0_le = t.l0_le;
    later = t.later;
    recent = t.recent;
    plain_mem = t.plain_mem;
    plain_l0 = t.plain_l0;
  }

  pub flush-IsTimed :
      (last : ℕ) (s : SimulatedLsmEngine)
      → Distinct s.memtable
      → IsTimed last s
      → IsTimed last (flush locale_compare s)
  unfolding flush
  flush-IsTimed last s distinct t = record {
    mem_le = tt;
    l0_le =
        rw entries_of-create_ss_table
          (All-append _ sorted _ (All-sort_by cmp _ es t.mem_le) t.l0_le);
    later = tt;
    recent = rw entries_of-create_ss_table (
        NoTwice-IsRecent-append sorted (all_entries s.l0_tables)
          (sort_by-NoTwice cmp es (NoTwice-map s.memtable distinct))
          (All-sort_by cmp (IsAfter (all_entries s.l0_tables)) es t.later) t.recent);
    plain_mem = tt;
    plain_l0 = rw entries_of-create_ss_table (
        All-append (λ e. IsPlain e.key) sorted _
          (All-sort_by cmp (λ e. IsPlain e.key) es t.plain_mem) t.plain_l0);
  }
    where
      es : List Entry
      es = map mem_entry s.memtable

      cmp : Entry → Entry → Ordering
      cmp = compare_keys locale_compare

      sorted : List Entry
      sorted = sort_by cmp es

  add_l1_table-IsTimed :
      (last : ℕ) (s : SimulatedLsmEngine) (merged : List Entry)
      → IsTimed last s
      → IsTimed last (add_l1_table s merged)
  unfolding add_l1_table
  add_l1_table-IsTimed last s [] t = t
  add_l1_table-IsTimed last s (e ∷ merged) t = record {
    mem_le = t.mem_le;
    l0_le = t.l0_le;
    later = t.later;
    recent = t.recent;
    plain_mem = t.plain_mem;
    plain_l0 = t.plain_l0;
  }

  if-IsTimed :
      (last : ℕ) (b : Bool) (s t : SimulatedLsmEngine)
      → IsTimed last s
      → IsTimed last t
      → IsTimed last (if b then s else t)
  if-IsTimed last true s t v w = v
  if-IsTimed last false s t v w = w

  All-nothing : (xs : List Entry) → All (IsAfter []) xs
  All-nothing [] = tt
  All-nothing (x ∷ xs) = (tt, All-nothing xs)

  pub trigger_compaction-IsTimed :
      (last : ℕ) (s : SimulatedLsmEngine)
      → IsTimed last s
      → IsTimed last (trigger_compaction locale_compare s)
  unfolding trigger_compaction
  trigger_compaction-IsTimed last s t = if-IsTimed last _ _ _ t (
      add_l1_table-IsTimed last _ _ (record {
        mem_le = t.mem_le;
        l0_le = tt;
        later = All-nothing (map mem_entry s.memtable);
        recent = tt;
        plain_mem = t.plain_mem;
        plain_l0 = tt;
      }))

  pub rotate_and_flush-IsTimed :
      (last : ℕ) (s : SimulatedLsmEngine)
      → Distinct s.memtable
      → IsTimed last s
      → IsTimed last (rotate_and_flush locale_compare s)
  unfolding rotate_and_flush
  rotate_and_flush-IsTimed last s distinct t =
      let flushed = flush-IsTimed last s distinct t in
      if-IsTimed last _ _ _ t
        (if-IsTimed last _ _ _ (trigger_compaction-IsTimed last _ flushed) flushed)

  pub rotate_if_full-IsTimed :
      (last : ℕ) (s : SimulatedLsmEngine)
      → Distinct s.memtable
      → IsTimed last s
      → IsTimed last (rotate_if_full locale_compare s)
  unfolding rotate_if_full
  rotate_if_full-IsTimed last s distinct t =
      if-IsTimed last _ _ _ (rotate_and_flush-IsTimed last s distinct t) t
