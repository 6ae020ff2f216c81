-- ===== src/Lsm/Counts.antt =====
-- Calls on an engine of src/engine/storageEngine.ts, and the invariant of its memtable and tables.
use info_crate.Common.{
  ℕ, ◌<◌, ◌≡◌, refl, arith, Bool, List, [], ◌∷◌, length, All, All-append, Bool-cases, inl, inr, ltb,
  leb, ltb→lt, ◌==◌, Ordering, Option, if◌then◌else◌,
}
use info_crate.Text.{JsString}
use info_crate.Dict.Laws.{Distinct, set-Distinct}
use info_crate.SsTable.{Entry, SsTableView, create_ss_table}
use info_crate.Wal.{WalFrame}
use info_crate.Lsm.{
  SimulatedLsmEngine, empty_engine, set_memtable, log_frame, add_l1_table, trigger_compaction,
  flush, rotate_and_flush, rotate_if_full, put, delete,
}

pub data Call : Type 0 where
  puts : ℕ → List Bool → JsString → JsString → Call
  deletes : ℕ → List Bool → JsString → Call
  flushes compacts : Call

-- The table is the outcome of `createSSTable` on some entries.
abbrev pub IsBuilt : SsTableView → Type 0
IsBuilt t = (id level : ℕ) × (entries : List Entry) × (t ≡ create_ss_table id entries level)

-- What holds also while a method runs.
pub record IsSound (s : SimulatedLsmEngine) : Type 0 where
  pub no_immutable : s.immutable ≡ []
  pub distinct : Distinct s.memtable
  pub l0_built : All IsBuilt s.l0_tables
  pub l1_built : All IsBuilt s.l1_tables
  pub l0_bound : length s.l0_tables < 3

pub record IsValid (s : SimulatedLsmEngine) : Type 0 where
  pub sound : IsSound s
  pub memtable_bound : length s.memtable < 8

add_l1_table-IsSound :
    (s : SimulatedLsmEngine) (merged : List Entry) → IsSound s → IsSound (add_l1_table s merged)
unfolding add_l1_table
add_l1_table-IsSound s [] v = v
add_l1_table-IsSound s (e ∷ merged) v = record {
  no_immutable = v.no_immutable;
  distinct = v.distinct;
  l0_built = v.l0_built;
  l1_built =
      All-append IsBuilt s.l1_tables _ v.l1_built ((s.next_ss_table_id, 1, e ∷ merged, refl), tt);
  l0_bound = v.l0_bound;
}

memtable-add_l1_table :
    (s : SimulatedLsmEngine) (merged : List Entry) → (add_l1_table s merged).memtable ≡ s.memtable
unfolding add_l1_table
memtable-add_l1_table s [] = refl
memtable-add_l1_table s (e ∷ merged) = refl

module _ (collate : JsString → JsString → Ordering) where
  unfoldable pub step : SimulatedLsmEngine → Call → SimulatedLsmEngine
  step s (puts ts flips key value) = (put collate s ts flips key value).1
  step s (deletes ts flips key) = (delete collate s ts flips key).1
  step s flushes = rotate_and_flush collate s
  step s compacts = trigger_compaction collate s

  unfoldable pub run : SimulatedLsmEngine → List Call → SimulatedLsmEngine
  unfolding step
  run s [] = s
  run s (c ∷ cs) = run (step s c) cs

  -- Compaction empties level 0 when it has two tables or more, in any engine.
  trigger_compaction-IsSound :
      (s : SimulatedLsmEngine)
      → s.immutable ≡ []
      → Distinct s.memtable
      → All IsBuilt s.l0_tables
      → All IsBuilt s.l1_tables
      → IsSound (trigger_compaction collate s)
  unfolding trigger_compaction
  trigger_compaction-IsSound s im d b0 b1 = elim (Bool-cases (ltb (length s.l0_tables) 2)) [
    | inl few ↦ rw few (record {
      no_immutable = im;
      distinct = d;
      l0_built = b0;
      l1_built = b1;
      l0_bound = omega (arith, ltb→lt _ _ few);
    })
    | inr many ↦ rw many (
        add_l1_table-IsSound (record s { l0_tables = [] }) _
          (record {
            no_immutable = im;
            distinct = d;
            l0_built = tt;
            l1_built = b1;
            l0_bound = omega arith;
          }))
  ]

  pub memtable-trigger_compaction :
      (s : SimulatedLsmEngine) → (trigger_compaction collate s).memtable ≡ s.memtable
  unfolding trigger_compaction
  memtable-trigger_compaction s = elim (Bool-cases (ltb (length s.l0_tables) 2)) [
    | inl few ↦ rw few
    | inr many ↦ rw many (memtable-add_l1_table (record s { l0_tables = [] }) _)
  ]

  flush-IsBuilt : (s : SimulatedLsmEngine) → IsSound s → All IsBuilt (flush collate s).l0_tables
  unfolding flush
  flush-IsBuilt s v = ((s.next_ss_table_id, 0, _, refl), v.l0_built)

  after_flush :
      (s : SimulatedLsmEngine)
      → IsSound s
      → IsValid (
          if leb 3 (length (flush collate s).l0_tables)
          then trigger_compaction collate (flush collate s)
          else flush collate s)
  after_flush s v = elim (Bool-cases (leb 3 (length (flush collate s).l0_tables))) [
    | inl many ↦ rw many (record {
      sound =
          trigger_compaction-IsSound (flush collate s) (unfold flush in v.no_immutable)
            (unfold flush in tt) (flush-IsBuilt s v) (unfold flush in v.l1_built);
      memtable_bound = rw memtable-trigger_compaction (unfold flush in omega arith);
    })
    | inr few ↦ rw few (record {
      sound = record {
        no_immutable = unfold flush in v.no_immutable;
        distinct = unfold flush in tt;
        l0_built = flush-IsBuilt s v;
        l1_built = unfold flush in v.l1_built;
        l0_bound = ground arith;
      };
      memtable_bound = unfold flush in omega arith;
    })
  ]

  -- A rotation leaves an engine with an empty memtable.
  rotate_and_flush-IsValid :
      (s : SimulatedLsmEngine) → IsSound s → IsValid (rotate_and_flush collate s)
  unfolding rotate_and_flush
  rotate_and_flush-IsValid s v = elim (Bool-cases (length s.memtable == 0)) [
    | inl none_left ↦ rw none_left (record { sound = v; memtable_bound = ground arith })
    | inr some_left ↦ rw some_left (after_flush s v)
  ]

  rotate_if_full-IsValid : (s : SimulatedLsmEngine) → IsSound s → IsValid (rotate_if_full collate s)
  unfolding rotate_if_full
  rotate_if_full-IsValid s v = elim (Bool-cases (leb 8 (length s.memtable))) [
    | inl full ↦ rw full (rotate_and_flush-IsValid s v)
    | inr room ↦ rw room (record { sound = v; memtable_bound = ground arith })
  ]

  pub set_memtable-IsSound :
      (s : SimulatedLsmEngine) (key : JsString) (value : Option JsString) (is_tombstone : Bool)
      (ts : ℕ) (flips : List Bool)
      → IsSound s
      → IsSound (set_memtable s key value is_tombstone ts flips)
  unfolding set_memtable
  set_memtable-IsSound s key value is_tombstone ts flips v = record {
    no_immutable = v.no_immutable;
    distinct = set-Distinct key _ s.memtable v.distinct;
    l0_built = v.l0_built;
    l1_built = v.l1_built;
    l0_bound = v.l0_bound;
  }

  pub log_frame-IsSound :
      (s : SimulatedLsmEngine) (frame : WalFrame) (size : ℕ)
      → IsSound s
      → IsSound (log_frame s frame size)
  unfolding log_frame
  log_frame-IsSound s frame size v = record {
    no_immutable = v.no_immutable;
    distinct = v.distinct;
    l0_built = v.l0_built;
    l1_built = v.l1_built;
    l0_bound = v.l0_bound;
  }

  pub step-IsValid : (s : SimulatedLsmEngine) (c : Call) → IsValid s → IsValid (step s c)
  unfolding step put delete
  step-IsValid s (puts ts flips key value) v =
      rotate_if_full-IsValid _
        (set_memtable-IsSound _ key _ _ ts flips (log_frame-IsSound s _ _ v.sound))
  step-IsValid s (deletes ts flips key) v =
      rotate_if_full-IsValid _
        (set_memtable-IsSound _ key _ _ ts flips (log_frame-IsSound s _ _ v.sound))
  step-IsValid s flushes v = rotate_and_flush-IsValid s v.sound
  step-IsValid s compacts v = record {
    sound =
        let w = v.sound in
        trigger_compaction-IsSound s w.no_immutable w.distinct w.l0_built w.l1_built;
    memtable_bound = rw memtable-trigger_compaction v.memtable_bound;
  }

  run-IsValid_from : (s : SimulatedLsmEngine) (cs : List Call) → IsValid s → IsValid (run s cs)
  unfolding run
  run-IsValid_from s [] v = v
  run-IsValid_from s (c ∷ cs) v = run-IsValid_from (step s c) cs (step-IsValid s c v)

  -- After any calls on a new engine, in any order and with any time stamps, the memtable holds at
  -- most seven keys, each once, level 0 at most two tables, no immutable memtable is left, and every
  -- table is one that `createSSTable` built.
  pub run-IsValid : (cs : List Call) → IsValid (run empty_engine cs)
  run-IsValid cs = run-IsValid_from empty_engine cs (record {
    sound = record {
      no_immutable = refl;
      distinct = tt;
      l0_built = tt;
      l1_built = tt;
      l0_bound = omega arith;
    };
    memtable_bound = omega arith;
  })
