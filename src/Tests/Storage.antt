-- ===== src/Tests/Storage.antt =====
-- Witnesses on the hashes, the log, the tables and the engine.
use info_crate.Common.{
  ℕ, ◌≡◌, ◌+◌, refl, arith, none, some, List, [], ◌∷◌, map, true, false, bit_xor,
}
use info_crate.Text.{str_eq, units, unit_compare}
use info_crate.Hash.{crc32_ieee}
use info_crate.Hash.Crc.{bitwise_loop, crc32_ieee-eq-bitwise_loop}
use info_crate.Wal.RoundTrip
use info_crate.Wal.RoundTrip.{Write, Fits}
use info_crate.SsTable.{Entry, last_key_or, build_blocks, create_ss_table, find_entry}
use info_crate.SsTable.Search.{lookup_table, lookup_table-create_ss_table}
use info_crate.SsTable.Layout.{IsLaidOut, create_ss_table-IsLaidOut}
use info_crate.Dict
use info_crate.Lsm
use info_crate.Lsm.{SimulatedLsmEngine, empty_engine, trigger_compaction}
use info_crate.Lsm.Counts.{Call, puts, deletes, flushes, run, IsSound, IsValid, run-IsValid}
use info_crate.Lsm.LogFrames.{IsLogged, run-IsLogged}
use info_crate.Lsm.Lookup.{get}
use info_crate.Lsm.Newest.{l1_entry, outcome, answer}
use info_crate.Common.{map}
use info_crate.Lsm.{MemEntry, SimulatedLsmEngine, node_view, get_memtable_snapshot}
use info_crate.Lsm.Refinement.{after_all}
use info_crate.Lsm.History.{get-run}
use info_crate.Lsm.Stale.{get-trigger_compaction_stale}
use info_crate.Tests.{plain, alice, bob, two_entries}

abbrev digits : List ℕ
digits = 49 ∷ 50 ∷ 51 ∷ []

crc32_ieee-eq-bitwise_loop_example :
    crc32_ieee digits ≡ bit_xor (bitwise_loop 0xffff_ffff digits) 0xffff_ffff
crc32_ieee-eq-bitwise_loop_example =
    crc32_ieee-eq-bitwise_loop digits (omega arith, (omega arith, (omega arith, tt)))

abbrev writes : List Write
writes = RoundTrip.put 5 alice (units "v") ∷ RoundTrip.delete 6 alice ∷ []

lookup_table-create_ss_table_example :
    lookup_table (create_ss_table 1 two_entries 0) bob ≡ find_entry bob two_entries
lookup_table-create_ss_table_example = lookup_table-create_ss_table 1 0 two_entries bob

create_ss_table-IsLaidOut_example :
    (end : ℕ) × IsLaidOut 0 0 (create_ss_table 1 two_entries 0).blocks end
    × ((create_ss_table 1 two_entries 0).file_bytes ≡ end + 104)
create_ss_table-IsLaidOut_example = create_ss_table-IsLaidOut 1 0 two_entries

abbrev calls : List Call
calls =
    puts 5 (true ∷ []) alice (units "v")
    ∷ flushes
    ∷ deletes 6 [] alice
    ∷ puts 7 [] bob (units "w")
    ∷ []

run-IsValid_example : IsValid (run unit_compare empty_engine calls)
run-IsValid_example = run-IsValid unit_compare calls

run-IsLogged_example : IsLogged (run unit_compare empty_engine calls)
run-IsLogged_example = run-IsLogged unit_compare calls

get-run_example :
    outcome (get (run unit_compare empty_engine calls) alice) ≡ after_all calls alice (false, none)
unfolding run Lsm.put Lsm.rotate_if_full Lsm.set_memtable Dict.set Lsm.log_frame Lsm.delete
    Lsm.rotate_and_flush Lsm.flush str_eq l1_entry
get-run_example =
    get-run plain alice calls
      (omega arith, tt, (omega arith, tt, (omega arith, tt, (omega arith, tt, tt)))) refl

empty-IsSound : IsSound empty_engine
empty-IsSound = record {
  no_immutable = refl;
  distinct = tt;
  l0_built = tt;
  l1_built = tt;
  l0_bound = omega arith;
}

abbrev one_entry : ℕ → Entry
one_entry ts = record {
  key = alice;
  value = some (units "w");
  is_tombstone = false;
  timestamp = ts;
}

abbrev two_tables : SimulatedLsmEngine
two_tables = record empty_engine {
  l0_tables = create_ss_table 3 (one_entry 9 ∷ []) 0 ∷ create_ss_table 2 (one_entry 8 ∷ []) 0 ∷ [];
}

abbrev old_table : SimulatedLsmEngine
old_table = record two_tables { l1_tables = create_ss_table 1 two_entries 1 ∷ [] }

old_table-IsValid : IsValid old_table
old_table-IsValid = record {
  sound = record {
    no_immutable = refl;
    distinct = tt;
    l0_built = ((3, 0, one_entry 9 ∷ [], refl), ((2, 0, one_entry 8 ∷ [], refl), tt));
    l1_built = ((1, 1, two_entries, refl), tt);
    l0_bound = omega arith;
  };
  memtable_bound = omega arith;
}

get-trigger_compaction_stale_example :
    outcome (get (trigger_compaction unit_compare old_table) alice)
    ≡ answer (find_entry alice two_entries)
unfolding l1_entry create_ss_table build_blocks str_eq unit_compare last_key_or
get-trigger_compaction_stale_example =
    get-trigger_compaction_stale unit_compare old_table alice old_table-IsValid refl refl
      (omega arith)

abbrev some_entry : MemEntry
some_entry = record { value = some (units "v"); ts = 5; is_tombstone = false; height = 2 }

-- `bob` was put before `alice`.
abbrev two_keys : SimulatedLsmEngine
two_keys = record empty_engine { memtable = (bob, some_entry) ∷ (alice, some_entry) ∷ [] }
