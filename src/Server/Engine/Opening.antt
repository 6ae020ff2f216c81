-- ===== src/Server/Engine/Opening.antt =====
-- `OpenEngine` of go/pkg/lsm/engine.go, on the bytes of the files.
use info_crate.Common.{
  ℕ, suc, ◌*◌, Bool, Option, none, some, List, [], ◌∷◌, length, ◌==◌, if◌then◌else◌,
}
use mathlib.Core.Option
use info_crate.Wal.Recover.{uint64, WalEntry, Recovered, recovered}
use info_crate.Server.Log.{WalFile, open_wal, recover_wal}
use info_crate.Server.Memtable
use info_crate.Server.Memtable.{Entry, Memtable, new_memtable, all_entries}
use info_crate.Server.Table.Reader.{SsTableReader, open_reader, open_panics}
use info_crate.Server.Engine.{EngineOptions, Table, Engine}

-- The loop of `OpenEngine` over the entries of the log.
unfoldable pub replay : (ℕ → ℕ → Bool) → List WalEntry → Memtable → Memtable
replay coins [] m = m
replay coins (w ∷ entries) m =
    let more = replay (λ k. coins (suc k)) entries in
    let value = elim w.value as (λ _. List ℕ) [ none ↦ [] | some v ↦ v ] in
    more (
      if w.is_tombstone
      then Memtable.delete (coins 0) w.key (uint64 w.timestamp) m
      else Memtable.put (coins 0) w.key value (uint64 w.timestamp) m)

-- `loadExistingSSTables`: every file becomes a table of level 0, in the order of the directory; one
-- that does not open is left out, and a panic on the way is `none`.
unfoldable pub load_table : List ℕ → Option SsTableReader → List Table → List Table
load_table file none tables = tables
load_table file (some reader) tables =
    record {
      reader = reader;
      meta = record {
        min_key = reader.min_key;
        max_key = reader.max_key;
        entry_num = 0;
        file_bytes = length file;
      };
    }
    ∷ tables

unfoldable pub load_tables : List (List ℕ) → Option (List Table)
unfolding load_table
load_tables [] = some []
load_tables (file ∷ files) =
    let rest = load_tables files in
    if open_panics file then none else Option.map (load_table file (open_reader file)) rest

-- The engine with tables from a number of files.
unfoldable pub engine_of : EngineOptions → WalFile → Memtable → ℕ → List Table → Engine
engine_of opts wal memtable file_count tables = record {
  opts = opts;
  wal = wal;
  memtable = record { address = 0; table = memtable };
  immutable = [];
  l0_tables = tables;
  l1_tables = [];
  next_ss_table_id = file_count;
  flush_chan = [];
  job = none;
  bloom_checks = 0;
  bloom_hits = 0;
  compactions = 0;
}

unfoldable pub open_recovered :
    EngineOptions → (ℕ → ℕ → Bool) → WalFile → List (List ℕ) → Recovered → Option Engine
unfolding engine_of replay load_tables
open_recovered opts coins wal files (recovered entries) =
    Option.map (engine_of opts wal (replay coins entries new_memtable) (length files))
      (load_tables files)
open_recovered opts coins wal files r = none

-- `OpenEngine` on the bytes of the log and of the table files; `none` is an error or a
-- panic.
unfoldable pub open_engine : EngineOptions → (ℕ → ℕ → Bool) → List ℕ → List (List ℕ) → Option Engine
unfolding open_recovered
open_engine opts coins log files =
    let limit =
      if opts.memtable_limit_bytes == 0 then 16 * 1024 * 1024 else opts.memtable_limit_bytes in
    let l0 = if opts.l0_compaction_limit == 0 then 4 else opts.l0_compaction_limit in
    open_recovered (record { memtable_limit_bytes = limit; l0_compaction_limit = l0 }) coins
      (open_wal log) files (recover_wal (open_wal log))
