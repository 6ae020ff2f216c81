-- ===== src/Server/Engine.antt =====
-- The storage engine of go/pkg/lsm/engine.go. Each part under the lock is one step: the calls, what
-- the flush worker does, and the two parts of a compaction. Times, coins and what the system reports
-- of the log are arguments; table files are written without an error. A memtable carries a number in
-- place of its address.
pub mod Background
pub mod Opening
pub mod Layers
pub mod History
pub mod Flush
pub mod Runs
pub mod Crash
use info_crate.Common.{
  ℕ, suc, ◌+◌, ◌*◌, Bool, true, false, ◌||◌, Option, none, some, List, [], ◌∷◌, ◌++◌, length, ltb,
  leb, ◌==◌, if◌then◌else◌,
}
use info_crate.Text.{str_lt}
use info_crate.Wal.Recover.{uint64, WalEntry, Recovered, recovered}
use info_crate.Server.Log
use info_crate.Server.Log.{WalFile, Io, open_wal, recover_wal}
use info_crate.Server.Memtable
use info_crate.Server.Memtable.{Entry, Memtable, new_memtable, all_entries}
use info_crate.Server.Merge.{merge_entries}
use info_crate.Server.Bloom.{BloomMath}
use info_crate.Server.Table.{SsTableMetadata, write_table}
use info_crate.Server.Table.Reader
use info_crate.Server.Table.Reader.{SsTableReader, open_reader, scan_all}

pub record EngineOptions : Type 0 where
  pub memtable_limit_bytes : ℕ
  pub l0_compaction_limit : ℕ

pub record Sealed : Type 0 where
  pub address : ℕ
  pub table : Memtable

-- A reader with the description that the writer gave.
pub record Table : Type 0 where
  pub reader : SsTableReader
  pub meta : SsTableMetadata

pub record Engine : Type 0 where
  pub opts : EngineOptions
  pub wal : WalFile
  pub memtable : Sealed
  pub immutable : List Sealed
  pub l0_tables : List Table
  pub l1_tables : List Table
  pub next_ss_table_id : ℕ
  pub flush_chan : List Sealed
  pub job : Option Sealed
  pub bloom_checks : ℕ
  pub bloom_hits : ℕ
  pub compactions : ℕ

abbrev pub flush_chan_size : ℕ
flush_chan_size = 16

-- `rotateMemtable`; a full channel takes nothing.
unfoldable pub rotate_memtable : Engine → Engine
rotate_memtable e =
    let imm = e.memtable in
    let sealed = record e {
      immutable = e.immutable ++ imm ∷ [];
      memtable = record { address = suc imm.address; table = new_memtable };
    } in
    if ltb (length e.flush_chan) flush_chan_size
    then record sealed { flush_chan = e.flush_chan ++ imm ∷ [] }
    else sealed

-- The check of the size after a write.
unfoldable pub check_size : Engine → Engine
unfolding rotate_memtable
check_size e =
    if leb e.opts.memtable_limit_bytes e.memtable.table.size_bytes then rotate_memtable e else e

-- `Put` behind the write to the log: the engine, and whether there was no error.
unfoldable pub put_logged :
    (ℕ → Bool) → List ℕ → List ℕ → WalFile × Option WalEntry → Engine → Engine × Bool
unfolding check_size
put_logged coins key value (wal, none) e = (record e { wal = wal }, false)
put_logged coins key value (wal, some entry) e =
    let table = Memtable.put coins key value (uint64 entry.timestamp) e.memtable.table in
    (check_size (record e { wal = wal; memtable = record e.memtable { table = table } }), true)

unfoldable pub put : Io → ℕ → (ℕ → Bool) → List ℕ → List ℕ → Engine → Engine × Bool
unfolding put_logged
put io ts coins key value e =
    put_logged coins key value (Log.write io ts key (some value) false e.wal) e

unfoldable pub delete_logged :
    (ℕ → Bool) → List ℕ → WalFile × Option WalEntry → Engine → Engine × Bool
unfolding check_size
delete_logged coins key (wal, none) e = (record e { wal = wal }, false)
delete_logged coins key (wal, some entry) e =
    let table = Memtable.delete coins key (uint64 entry.timestamp) e.memtable.table in
    (check_size (record e { wal = wal; memtable = record e.memtable { table = table } }), true)

unfoldable pub delete : Io → ℕ → (ℕ → Bool) → List ℕ → Engine → Engine × Bool
unfolding delete_logged
delete io ts coins key e = delete_logged coins key (Log.write io ts key none true e.wal) e

-- What a lookup among tables yields, with both counters of the filter; no result is an error.
pub record Looked : Type 0 where
  pub result : Option (Option (List ℕ × Bool))
  pub checks : ℕ
  pub hits : ℕ

abbrev pub not_found : Looked
not_found = record { result = some none; checks = 0; hits = 0 }

-- One table is asked.
unfoldable pub look : Option (Option (List ℕ × Bool)) → Looked
look none = record { result = none; checks = 1; hits = 0 }
look (some none) = record { result = some none; checks = 1; hits = 0 }
look (some (some a)) = record { result = some (some a); checks = 1; hits = 1 }

-- `second` is asked if `first` has no answer; the first case is the result of `first`.
unfoldable pub continue : Option (Option (List ℕ × Bool)) → Looked → Looked → Looked
continue (some none) first second = record {
  result = second.result;
  checks = first.checks + second.checks;
  hits = first.hits + second.hits;
}
continue (some (some a)) first second = first
continue none first second = first

abbrev pub and_then : Looked → Looked → Looked
and_then first second = continue first.result first second

module _ (math : BloomMath) where
  -- The loop over the tables of level 0, from the last one to the first.
  unfoldable pub l0_loop : List ℕ → List Table → Looked
  l0_loop key [] = not_found
  l0_loop key (t ∷ tables) = and_then (l0_loop key tables) (look (Reader.get math key t.reader))

  -- The loop over the tables of level 1, from the first one on.
  unfoldable pub l1_loop : List ℕ → List Table → Looked
  l1_loop key [] = not_found
  l1_loop key (t ∷ tables) =
      let rest = l1_loop key tables in
      if str_lt key t.meta.min_key || str_lt t.meta.max_key key
      then rest
      else and_then (look (Reader.get math key t.reader)) rest

-- The first answer.
abbrev pub or_else : Option (List ℕ × Bool) → Option (List ℕ × Bool) → Option (List ℕ × Bool)
or_else none b = b
or_else (some a) b = some a

-- The loop over the immutable memtables, from the last one to the first.
unfoldable pub immutable_loop : List ℕ → List Sealed → Option (List ℕ × Bool)
immutable_loop key [] = none
immutable_loop key (s ∷ sealed) = or_else (immutable_loop key sealed) (Memtable.get key s.table)

-- The tables are asked if no memtable has the key.
unfoldable pub memory_first : Option (List ℕ × Bool) → Looked → Looked
memory_first none tables = tables
memory_first (some a) tables = record { result = some (some a); checks = 0; hits = 0 }

unfoldable pub look_up : BloomMath → List ℕ → Engine → Looked
unfolding memory_first l0_loop l1_loop immutable_loop
look_up math key e =
    memory_first (or_else (Memtable.get key e.memtable.table) (immutable_loop key e.immutable))
      (and_then (l0_loop math key e.l0_tables) (l1_loop math key e.l1_tables))

-- A tombstone is not found.
unfoldable pub visible : Option (List ℕ × Bool) → Option (List ℕ)
visible none = none
visible (some (value, tombstone)) = if tombstone then none else some value

unfoldable pub returned : Option (Option (List ℕ × Bool)) → Option (Option (List ℕ))
unfolding visible
returned none = none
returned (some a) = some (visible a)

-- `Get`: an error or the value, and the engine with its counters.
unfoldable pub get : BloomMath → List ℕ → Engine → Option (Option (List ℕ)) × Engine
unfolding look_up returned
get math key e =
    let looked = look_up math key e in
    (
      returned looked.result,
      record e {
        bloom_checks = e.bloom_checks + looked.checks;
        bloom_hits = e.bloom_hits + looked.hits;
      },
    )
