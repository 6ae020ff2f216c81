-- ===== src/Server/Engine/Background.antt =====
-- What the flush worker and a compaction of go/pkg/lsm/engine.go do to the engine.
use info_crate.Common.{
  ℕ, ◌+◌, Bool, true, false, Option, none, some, List, [], ◌∷◌, ◌++◌, length, ltb, leb, ◌==◌,
  if◌then◌else◌,
}
use info_crate.Server.Log
use info_crate.Server.Log.{WalFile, Io, open_wal, recover_wal}
use info_crate.Server.Memtable.{Entry, all_entries}
use info_crate.Server.Merge.{merge_entries}
use info_crate.Server.Bloom.{BloomMath}
use info_crate.Server.Table.{SsTableMetadata, write_table}
use info_crate.Server.Table.Reader.{SsTableReader, open_reader, scan_all}
use info_crate.Server.Engine.{Sealed, Table, Engine}

-- A free worker takes the next memtable from the channel.
unfoldable pub take_job_of : Option Sealed → List Sealed → Engine → Engine
take_job_of (some s) chan e = e
take_job_of none [] e = e
take_job_of none (s ∷ chan) e = record e { job = some s; flush_chan = chan }

unfoldable pub take_job : Engine → Engine
unfolding take_job_of
take_job e = take_job_of e.job e.flush_chan e

-- The memtable is taken out of the list, at its first place.
unfoldable pub remove_sealed : ℕ → List Sealed → List Sealed
remove_sealed address [] = []
remove_sealed address (s ∷ sealed) =
    if s.address == address then sealed else s ∷ remove_sealed address sealed

-- What `flushMemtable` does under the lock.
unfoldable pub install : Sealed → Table → Engine → Engine
unfolding remove_sealed
install imm t e =
    let left = remove_sealed imm.address e.immutable in
    record e {
      l0_tables = e.l0_tables ++ t ∷ [];
      immutable = left;
      wal = if length left == 0 then Log.reset e.wal else e.wal;
    }

-- `flushMemtable` behind the opening of the table that it wrote, and whether it starts a compaction.
unfoldable pub flush_opened :
    Sealed → SsTableMetadata → Option SsTableReader → Engine → Engine × Bool
unfolding install
flush_opened imm meta none e = (e, false)
flush_opened imm meta (some reader) e =
    let after = install imm (record { reader = reader; meta = meta }) e in
    (after, leb after.opts.l0_compaction_limit (length after.l0_tables))

unfoldable pub flush_entries : BloomMath → Sealed → List Entry → Engine → Engine × Bool
unfolding flush_opened
flush_entries math imm [] e = (e, false)
flush_entries math imm (x ∷ entries) e =
    let written = write_table math (x ∷ entries) in
    flush_opened imm written.0 (open_reader written.1)
      (record e { next_ss_table_id = e.next_ss_table_id + 1 })

-- `flushMemtable` of the worker's memtable, after which the worker is free.
unfoldable pub flush_job_of : BloomMath → Option Sealed → Engine → Engine × Bool
unfolding flush_entries
flush_job_of math none e = (e, false)
flush_job_of math (some imm) e =
    flush_entries math imm (all_entries imm.table) (record e { job = none })

unfoldable pub flush_job : BloomMath → Engine → Engine × Bool
unfolding flush_job_of
flush_job math e = flush_job_of math e.job e

-- The tables that a compaction copies; less than two are none.
unfoldable pub tables_to_compact : Engine → List Table
tables_to_compact e = if ltb (length e.l0_tables) 2 then [] else e.l0_tables

unfoldable pub scan_one :
    Option (List Entry) → Option (List (List Entry)) → Option (List (List Entry))
scan_one none more = none
scan_one (some entries) none = none
scan_one (some entries) (some more) = some (entries ∷ more)

unfoldable pub scan_tables : List Table → Option (List (List Entry))
unfolding scan_one
scan_tables [] = some []
scan_tables (t ∷ tables) = scan_one (scan_all t.reader) (scan_tables tables)

-- What `TriggerCompaction` does under the lock with the new table.
unfoldable pub install_l1 : SsTableMetadata → Option SsTableReader → Engine → Engine
install_l1 meta none e = e
install_l1 meta (some reader) e = record e {
  l1_tables = e.l1_tables ++ record { reader = reader; meta = meta } ∷ [];
  l0_tables = [];
  compactions = e.compactions + 1;
}

unfoldable pub compact_merged : BloomMath → List Entry → Engine → Engine
unfolding install_l1
compact_merged math [] e = e
compact_merged math (x ∷ merged) e =
    let written = write_table math (x ∷ merged) in install_l1 written.0 (open_reader written.1) e

unfoldable pub compact_scanned : BloomMath → Option (List (List Entry)) → Engine → Engine
unfolding compact_merged
compact_scanned math none e = e
compact_scanned math (some tables) e = compact_merged math (merge_entries true tables) e

-- The merge of the tables that were copied and its installation; without tables there is none.
unfoldable pub finish_compaction : BloomMath → List Table → Engine → Engine
unfolding compact_scanned
finish_compaction math [] e = e
finish_compaction math (t ∷ tables) e =
    compact_scanned math (scan_tables (t ∷ tables))
      (record e { next_ss_table_id = e.next_ss_table_id + 1 })
