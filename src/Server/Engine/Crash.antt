-- ===== src/Server/Engine/Crash.antt =====
-- A crash of the engine of go/pkg/lsm/engine.go after a flush.
use info_crate.Common.{
  ℕ, ◌+◌, ◌*◌, ◌-◌, ◌≤◌, ◌≡◌, ◌≢◌, refl, ap, ◌∙◌, sym, arith, Bool, true, false, Option, none, some,
  List, [], ◌∷◌, ◌||◌, ◌&&◌, not, All, take, drop, length, ltb, ltb→lt, ==_iff, ◌==◌, Bool-cases,
  inl, inr, if◌then◌else◌,
}
use info_crate.Wal.Recover.{recover, le_value}
use info_crate.Server.Log
use info_crate.Server.Log.{open_wal, recover_wal}
use info_crate.Server.Memtable
use info_crate.Server.Memtable.{Memtable, Entry, new_memtable, all_entries}
use info_crate.Server.Memtable.Valid.{IsValid}
use info_crate.Server.Memtable.Refinement.{get-new_memtable}
use info_crate.Server.Bloom.{BloomMath}
use info_crate.Server.Table.{footer_size, ss_table_magic_number, write_table}
use info_crate.Server.Table.Reader
use info_crate.Server.Table.Reader.{
  SsTableReader, read_at, open_blocks, open_reader, open_panics, max_alloc, filter_opens,
}
use info_crate.Server.Table.RoundTrip.{TableFits, reader_of, final, open_written, get_written}
use info_crate.Server.Engine.{EngineOptions, Sealed, Table, Engine, immutable_loop, visible, get}
use info_crate.Server.Engine.Background.{remove_sealed, install, flush_job_of, flush_job}
use info_crate.Server.Engine.Opening.{
  replay, load_table, load_tables, engine_of, open_recovered, open_engine,
}
use info_crate.Server.Engine.Layers.{Answers, tables_view, get_lem}
use info_crate.Server.Engine.Flush.{flushed_table, flush_entries_lem, table_told}

flush_job_lem :
    (math : BloomMath) (e : Engine) (imm : Sealed)
    → e.job ≡ some imm
    → (fits : TableFits math (all_entries imm.table)) → all_entries imm.table ≢ []
    → (flush_job math e).0
      ≡ install imm
          (flushed_table math (all_entries imm.table) fits)
          (record e { job = none; next_ss_table_id = e.next_ss_table_id + 1 })
unfolding flush_job
flush_job_lem math e imm job fits full =
    rw (job, flush_job_of)
      (flush_entries_lem math imm (all_entries imm.table) fits (record e { job = none }) full)

install_resets :
    (imm : Sealed) (t : Table) (e : Engine)
    → e.immutable ≡ imm ∷ []
    → (install imm t e).wal.file ≡ []
unfolding install Log.reset
install_resets imm t e only =
    let left : remove_sealed imm.address e.immutable ≡ [] =
      ap (remove_sealed imm.address) only
      ∙ unfold remove_sealed in ground (arith, ==_iff imm.address imm.address) in
    rw left refl

read_at-large :
    (offset size : ℕ) (file : List ℕ)
    → length file ≤ max_alloc
    → ltb max_alloc size ≡ true
    → read_at offset size file ≡ none
unfolding read_at
read_at-large offset size file small large = ground (arith, small, ltb→lt max_alloc size large)

open_blocks-none : (file : List ℕ) (filter : Option (List ℕ)) → open_blocks file filter none ≡ none
unfolding open_blocks
open_blocks-none file none = refl
open_blocks-none file (some bytes) = refl

-- A file that can be allocated as a whole and that opens makes no call of `make` panic.
open_panics-opens :
    (file : List ℕ) (r : SsTableReader)
    → length file ≤ max_alloc
    → open_reader file ≡ some r
    → open_panics file ≡ false
unfolding open_panics open_reader
open_panics-opens file r small opens =
    let footer_buf = drop (length file - footer_size) file in
    let filter_offset = le_value (take 8 footer_buf) in
    let filter_length = le_value (take 8 (drop 8 footer_buf)) in
    let index_offset = le_value (take 8 (drop 16 footer_buf)) in
    let index_length = le_value (take 8 (drop 24 footer_buf)) in
    let invalid =
      ltb (length file) footer_size
      || not (le_value (take 8 (drop 32 footer_buf)) == ss_table_magic_number) in
    let valid = elim (Bool-cases invalid) as (λ _. invalid ≡ false) [
      | inl bad ↦
          let fails : open_reader file ≡ none = unfold open_reader in rw bad refl in
          let clash : none ≡ some r = sym fails ∙ opens in cc
      | inr good ↦ good
    ] in
    rw valid (elim (Bool-cases (ltb max_alloc filter_length)) [
      | inl large ↦
          let fails : open_reader file ≡ none =
            rw (valid, read_at-large filter_offset filter_length file small large)
              (no_filter (read_at index_offset index_length file)) in
          let clash : none ≡ some r = sym fails ∙ opens in cc
      | inr fits ↦ rw fits (elim (Bool-cases (ltb max_alloc index_length)) [
        | inl large ↦
            let fails : open_reader file ≡ none =
              rw (valid, read_at-large index_offset index_length file small large)
                (open_blocks-none file (read_at filter_offset filter_length file)) in
            let clash : none ≡ some r = sym fails ∙ opens in cc
        | inr fits' ↦ rw fits' (and_false (filter_opens (read_at filter_offset filter_length file)))
      ])
    ])
  where
    no_filter : (index : Option (List ℕ)) → open_blocks file none index ≡ none
    no_filter index = unfold open_blocks in refl

    and_false : (b : Bool) → (b && false) ≡ false
    and_false true = refl
    and_false false = refl

-- The tables of a restart on the one file that a flush wrote.
unfoldable restart_table :
    (math : BloomMath) (entries : List Entry) → TableFits math entries → Table
restart_table math entries fits =
    let r = reader_of math entries (final math entries fits) in
    record {
      reader = r;
      meta = record {
        min_key = r.min_key;
        max_key = r.max_key;
        entry_num = 0;
        file_bytes = length (write_table math entries).1;
      };
    }

load_tables_written :
    (math : BloomMath) (entries : List Entry) (fits : TableFits math entries)
    → length (write_table math entries).1 ≤ max_alloc
    → load_tables ((write_table math entries).1 ∷ []) ≡ some (restart_table math entries fits ∷ [])
unfolding load_tables restart_table
load_tables_written math entries fits small =
    let opens = open_written math entries fits in
    rw (open_panics-opens (write_table math entries).1 _ small opens, opens)
      (unfold load_table in refl)

-- The engine that a restart with an empty log gives.
abbrev restarted : EngineOptions → List Table → Engine
restarted opts tables =
    let limit =
      if opts.memtable_limit_bytes == 0 then 16 * 1024 * 1024 else opts.memtable_limit_bytes in
    let l0 = if opts.l0_compaction_limit == 0 then 4 else opts.l0_compaction_limit in
    engine_of (record { memtable_limit_bytes = limit; l0_compaction_limit = l0 }) (open_wal [])
      new_memtable 1 tables

restarts :
    (math : BloomMath) (opts : EngineOptions) (coins : ℕ → ℕ → Bool) (entries : List Entry)
    (fits : TableFits math entries)
    → length (write_table math entries).1 ≤ max_alloc
    → open_engine opts coins [] ((write_table math entries).1 ∷ [])
      ≡ some (restarted opts (restart_table math entries fits ∷ []))
unfolding open_engine open_recovered open_wal recover_wal recover replay
restarts math opts coins entries fits small = rw (load_tables_written math entries fits small) refl

-- A table answers like the memtable that it was written from.
unfoldable answers :
    (math : BloomMath) (m : Memtable) (fits : TableFits math (all_entries m)) (t : Table)
    → IsValid m
    → t.reader ≡ reader_of math (all_entries m) (final math (all_entries m) fits)
    → Answers math t
answers math m fits t v made = record {
  answer = λ q. Memtable.get q m;
  answer_lem = λ q.
      ap (Reader.get math q) made
      ∙ get_written math (all_entries m) fits q
      ∙ ap some (table_told q m v);
}

module _ (math : BloomMath) (e : Engine) (imm : Sealed)
    (fits : TableFits math (all_entries imm.table)) (valid : IsValid imm.table) (q : List ℕ) where
  restarted-get :
      (opts : EngineOptions)
      → (get math q (restarted opts (restart_table math (all_entries imm.table) fits ∷ []))).0
        ≡ some (visible (Memtable.get q imm.table))
  unfolding engine_of immutable_loop tables_view restart_table answers
  restarted-get opts =
      let t = restart_table math (all_entries imm.table) fits in
      let a = answers math imm.table fits t valid refl in
      get_lem math q (restarted opts (t ∷ [])) (a, tt) refl ∙ rw (get-new_memtable q) refl

  -- The active memtable still answers after the flush.
  flushed-get :
      (value : List ℕ)
      → e.job ≡ some imm
      → e.l0_tables ≡ []
      → e.l1_tables ≡ []
      → all_entries imm.table ≢ []
      → Memtable.get q e.memtable.table ≡ some (value, false)
      → (get math q (flush_job math e).0).0 ≡ some (some value)
  unfolding install visible
  flushed-get value job l0 l1 full held =
      let t = flushed_table math (all_entries imm.table) fits in
      let a = answers math imm.table fits t valid refl in
      let after =
        install imm t (record e { job = none; next_ss_table_id = e.next_ss_table_id + 1 }) in
      let tables : All (Answers math) after.l0_tables = rw l0 (a, tt) in
      ap (λ (f : Engine). (get math q f).0) (flush_job_lem math e imm job fits full)
      ∙ get_lem math q after tables l1
      ∙ rw held refl

-- A flush of the only immutable memtable, of a table that fits and a file of at most 2 ^ 48 bytes,
-- when no other table is there: for a key that the flushed memtable does not have and that the active
-- memtable has with a value, the engine answers with the value right after the flush; after a crash
-- at that moment it opens, without an error, on the log that the flush left and the table file that
-- it wrote, and answers that the key is not there.
pub flush_job-forgets :
    (math : BloomMath) (opts : EngineOptions) (coins : ℕ → ℕ → Bool) (e : Engine) (imm : Sealed)
    (q value : List ℕ)
    → e.job ≡ some imm
    → e.immutable ≡ imm ∷ []
    → e.l0_tables ≡ []
    → e.l1_tables ≡ []
    → IsValid imm.table
    → TableFits math (all_entries imm.table)
    → length (write_table math (all_entries imm.table)).1 ≤ max_alloc
    → all_entries imm.table ≢ []
    → Memtable.get q imm.table ≡ none
    → Memtable.get q e.memtable.table ≡ some (value, false)
    → ((get math q (flush_job math e).0).0 ≡ some (some value))
      × (after : Engine) × (open_engine opts coins
            (flush_job math e).0.wal.file
            ((write_table math (all_entries imm.table)).1 ∷ [])
          ≡ some after)
      × ((get math q after).0 ≡ some none)
flush_job-forgets math opts coins e imm q value job only l0 l1 valid fits small full absent held =
    let entries = all_entries imm.table in
    let files = (write_table math entries).1 ∷ [] in
    let log =
      ap (λ (s : Engine). s.wal.file) (flush_job_lem math e imm job fits full)
      ∙ install_resets imm (flushed_table math entries fits)
          (record e { job = none; next_ss_table_id = e.next_ss_table_id + 1 }) only in
    (
      flushed-get math e imm fits valid q value job l0 l1 full held,
      restarted opts (restart_table math entries fits ∷ []),
      ap (λ (f : List ℕ). open_engine opts coins f files) log
          ∙ restarts math opts coins entries fits small,
      restarted-get math e imm fits valid q opts
          ∙ ap (λ o. some (visible o)) absent
          ∙ (unfold visible in refl),
    )
