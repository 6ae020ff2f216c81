-- ===== src/Server/Engine/Flush.antt =====
-- What a flush of go/pkg/lsm/engine.go changes, and what it loses.
use info_crate.Common.{
  ℕ, ◌+◌, ◌≡◌, ◌≢◌, refl, ap, ◌∙◌, sym, arith, Bool, Option, none, some, List, [], ◌∷◌, ◌++◌, map,
  All, subst, ==_iff,
}
use info_crate.Dict
use info_crate.Dict.{Dict}
use info_crate.Server.Memtable
use info_crate.Server.Memtable.{
  SkipListNode, Memtable, Entry, new_memtable, entry_of, entries_from, all_entries,
}
use info_crate.Server.Memtable.Place.{view}
use info_crate.Server.Memtable.Valid.{IsValid}
use info_crate.Server.Memtable.Refinement.{get-view, entries_from_lem}
use info_crate.Server.Merge.Order.{find_entry}
use info_crate.Server.Bloom.{BloomMath}
use info_crate.Server.Table.{write_table}
use info_crate.Server.Table.Reader
use info_crate.Server.Table.Reader.{SsTableReader, open_reader}
use info_crate.Server.Table.Records.{stored}
use info_crate.Server.Table.Lookup.{told}
use info_crate.Server.Table.RoundTrip.{TableFits, reader_of, final, open_written, get_written}
use info_crate.Server.Engine.{Sealed, Table, Engine, or_else, immutable_loop}
use info_crate.Server.Engine.Background.{
  remove_sealed, install, flush_opened, flush_entries, flush_job_of, flush_job,
}
use info_crate.Server.Engine.Layers.{Answers, tables_view, engine_view}
use info_crate.Server.Engine.History.{Agrees, IsSealed, waiting, or_else_assoc}

-- What a table of the copied nodes tells is what the memtable says.
told-view :
    (q : List ℕ) (nodes : List SkipListNode)
    → told (find_entry q (map entry_of nodes)) ≡ view q nodes
unfolding find_entry view
told-view q [] = refl
told-view q (n ∷ nodes) = ground (arith, told-view q nodes)

pub table_told :
    (q : List ℕ) (m : Memtable) → IsValid m → told (find_entry q (all_entries m)) ≡ Memtable.get q m
unfolding all_entries
table_told q m v =
    ap (λ (es : List Entry). told (find_entry q es)) (entries_from_lem m.nodes v.chain)
    ∙ told-view q m.nodes
    ∙ sym (get-view q m v)

all_entries-full : (m : Memtable) → IsValid m → m.nodes ≢ [] → all_entries m ≢ []
unfolding all_entries
all_entries-full m v full = λ h. map-full m.nodes full (sym (entries_from_lem m.nodes v.chain) ∙ h)
  where
    map-full : (nodes : List SkipListNode) → nodes ≢ [] → map entry_of nodes ≢ []
    map-full [] full = absurd (full refl)
    map-full (n ∷ nodes) full = λ h. cc

module _ (math : BloomMath) where
  -- The table that a flush writes, with the description of the writer.
  abbrev pub flushed_table : (entries : List Entry) → TableFits math entries → Table
  flushed_table entries fits = record {
    reader = reader_of math entries (final math entries fits);
    meta = (write_table math entries).0;
  }

  pub flush_entries_lem :
      (imm : Sealed) (entries : List Entry) (fits : TableFits math entries) (e : Engine)
      → entries ≢ []
      → (flush_entries math imm entries e).0
        ≡ install imm
            (flushed_table entries fits)
            (record e { next_ss_table_id = e.next_ss_table_id + 1 })
  flush_entries_lem imm [] fits e full = absurd (full refl)
  flush_entries_lem imm (x ∷ entries) fits e full =
      unfold flush_entries in
      ap
        (λ (r : Option SsTableReader).
          (flush_opened imm (write_table math (x ∷ entries)).0 r
            (record e { next_ss_table_id = e.next_ss_table_id + 1 })).0)
        (open_written math (x ∷ entries) fits)
      ∙ unfold flush_opened in refl

  unfoldable snoc_answers :
      (tables : List Table) (t : Table)
      → All (Answers math) tables
      → Answers math t
      → All (Answers math) (tables ++ t ∷ [])
  snoc_answers [] t h a = (a, tt)
  snoc_answers (x ∷ tables) t h a = (h.0, snoc_answers tables t h.1 a)

  tables_view-snoc :
      (tables : List Table) (t : Table) (h : All (Answers math) tables) (a : Answers math t)
      (q : List ℕ)
      → tables_view math (tables ++ t ∷ []) (snoc_answers tables t h a) q
        ≡ or_else (a.answer q) (tables_view math tables h q)
  unfolding tables_view snoc_answers
  tables_view-snoc [] t h a q = nil_or (a.answer q)
    where
      nil_or : (o : Option (List ℕ × Bool)) → or_else none o ≡ or_else o none
      nil_or none = refl
      nil_or (some x) = refl
  tables_view-snoc (x ∷ tables) t h a q =
      ap (λ (o : Option (List ℕ × Bool)). or_else o (h.0.answer q))
        (tables_view-snoc tables t h.1 a q)
      ∙ or_else_assoc (a.answer q) (tables_view math tables h.1 q) (h.0.answer q)

  regroup :
      (a b c d : Option (List ℕ × Bool))
      → or_else (or_else a b) (or_else c d) ≡ or_else (or_else a (or_else b c)) d
  regroup none none c d = refl
  regroup none (some b) c d = refl
  regroup (some a) b c d = refl

  -- The flushed memtable is the oldest of those that are immutable.
  install-Agrees :
      (d : Dict (List ℕ × Bool)) (e : Engine) (imm : Sealed) (chan : List Sealed) (t : Table)
      → (told' : (q : List ℕ) → Reader.get math q t.reader ≡ some (Memtable.get q imm.table))
      → e.job ≡ none
      → e.flush_chan ≡ chan
      → e.immutable ≡ imm ∷ chan
      → IsValid e.memtable.table
      → All IsSealed chan
      → e.l1_tables ≡ []
      → (stored : All (Answers math) e.l0_tables)
      → ((q : List ℕ) → engine_view math e stored q ≡ Dict.get q d)
      → Agrees math d (install imm t e)
  unfolding install immutable_loop
  install-Agrees d e imm chan t answers job queue sealed valid rest l1 stored same =
      let left : remove_sealed imm.address e.immutable ≡ chan =
        ap (remove_sealed imm.address) sealed
        ∙ unfold remove_sealed in ground (arith, ==_iff imm.address imm.address) in
      record {
        mem_valid = valid;
        sealed_valid = rw left rest;
        queued = left ∙ sym queue ∙ ap (λ (o : Option Sealed). waiting o e.flush_chan) (sym job);
        l1_empty = l1;
        stored =
            snoc_answers e.l0_tables t stored
              (record { answer = λ q. Memtable.get q imm.table; answer_lem = answers });
        same = λ q.
            rw
              (
                left,
                tables_view-snoc e.l0_tables t stored
                    (record { answer = λ q. Memtable.get q imm.table; answer_lem = answers }) q,
              )
              (regroup (Memtable.get q e.memtable.table) (immutable_loop q chan)
                  (Memtable.get q imm.table) (tables_view math e.l0_tables stored q)
                ∙ ap
                    (λ (l : List Sealed).
                      or_else (or_else (Memtable.get q e.memtable.table) (immutable_loop q l))
                        (tables_view math e.l0_tables stored q))
                    (sym sealed)
                ∙ same q);
      }

  pub flush_of-Agrees :
      (d : Dict (List ℕ × Bool)) (e : Engine) (imm : Sealed)
      → e.job ≡ some imm
      → TableFits math (all_entries imm.table)
      → Agrees math d e
      → Agrees math d (flush_job math e).0
  flush_of-Agrees d e imm job fits a =
      let queue : e.immutable ≡ imm ∷ e.flush_chan =
        a.queued ∙ ap (λ (o : Option Sealed). waiting o e.flush_chan) job in
      let valid : All IsSealed (imm ∷ e.flush_chan) = subst (All IsSealed) queue a.sealed_valid in
      let t = flushed_table (all_entries imm.table) fits in
      let free = record e { job = none; next_ss_table_id = e.next_ss_table_id + 1 } in
      let done =
        install-Agrees d free imm e.flush_chan t
          (λ q.
            get_written math (all_entries imm.table) fits q
            ∙ ap some (table_told q imm.table valid.0.0))
          refl refl queue a.mem_valid valid.1 a.l1_empty a.stored a.same in
      unfold flush_job in
      rw (job, flush_job_of)
        (subst (Agrees math d)
          (sym (
            flush_entries_lem imm (all_entries imm.table) fits (record e { job = none })
              (all_entries-full imm.table valid.0.0 valid.0.1)))
          done)
