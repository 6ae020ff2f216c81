-- ===== src/Server/Engine/History.antt =====
-- Runs of the engine of go/pkg/lsm/engine.go: calls and the worker, in any order, before a compaction.
use info_crate.Common.{
  ℕ, ◌<◌, ◌≡◌, ◌≢◌, refl, ap, ◌∙◌, arith, Bool, true, false, Option, none, some, List, [], ◌∷◌,
  ◌++◌, length, All, All-append, ltb, leb, Bool-cases, inl, inr, if◌then◌else◌,
}
use info_crate.Text.{str_eq}
use info_crate.Dict
use info_crate.Dict.{Dict}
use info_crate.Dict.Laws.{get-set}
use info_crate.Wal.Recover.{int64, uint64}
use info_crate.Server.Log
use info_crate.Server.Log.{WalFile, io_ok}
use info_crate.Server.Memtable
use info_crate.Server.Memtable.{Memtable, new_memtable, all_entries, entry_of}
use info_crate.Server.Memtable.Valid.{
  IsValid, MemOp, mem_put, mem_delete, node_of, apply, apply_lem, new_memtable-IsValid,
}
use info_crate.Server.Memtable.Refinement.{get-apply, get-new_memtable, apply-full}
use info_crate.Server.Bloom.{BloomMath}
use info_crate.Server.Engine.{
  Sealed, Engine, flush_chan_size, or_else, immutable_loop, rotate_memtable, check_size, put_logged,
  put, delete_logged, delete,
}
use info_crate.Server.Engine.Background.{take_job_of, take_job}
use info_crate.Server.Engine.Layers.{Answers, tables_view, engine_view}

abbrev pub waiting : Option Sealed → List Sealed → List Sealed
waiting none chan = chan
waiting (some s) chan = s ∷ chan

-- The memtables that wait for the worker, the oldest first.
abbrev pub pending : Engine → List Sealed
pending e = waiting e.job e.flush_chan

waiting-snoc :
    (job : Option Sealed) (chan : List Sealed) (s : Sealed)
    → waiting job chan ++ s ∷ [] ≡ waiting job (chan ++ s ∷ [])
waiting-snoc none chan s = refl
waiting-snoc (some x) chan s = refl

abbrev pub IsSealed : Sealed → Type 0
IsSealed s = IsValid s.table × (s.table.nodes ≢ [])

-- The engine says of each key what the map `d` does, and each immutable memtable waits for the worker.
pub record Agrees (math : BloomMath) (d : Dict (List ℕ × Bool)) (e : Engine) : Type 0 where
  pub mem_valid : IsValid e.memtable.table
  pub sealed_valid : All IsSealed e.immutable
  pub queued : e.immutable ≡ pending e
  pub l1_empty : e.l1_tables ≡ []
  pub stored : All (Answers math) e.l0_tables
  pub same : (q : List ℕ) → engine_view math e stored q ≡ Dict.get q d

pub or_else_assoc :
    (a b c : Option (List ℕ × Bool)) → or_else (or_else a b) c ≡ or_else a (or_else b c)
or_else_assoc none b c = refl
or_else_assoc (some a) b c = refl

immutable_loop-snoc :
    (q : List ℕ) (sealed : List Sealed) (s : Sealed)
    → immutable_loop q (sealed ++ s ∷ [])
      ≡ or_else (Memtable.get q s.table) (immutable_loop q sealed)
unfolding immutable_loop
immutable_loop-snoc q [] s = or_nil (Memtable.get q s.table)
  where
    or_nil : (a : Option (List ℕ × Bool)) → or_else none a ≡ or_else a none
    or_nil none = refl
    or_nil (some a) = refl
immutable_loop-snoc q (x ∷ sealed) s =
    ap (λ (o : Option (List ℕ × Bool)). or_else o (Memtable.get q x.table))
      (immutable_loop-snoc q sealed s)
    ∙ or_else_assoc (Memtable.get q s.table) (immutable_loop q sealed) (Memtable.get q x.table)

module _ (math : BloomMath) where
  rotate-Agrees :
      (d : Dict (List ℕ × Bool)) (e : Engine)
      → length e.flush_chan < flush_chan_size
      → e.memtable.table.nodes ≢ []
      → Agrees math d e
      → Agrees math d (rotate_memtable e)
  unfolding rotate_memtable
  rotate-Agrees d e room full a =
      let open_chan : ltb (length e.flush_chan) flush_chan_size ≡ true = ground arith in
      rw open_chan (record {
        mem_valid = new_memtable-IsValid;
        sealed_valid = All-append IsSealed e.immutable _ a.sealed_valid ((a.mem_valid, full), tt);
        queued =
            ap (λ (l : List Sealed). l ++ e.memtable ∷ []) a.queued
            ∙ waiting-snoc e.job e.flush_chan e.memtable;
        l1_empty = a.l1_empty;
        stored = a.stored;
        same =
            λ q. rw (get-new_memtable q, immutable_loop-snoc q e.immutable e.memtable) (a.same q);
      })

  check_size-Agrees :
      (d : Dict (List ℕ × Bool)) (e : Engine)
      → length e.flush_chan < flush_chan_size
      → e.memtable.table.nodes ≢ []
      → Agrees math d e
      → Agrees math d (check_size e)
  unfolding check_size
  check_size-Agrees d e room full a =
      elim (Bool-cases (leb e.opts.memtable_limit_bytes e.memtable.table.size_bytes)) [
        | inl reached ↦ rw reached (rotate-Agrees d e room full a)
        | inr below ↦ rw below a
      ]

  -- The memtable after a call, in place.
  abbrev called : MemOp → Engine → Engine
  called op e = record e { memtable = record e.memtable { table = apply op e.memtable.table } }

  abbrev told_of : MemOp → List ℕ × Bool
  told_of op = if (node_of op).is_tombstone then ([], true) else ((node_of op).value, false)

  called-Agrees :
      (op : MemOp) (d : Dict (List ℕ × Bool)) (e : Engine)
      → Agrees math d e
      → Agrees math (Dict.set (node_of op).key (told_of op) d) (called op e)
  called-Agrees op d e a = record {
    mem_valid = (apply_lem op e.memtable.table a.mem_valid).0;
    sealed_valid = a.sealed_valid;
    queued = a.queued;
    l1_empty = a.l1_empty;
    stored = a.stored;
    same = λ q.
        rw (get-apply q op e.memtable.table a.mem_valid, get-set)
          (layered (str_eq (node_of op).key q) (told_of op) (Memtable.get q e.memtable.table)
              (immutable_loop q e.immutable) (tables_view math e.l0_tables a.stored q)
            ∙ ap
                (λ (o : Option (List ℕ × Bool)).
                  if str_eq (node_of op).key q then some (told_of op) else o)
                (a.same q));
  }
    where
      layered :
          (b : Bool) (x : List ℕ × Bool) (m i t : Option (List ℕ × Bool))
          → or_else (or_else (if b then some x else m) i) t
            ≡ (if b then some x else or_else (or_else m i) t)
      layered true x m i t = refl
      layered false x m i t = refl

  -- The log and the counters of the filter tell nothing.
  pub counted-Agrees :
      (d : Dict (List ℕ × Bool)) (e : Engine) (wal : WalFile) (checks hits : ℕ)
      → Agrees math d e
      → Agrees math d (record e { wal = wal; bloom_checks = checks; bloom_hits = hits })
  counted-Agrees d e wal checks hits a = record {
    mem_valid = a.mem_valid;
    sealed_valid = a.sealed_valid;
    queued = a.queued;
    l1_empty = a.l1_empty;
    stored = a.stored;
    same = a.same;
  }

  pub logged-Agrees :
      (d : Dict (List ℕ × Bool)) (e : Engine) (wal : WalFile)
      → Agrees math d e
      → Agrees math d (record e { wal = wal })
  logged-Agrees d e wal = counted-Agrees d e wal e.bloom_checks e.bloom_hits

  written-Agrees :
      (op : MemOp) (d : Dict (List ℕ × Bool)) (e : Engine) (wal : WalFile)
      → length e.flush_chan < flush_chan_size
      → Agrees math d e
      → Agrees math
          (Dict.set (node_of op).key (told_of op) d)
          (check_size (record (called op e) { wal = wal }))
  written-Agrees op d e wal room a =
      check_size-Agrees _ (record (called op e) { wal = wal }) room
        (apply-full op e.memtable.table a.mem_valid)
        (logged-Agrees _ (called op e) wal (called-Agrees op d e a))

  pub put-Agrees :
      (ts : ℕ) (coins : ℕ → Bool) (key value : List ℕ) (d : Dict (List ℕ × Bool)) (e : Engine)
      → length e.flush_chan < flush_chan_size
      → Agrees math d e
      → Agrees math (Dict.set key (value, false) d) (put io_ok ts coins key value e).0
  unfolding put put_logged Log.write apply
  put-Agrees ts coins key value d e room a =
      written-Agrees (mem_put coins key value (uint64 (int64 ts))) d e _ room a

  pub take_job-Agrees :
      (d : Dict (List ℕ × Bool)) (e : Engine) → Agrees math d e → Agrees math d (take_job e)
  unfolding take_job
  take_job-Agrees d e a = taken e.job e.flush_chan refl refl
    where
      taken :
          (job : Option Sealed) (chan : List Sealed)
          → e.job ≡ job
          → e.flush_chan ≡ chan
          → Agrees math d (take_job_of job chan e)
      taken (some s) chan j c = unfold take_job_of in a
      taken none [] j c = unfold take_job_of in a
      taken none (s ∷ chan) j c =
          unfold take_job_of in
          record {
            mem_valid = a.mem_valid;
            sealed_valid = a.sealed_valid;
            queued =
                a.queued
                ∙ ap (λ (o : Option Sealed). waiting o e.flush_chan) j
                ∙ ap (waiting none) c;
            l1_empty = a.l1_empty;
            stored = a.stored;
            same = a.same;
          }

  pub delete-Agrees :
      (ts : ℕ) (coins : ℕ → Bool) (key : List ℕ) (d : Dict (List ℕ × Bool)) (e : Engine)
      → length e.flush_chan < flush_chan_size
      → Agrees math d e
      → Agrees math (Dict.set key ([], true) d) (delete io_ok ts coins key e).0
  unfolding delete delete_logged Log.write apply
  delete-Agrees ts coins key d e room a =
      written-Agrees (mem_delete coins key (uint64 (int64 ts))) d e _ room a
