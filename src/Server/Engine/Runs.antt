-- ===== src/Server/Engine/Runs.antt =====
-- The engine of go/pkg/lsm/engine.go as a map.
use info_crate.Common.{ℕ, ◌<◌, ◌≡◌, refl, ap, ◌∙◌, Bool, true, false, some, List, [], length}
use info_crate.Dict
use info_crate.Dict.{Dict}
use info_crate.Server.Log
use info_crate.Server.Log.{
  Io, io_ok, io_sync_failed, io_write_failed, WalFile, open_wal, recover_wal,
}
use info_crate.Server.Memtable.{new_memtable, all_entries}
use info_crate.Server.Memtable.Valid.{new_memtable-IsValid}
use info_crate.Server.Memtable.Refinement.{get-new_memtable}
use info_crate.Server.Bloom.{BloomMath}
use info_crate.Server.Table.RoundTrip.{TableFits}
use info_crate.Server.Engine.{
  EngineOptions, Sealed, Engine, immutable_loop, visible, get, put_logged, put, delete,
  flush_chan_size,
}
use info_crate.Server.Engine.Background.{take_job, flush_job}
use info_crate.Server.Engine.Opening.{engine_of}
use info_crate.Server.Engine.Layers.{tables_view, get_lem}
use info_crate.Server.Engine.History.{
  counted-Agrees, Agrees, logged-Agrees, put-Agrees, delete-Agrees, take_job-Agrees,
}
use info_crate.Server.Engine.Flush.{flush_of-Agrees}

-- The engines that calls and the worker lead to from a new one, each with the map of the writes that
-- succeeded: a write finds room in the channel, and a memtable that is flushed fits a table.
pub data Runs (math : BloomMath) (opts : EngineOptions)
    : Dict (List ℕ × Bool) → Engine → Type 0 where
  opened : Runs math opts [] (engine_of opts (open_wal []) new_memtable 0 [])
  puts :
      {d : Dict (List ℕ × Bool)} {e : Engine} (ts : ℕ) (coins : ℕ → Bool) (key value : List ℕ)
      → length e.flush_chan < flush_chan_size
      → Runs math opts d e
      → Runs math opts (Dict.set key (value, false) d) (put io_ok ts coins key value e).0
  deletes :
      {d : Dict (List ℕ × Bool)} {e : Engine} (ts : ℕ) (coins : ℕ → Bool) (key : List ℕ)
      → length e.flush_chan < flush_chan_size
      → Runs math opts d e
      → Runs math opts (Dict.set key ([], true) d) (delete io_ok ts coins key e).0
  put_fails :
      {d : Dict (List ℕ × Bool)} {e : Engine} (n ts : ℕ) (coins : ℕ → Bool) (key value : List ℕ)
      → Runs math opts d e
      → Runs math opts d (put (io_write_failed n) ts coins key value e).0
  reads :
      {d : Dict (List ℕ × Bool)} {e : Engine} (key : List ℕ)
      → Runs math opts d e
      → Runs math opts d (get math key e).1
  takes :
      {d : Dict (List ℕ × Bool)} {e : Engine} → Runs math opts d e → Runs math opts d (take_job e)
  flushes :
      {d : Dict (List ℕ × Bool)} {e : Engine} (imm : Sealed)
      → e.job ≡ some imm
      → TableFits math (all_entries imm.table)
      → Runs math opts d e
      → Runs math opts d (flush_job math e).0

module _ (math : BloomMath) (opts : EngineOptions) where
  opened-Agrees : Agrees math [] (engine_of opts (open_wal []) new_memtable 0 [])
  opened-Agrees =
      unfold engine_of in
      record {
        mem_valid = new_memtable-IsValid;
        sealed_valid = tt;
        queued = refl;
        l1_empty = refl;
        stored = tt;
        same = λ q. unfold immutable_loop tables_view Dict.get in rw (get-new_memtable q) refl;
      }

  put_fails-Agrees :
      (n ts : ℕ) (coins : ℕ → Bool) (key value : List ℕ) (d : Dict (List ℕ × Bool)) (e : Engine)
      → Agrees math d e
      → Agrees math d (put (io_write_failed n) ts coins key value e).0
  unfolding put put_logged Log.write
  put_fails-Agrees n ts coins key value d e a = logged-Agrees math d e _ a

  reads-Agrees :
      (key : List ℕ) (d : Dict (List ℕ × Bool)) (e : Engine)
      → Agrees math d e
      → Agrees math d (get math key e).1
  unfolding get
  reads-Agrees key d e = counted-Agrees math d e e.wal _ _

  Runs-Agrees : {d : Dict (List ℕ × Bool)} {e : Engine} → Runs math opts d e → Agrees math d e
  Runs-Agrees opened = opened-Agrees
  Runs-Agrees (puts ts coins key value room r) =
      put-Agrees math ts coins key value _ _ room (Runs-Agrees r)
  Runs-Agrees (deletes ts coins key room r) =
      delete-Agrees math ts coins key _ _ room (Runs-Agrees r)
  Runs-Agrees (put_fails n ts coins key value r) =
      put_fails-Agrees n ts coins key value _ _ (Runs-Agrees r)
  Runs-Agrees (reads key r) = reads-Agrees key _ _ (Runs-Agrees r)
  Runs-Agrees (takes r) = take_job-Agrees math _ _ (Runs-Agrees r)
  Runs-Agrees (flushes imm job fits r) = flush_of-Agrees math _ _ imm job fits (Runs-Agrees r)

-- In any order of puts and deletes that the log takes or that it refuses, of reads, and of the steps
-- of the flush worker, without a compaction, with room in the channel at each write and with
-- memtables that fit a table: `Get` returns without an error the value of the last write of the key,
-- or nothing after a delete or without a write, wherever rotations and flushes have put the entries.
pub get-Runs :
    (math : BloomMath) (opts : EngineOptions) {d : Dict (List ℕ × Bool)} {e : Engine} (q : List ℕ)
    → Runs math opts d e
    → (get math q e).0 ≡ some (visible (Dict.get q d))
get-Runs math opts q r =
    let a = Runs-Agrees math opts r in
    get_lem math q _ a.stored a.l1_empty ∙ ap (λ o. some (visible o)) (a.same q)
