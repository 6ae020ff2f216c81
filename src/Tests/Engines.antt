-- ===== src/Tests/Engines.antt =====
-- Runs of the server's engine (go/pkg/lsm/engine.go).
use info_crate.Common.{
  ℕ, ◌<◌, ◌≤◌, ◌≡◌, ◌≢◌, refl, arith, Bool, true, false, none, some, [], ◌∷◌, length,
}
use info_crate.Text.{units, unit_compare, str_eq}
use info_crate.Dict
use info_crate.Dict.{has}
use info_crate.Wal.{le_bytes}
use info_crate.Server.Log.{
  open_wal, write, io_ok, io_write_failed, recover_wal, write_frame, write_payload, value_bytes,
}
use info_crate.Server.Memtable
use info_crate.Server.Memtable.{
  new_memtable, Entry, all_entries, put_at, delete_at, find_place, hit_node, forward, descend,
  advance, insert_node, before, random_level, answer,
}
use info_crate.Server.Bloom
use info_crate.Server.Bloom.{
  BloomMath, new_bloom_filter, add_loop, set_bit, set_byte, added, bit_index, may_contain,
}
use info_crate.Server.Table.{
  write_table, finish, add_entries, add, append_entry, flush_block, new_writer, encode_entry,
  encode_index, footer,
}
use info_crate.Server.Table.RoundTrip.{TableFits}
use info_crate.Server.Engine.{
  EngineOptions, Engine, Sealed, put, delete, put_logged, delete_logged, check_size,
  rotate_memtable, get, visible,
}
use info_crate.Server.Engine.Background.{take_job, flush_job}
use info_crate.Server.Engine.Opening.{engine_of, open_engine}
use info_crate.Server.Engine.Runs.{opened, puts, deletes, takes, flushes, get-Runs}
use info_crate.Server.Engine.Crash.{flush_job-forgets}
use info_crate.Server.Memtable.Valid.{IsValid, mem_put, apply, apply_lem, new_memtable-IsValid}
use info_crate.Server.Table.Reader.{max_alloc}
use info_crate.Server.Log
use info_crate.Wal.Recover.{int64, uint64}
use info_crate.Hash.{fnv1a64}
use info_crate.Tests.Servers.{alice_key, small_math, small_math_fits, bob_key}

-- Every write fills the memtable.
abbrev small_opts : EngineOptions
small_opts = record { memtable_limit_bytes = 1; l0_compaction_limit = 4 }

abbrev low : ℕ → Bool
low k = false

abbrev fresh : Engine
fresh = engine_of small_opts (open_wal []) new_memtable 0 []

abbrev written : Engine
written = (put io_ok 5 low alice_key (units "a") fresh).0

abbrev imm : Sealed
imm = record { address = 0; table = Memtable.put low alice_key (units "a") 5 new_memtable }

-- The worker has the first memtable, and a delete is in the second one, which is full as well.
abbrev ready : Engine
ready = (delete io_ok 6 low alice_key (take_job written)).0

imm_fits : TableFits small_math (all_entries imm.table)
unfolding unit_compare write_table finish add_entries add append_entry flush_block new_writer
    encode_entry encode_index footer le_bytes Bloom.encode Bloom.add add_loop set_bit set_byte added
    bit_index new_bloom_filter fnv1a64 all_entries Memtable.put put_at find_place hit_node forward
    descend advance insert_node before random_level new_memtable
imm_fits = record {
  ascends = (tt, tt);
  entries_fit = omega arith;
  filter_fits = small_math_fits 1;
  file_fits = omega arith;
}

ready_job : ready.job ≡ some imm
unfolding take_job put delete put_logged delete_logged check_size rotate_memtable engine_of
    Log.write Memtable.put Memtable.delete put_at delete_at find_place hit_node forward descend
    advance insert_node before random_level new_memtable str_eq unit_compare uint64 int64
ready_job = refl

room : length written.flush_chan < 16
unfolding put put_logged check_size rotate_memtable engine_of Log.write Memtable.put put_at
    find_place hit_node forward descend insert_node before random_level new_memtable
room = omega arith

room_after : length (take_job written).flush_chan < 16
unfolding take_job put put_logged check_size rotate_memtable engine_of Log.write Memtable.put put_at
    find_place hit_node forward descend insert_node before random_level new_memtable
room_after = omega arith

room_fresh : length fresh.flush_chan < 16
unfolding engine_of
room_fresh = omega arith

get-Runs_example :
    (get small_math alice_key (flush_job small_math ready).0).0
    ≡ some (
        visible (
          Dict.get alice_key
            (Dict.set alice_key ([], true) (Dict.set alice_key (units "a", false) []))))
get-Runs_example = get-Runs small_math small_opts alice_key (
    flushes imm ready_job imm_fits (
      deletes 6 low alice_key room_after
        (takes (puts 5 low alice_key (units "a") room_fresh opened))))

-- The second write is in the active memtable, and in the log alone.
abbrev large_opts : EngineOptions
large_opts = record { memtable_limit_bytes = 1000; l0_compaction_limit = 4 }

abbrev rotated : Engine
rotated = record written { opts = large_opts }

abbrev unsaved : Engine
unsaved = (put io_ok 6 low bob_key (units "b") (take_job rotated)).0

unsaved_state :
    (unsaved.job ≡ some imm)
    × (unsaved.immutable ≡ imm ∷ [])
    × (unsaved.l0_tables ≡ [])
    × (unsaved.l1_tables ≡ [])
    × (all_entries imm.table ≢ [])
unfolding take_job put put_logged check_size rotate_memtable engine_of Log.write Memtable.put put_at
    find_place hit_node forward descend advance insert_node before random_level new_memtable str_eq
    unit_compare all_entries uint64 int64
unsaved_state = (refl, refl, refl, refl, λ h. cc)

unsaved_keys :
    (Memtable.get bob_key imm.table ≡ none)
    × (Memtable.get bob_key unsaved.memtable.table ≡ some (units "b", false))
unfolding take_job put put_logged check_size rotate_memtable engine_of Log.write Memtable.put put_at
    find_place hit_node forward descend advance insert_node before random_level new_memtable str_eq
    unit_compare Memtable.get answer
unsaved_keys = (refl, refl)

imm_small : length (write_table small_math (all_entries imm.table)).1 ≤ max_alloc
unfolding unit_compare write_table finish add_entries add append_entry flush_block new_writer
    encode_entry encode_index footer le_bytes Bloom.encode Bloom.add add_loop set_bit set_byte added
    bit_index new_bloom_filter fnv1a64 all_entries Memtable.put put_at find_place hit_node forward
    descend advance insert_node before random_level new_memtable
imm_small = omega arith

imm-IsValid : IsValid imm.table
unfolding apply
imm-IsValid = (apply_lem (mem_put low alice_key (units "a") 5) new_memtable new_memtable-IsValid).0

flush_job-forgets_example :
    ((get small_math bob_key (flush_job small_math unsaved).0).0 ≡ some (some (units "b")))
    × (after : Engine) × (open_engine large_opts
          (λ i. low)
          (flush_job small_math unsaved).0.wal.file
          ((write_table small_math (all_entries imm.table)).1 ∷ [])
        ≡ some after)
    × ((get small_math bob_key after).0 ≡ some none)
flush_job-forgets_example =
    flush_job-forgets small_math large_opts (λ i. low) unsaved imm bob_key (units "b")
      unsaved_state.0 unsaved_state.1 unsaved_state.2 unsaved_state.3 imm-IsValid imm_fits imm_small
      unsaved_state.4 unsaved_keys.0 unsaved_keys.1
