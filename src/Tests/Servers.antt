-- ===== src/Tests/Servers.antt =====
-- Runs of the server under go/pkg.
use info_crate.Common.{
  ◌++◌, ◌^◌, ℕ, ◌<◌, ◌≡◌, refl, arith, Bool, true, false, none, some, List, [], ◌∷◌, length, map,
}
use info_crate.Text.{units, encode, unit_compare, str_eq}
use info_crate.Dict.{has}
use info_crate.Wal.{le_bytes}
use info_crate.Cluster.{get_shard_for_key}
use info_crate.Server.Log.Recovery.{LogCall, log_write, log_reset}
use info_crate.Server.Memtable.{Entry}
use info_crate.Server.Merge.{merge_entries, gather}
use info_crate.Server.Merge.Order.{find_entry, newest}
use info_crate.Server.Merge.Newest.{Ascends, kept, merge_entries-newest}
use info_crate.Server.Bloom
use info_crate.Server.Bloom.{
  BloomMath, new_bloom_filter, add_loop, set_bit, set_byte, added, bit_index, may_contain,
}
use info_crate.Server.Bloom.Adding.{add_all}
use info_crate.Server.Bloom.NoFalseNegative.{MathFits, may_contain-add_all}
use info_crate.Server.Table.{
  write_table, finish, add_entries, add, append_entry, flush_block, new_writer, encode_entry,
  encode_index, footer,
}
use info_crate.Server.Table.Reader
use info_crate.Server.Table.Reader.{SsTableReader, open_reader, scan_all}
use info_crate.Server.Table.Records.{read_back}
use info_crate.Server.Table.Lookup.{told}
use info_crate.Server.Table.RoundTrip.{TableFits, scan_all-write_table, get-write_table}
use info_crate.Server.Raft.{
  Node, new_raft_node, on_timeout, on_vote, vote_at, on_propose, on_commit, on_apply,
}
use info_crate.Server.Raft.Log.{new_replicated_log}
use info_crate.Server.Raft.Invariant.{IsSound}
use info_crate.Server.Raft.Sound.{
  started, times_out, gets_vote, proposes, commits, applies, Reach-IsSound,
}
use info_crate.Server.Router.{ShardInfo, new_router, get_shard_id_for_key, get_shard}
use info_crate.Server.Router.Agrees
use info_crate.Server.Router.Agrees.{
  IsFnv1a, RouterCall, call_leader, call_node, get_shard_id_for_key-agrees,
}
use info_crate.Tests.Clusters.{served}
use info_crate.Hash.{fnv1a64, fnv_loop, fnv_step}

abbrev pub alice_key : List ℕ
alice_key = units "user:1"

abbrev pub bob_key : List ℕ
bob_key = units "user:2"

-- Ten bits for a key, seven hashes, the simulator's FNV-1a and a second hash that is constant.
abbrev pub small_math : BloomMath
small_math = record {
  fnv64a = fnv1a64;
  sum64 = λ key. 7;
  ceil_bits = λ n. 10;
  round_hash = λ m n. 7;
}

abbrev log_calls : List LogCall
log_calls =
    log_write 5 alice_key (some (units "old")) false
    ∷ log_reset
    ∷ log_write 6 alice_key (some (units "new")) false
    ∷ log_write 7 bob_key none true
    ∷ []

abbrev entry : List ℕ → List ℕ → Bool → ℕ → Entry
entry key value is_tombstone ts = record {
  key = key;
  value = value;
  is_tombstone = is_tombstone;
  timestamp = ts;
}

abbrev old_and_new : List (List Entry)
old_and_new =
    (entry alice_key (units "old") false 1 ∷ entry bob_key (units "b") false 2 ∷ [])
    ∷ (entry alice_key [] true 3 ∷ [])
    ∷ []

merge_entries-newest_example :
    Ascends (merge_entries true old_and_new)
    × (find_entry alice_key (merge_entries true old_and_new)
        ≡ kept true (newest alice_key (gather old_and_new)))
merge_entries-newest_example = merge_entries-newest true old_and_new alice_key

pub small_math_fits : (n : ℕ) → MathFits small_math n
unfolding new_bloom_filter
small_math_fits n = record { num_bits_fit = omega arith; num_hash_fit = omega arith }

may_contain-add_all_example :
    ((add_all small_math (alice_key ∷ bob_key ∷ []) (new_bloom_filter small_math 2)).panicked
      ≡ false)
    × (Bloom.decode (
          Bloom.encode
            (add_all small_math (alice_key ∷ bob_key ∷ []) (new_bloom_filter small_math 2)))
        ≡ some (add_all small_math (alice_key ∷ bob_key ∷ []) (new_bloom_filter small_math 2)))
    × (may_contain small_math bob_key
          (add_all small_math (alice_key ∷ bob_key ∷ []) (new_bloom_filter small_math 2))
        ≡ some true)
unfolding has str_eq
may_contain-add_all_example =
    may_contain-add_all small_math 2 (alice_key ∷ bob_key ∷ []) bob_key (small_math_fits 2) refl

abbrev entries : List Entry
entries = entry alice_key (units "a") false 1 ∷ entry bob_key [] true 2 ∷ []

table_fits : TableFits small_math entries
unfolding unit_compare write_table finish add_entries add append_entry flush_block new_writer
    encode_entry encode_index footer le_bytes Bloom.encode Bloom.add add_loop set_bit set_byte added
    bit_index new_bloom_filter fnv1a64
table_fits = record {
  ascends = ((refl, tt), (tt, tt));
  entries_fit = omega arith;
  filter_fits = small_math_fits 2;
  file_fits = omega arith;
}

scan_all-write_table_example :
    (r : SsTableReader) × (open_reader (write_table small_math entries).1 ≡ some r)
    × (scan_all r ≡ some (map read_back entries))
scan_all-write_table_example = scan_all-write_table small_math entries table_fits

get-write_table_example :
    (r : SsTableReader) × (open_reader (write_table small_math entries).1 ≡ some r)
    × (Reader.get small_math bob_key r ≡ some (told (find_entry bob_key entries)))
get-write_table_example = get-write_table small_math entries bob_key table_fits

abbrev router_calls : List RouterCall
router_calls = call_node 1 (units "node-4") ∷ call_leader 1 (units "node-4") ∷ call_node 9 [] ∷ []

fnv1a64-IsFnv1a : IsFnv1a fnv1a64
unfolding fnv1a64 fnv_loop fnv_step
fnv1a64-IsFnv1a = record { basis = refl; byte = λ bytes b. looped _ bytes b }
  where
    looped :
        (hash : ℕ) (bytes : List ℕ) (b : ℕ)
        → fnv_loop hash (bytes ++ b ∷ []) ≡ fnv_step (fnv_loop hash bytes) b
    looped hash [] b = refl
    looped hash (c ∷ bytes) b = looped (fnv_step hash c) bytes b

get_shard_id_for_key-agrees_example :
    (get_shard_id_for_key fnv1a64 (Agrees.run router_calls (new_router 1)) (encode alice_key)
      ≡ get_shard_for_key served alice_key)
    × (info : ShardInfo) × (get_shard
          (get_shard_for_key served alice_key)
          (Agrees.run router_calls (new_router 1))
        ≡ some info)
get_shard_id_for_key-agrees_example =
    get_shard_id_for_key-agrees fnv1a64 router_calls served alice_key fnv1a64-IsFnv1a (omega arith)
      (omega arith)

-- A node of three is elected, takes a proposal, commits and applies it.
abbrev node_run : Node
node_run = on_apply (
    on_commit 0
      (on_propose (units "PUT") alice_key (units "a")
        (on_vote 0 (on_timeout (new_raft_node (units "n1") (units "n2" ∷ units "n3" ∷ []))))).0)

log_room :
    length (on_vote 0 (on_timeout (new_raft_node (units "n1") (units "n2" ∷ units "n3" ∷ [])))).log
    < 2 ^ 64
unfolding on_vote vote_at on_timeout new_raft_node new_replicated_log
log_room = omega arith

Reach-IsSound_example : IsSound node_run
Reach-IsSound_example = Reach-IsSound (units "n1") (units "n2" ∷ units "n3" ∷ []) (
    applies (
      commits 0
        (proposes (units "PUT") alice_key (units "a") log_room (gets_vote 0 (times_out started)))))
