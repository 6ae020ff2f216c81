-- ===== src/Tests/Shown.antt =====
-- Witnesses on what the views show next to the engine, and on the texts of a frame.
use info_crate.Common.{◌≡◌, refl, arith, some, [], ◌∷◌}
use info_crate.Text.{units, unit_compare, str_eq}
use info_crate.Dict
use info_crate.Hash.{fnv1a64}
use info_crate.Lsm
use info_crate.Lsm.{SimulatedLsmEngine, load}
use info_crate.Lsm.Newest.{l1_entry}
use info_crate.Lsm.Timed.{IsTimed}
use info_crate.Cluster.{
  NodeState, ShardState, get_shard_for_key, find_leader, names, is_available, leader, follower,
}
use info_crate.Cluster.Boot.{
  init_cluster, init_shards, boot_engines, boot_engine, initial_keys_shard0, create_node,
}
use info_crate.Cluster.Reach.{here}
use info_crate.Dashboard.{quorum_met}
use info_crate.Dashboard.Available.{ReadsBack, Reach-ReadsBack}
use info_crate.Views.QueryConsole.{hash_prefix}
use info_crate.Text.{trim}
use info_crate.Text.Format.{to_string, digits_in, digit}
use info_crate.Console.{hash_val}
use info_crate.Tests.{bob, plain}
use info_crate.Tests.Clusters.{boot, asked}

abbrev seeded : SimulatedLsmEngine
seeded = boot_engine unit_compare boot (units "node-1") initial_keys_shard0

abbrev first_node : NodeState
first_node =
    create_node unit_compare boot (units "node-1") (units "shard-0") leader 3 50051 9091
      initial_keys_shard0

abbrev first_shard : ShardState
first_shard = record {
  id = units "shard-0";
  shard_index = 0;
  leader_id = some (units "node-1");
  nodes =
      first_node
      ∷ create_node unit_compare boot (units "node-2") (units "shard-0") follower 3 50052 9092
          initial_keys_shard0
      ∷ create_node unit_compare boot (units "node-3") (units "shard-0") follower 3 50053 9093
          initial_keys_shard0
      ∷ [];
}

seeded-IsTimed : IsTimed plain 91000 seeded
unfolding boot_engine load Lsm.put Lsm.rotate_if_full Lsm.set_memtable Dict.set Lsm.log_frame str_eq
seeded-IsTimed = record {
  mem_le = (omega arith, (omega arith, (omega arith, tt)));
  l0_le = tt;
  later = (tt, (tt, (tt, tt)));
  recent = tt;
  plain_mem = (tt, (tt, (tt, tt)));
  plain_l0 = tt;
}

Reach-ReadsBack_example :
    ReadsBack unit_compare asked asked (init_cluster unit_compare boot) bob (units "v")
unfolding init_cluster init_shards create_node boot_engines get_shard_for_key fnv1a64 find_leader
    names is_available str_eq quorum_met Dict.get Dict.set l1_entry boot_engine load Lsm.put
    Lsm.rotate_if_full Lsm.set_memtable Lsm.log_frame
Reach-ReadsBack_example =
    Reach-ReadsBack plain boot (init_cluster unit_compare boot) asked asked bob 118 [] first_shard
      first_node seeded 91000 here refl refl refl refl (omega arith) tt seeded-IsTimed refl

-- A key that the start puts into the engines of shard 0 is looked up on shard 1.
org_alpha_misplaced : get_shard_for_key (init_cluster unit_compare boot) (units "org:alpha") ≡ 1
unfolding get_shard_for_key fnv1a64 init_cluster init_shards
org_alpha_misplaced = refl

-- The first ten digits of the hash that the console shows for a key.
hash_prefix_bob : hash_prefix (units "bob") ≡ units "4d4419134a"
unfolding to_string digits_in digit hash_val fnv1a64 trim
hash_prefix_bob = refl
