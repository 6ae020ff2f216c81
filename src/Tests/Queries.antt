-- ===== src/Tests/Queries.antt =====
-- Witnesses on queries of a cluster, and on what a run leaves in its engines.
use info_crate.Common.{◌≡◌, refl, arith, none, some, true, if◌then◌else◌}
use info_crate.Text.{units, unit_compare, str_eq}
use info_crate.Dict
use info_crate.Hash.{fnv1a64}
use info_crate.Lsm.{SimulatedLsmEngine}
use info_crate.Cluster.{
  leader, put, get, is_available, names, find_leader, get_shard_for_key, notify, sync_state,
}
use info_crate.Cluster.Boot.{boot_engine, boot_engines, initial_keys_shard0, init_cluster}
use info_crate.Cluster.Control.{toggle_node_partition}
use info_crate.Cluster.Query.Apply.{execute_query}
use info_crate.Cluster.Query.Keeps.{Returns}
use info_crate.Cluster.Query.Total.{execute_query-Returns}
use info_crate.Cluster.Reach.{here, next, partition}
use info_crate.Dashboard.{quorum_met}
use info_crate.Dashboard.Agrees.{success-quorum_met}
use info_crate.Lsm.Counts.{IsValid}
use info_crate.Lsm.LogFrames.{IsLogged}
use info_crate.Cluster.EachEngine.{Reach-IsValid}
use info_crate.Cluster.Mirrored.{AllMirrored, Reach-AllMirrored}
use info_crate.Cluster.Query.Replicated.{is_replica, written_at, execute_query_replicates}
use info_crate.Cluster.Query.Recorded.{
  IsRecorded, IsReplicated, execute_query-IsRecorded, execute_query-IsReplicated,
}
use mathlib.Core.Option
use info_crate.Tests.{alice, bob}
use info_crate.Cluster.Query.Trace.{IsWellFormed, execute_query-IsWellFormed}
use info_crate.Cluster.Election.{heartbeat_shard}
use info_crate.Cluster.Election.Safety.{leading, is_down, heartbeat_shard_safe}
use info_crate.Common.{length, select}
use info_crate.Tests.Clusters.{boot, asked, node_of, shard_of, served, ran}

ran_ok : ran.0.success ≡ true
unfolding get_shard_for_key find_leader names is_available str_eq fnv1a64 quorum_met
ran_ok =
    success-quorum_met unit_compare asked served put bob (some (units "v")) (shard_of (some alice))
      (node_of alice leader) ran.0 ran.1 refl refl refl ((refl, tt), (tt, tt)) ran.2

execute_query_replicates_example : Dict.get bob ran.1.lsm_engines ≡ (
    if is_replica (shard_of (some alice)).nodes bob
    then Option.map
        (written_at unit_compare asked put bob (some (units "v")) bob)
        (Dict.get bob served.lsm_engines)
    else Dict.get bob served.lsm_engines)
unfolding get_shard_for_key fnv1a64 str_eq
execute_query_replicates_example =
    execute_query_replicates unit_compare asked served put bob (some (units "v"))
      (shard_of (some alice)) ran.0 ran.1 refl refl ((refl, tt), (tt, tt)) ran.2 ran_ok bob

abbrev read_back : Returns (execute_query unit_compare asked ran.1 get bob none)
read_back = execute_query-Returns unit_compare asked ran.1 get bob none ran.3

abbrev first_engine : SimulatedLsmEngine
first_engine = boot_engine unit_compare boot (units "node-1") initial_keys_shard0

Reach-IsValid_example : IsValid first_engine × IsLogged first_engine
unfolding init_cluster boot_engines Dict.get Dict.set str_eq toggle_node_partition notify sync_state
Reach-IsValid_example =
    Reach-IsValid unit_compare boot
      (toggle_node_partition unit_compare (init_cluster unit_compare boot) (units "node-1"))
      (next here (partition (units "node-1") refl)) (units "node-1") first_engine refl

Reach-AllMirrored_example :
    AllMirrored unit_compare
      (toggle_node_partition unit_compare
        (init_cluster unit_compare boot)
        (units "node-1")).lsm_engines
      (toggle_node_partition unit_compare (init_cluster unit_compare boot) (units "node-1")).shards
Reach-AllMirrored_example =
    Reach-AllMirrored unit_compare boot
      (toggle_node_partition unit_compare (init_cluster unit_compare boot) (units "node-1"))
      (next here (partition (units "node-1") refl))

execute_query-IsRecorded_example : IsRecorded served put ran.0 ran.1
execute_query-IsRecorded_example =
    execute_query-IsRecorded unit_compare asked served put bob (some (units "v")) ran.0 ran.1 ran.2

execute_query-IsReplicated_example :
    IsReplicated unit_compare asked served put bob
      (some (units "v"))
      (shard_of (some alice))
      (node_of alice leader)
      0
      ran.0
      ran.1
unfolding get_shard_for_key fnv1a64 find_leader names is_available str_eq
execute_query-IsReplicated_example =
    execute_query-IsReplicated unit_compare asked served put bob (some (units "v"))
      (shard_of (some alice)) (node_of alice leader) ran.0 ran.1 refl refl refl ran.2

execute_query-IsWellFormed_example : IsWellFormed (get_shard_for_key served bob) put bob ran.0
execute_query-IsWellFormed_example =
    execute_query-IsWellFormed unit_compare asked served put bob (some (units "v")) ran.0 ran.1
      ran.2

heartbeat_shard_safe_example :
    (length (select leading (heartbeat_shard (shard_of none)).nodes) ≡ 1)
    × (select is_down (heartbeat_shard (shard_of none)).nodes
        ≡ select is_down (shard_of none).nodes)
unfolding find_leader names is_available str_eq
heartbeat_shard_safe_example =
    heartbeat_shard_safe (shard_of none) ((refl, tt), (tt, tt)) refl (omega arith)
