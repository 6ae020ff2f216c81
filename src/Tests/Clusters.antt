-- ===== src/Tests/Clusters.antt =====
-- Witnesses on the cluster and the views.
use info_crate.Common.{not, ℕ, ◌≡◌, refl, arith, Option, none, some, [], ◌∷◌, true, false, inr, All}
use info_crate.Text.{JsString, trim, units, unit_compare, str_eq}
use info_crate.Dict
use info_crate.Hash.{fnv1a64}
use info_crate.Lsm.{empty_engine}
use info_crate.Cluster.{
  notify, sync_state, sync_shard, sync_node, RaftRole, leader, follower, put, get, NodeState,
  ShardState, QueryResult, ClusterSimulator, is_available, names, find_leader, get_shard_for_key,
  success, router_hash,
}
use info_crate.Cluster.Boot.{BootInput, init_cluster, first_metrics}
use info_crate.Cluster.Control.{
  toggle_node_partition, toggle_node_health, toggle_in, change_node, depose,
}
use info_crate.Cluster.Election.{heartbeat}
use info_crate.Cluster.Election.Leads.{IsServed, heartbeat-IsServed}
use info_crate.Cluster.Query.{QueryInput, refuse, step_of}
use info_crate.Cluster.Query.Apply.{execute_query, query_shard}
use info_crate.Cluster.Query.Keeps.{IsWhole, Returns}
use info_crate.Cluster.Query.Total.{execute_query-Returns}
use info_crate.Cluster.Query.Refused.{SameEngines, execute_query-refused, execute_query-empty_put}
use info_crate.Cluster.Reach.{here, next, partition, Reach-Returns, heartbeat-IsWhole}
use info_crate.Console.{Console, handle_execute}
use info_crate.Console.Shown.{IsShown, handle_execute-IsShown}
use info_crate.Chaos.{
  ChaosLab, OpInput, handle_run_workload, handle_heal_partition, handle_recover_all_nodes,
  switch_nodes, handle_simulate_split_brain, handle_kill_leader,
}
use info_crate.Chaos.Healed.{handlers_restore, scenarios_switch}
use info_crate.Chaos.Switches.{seek, flipped}
use info_crate.Dashboard.{all_nodes}
use info_crate.Chaos.Workload.{IsReported, handle_run_workload-IsReported}
use info_crate.Dashboard.{quorum_met}
use info_crate.Dashboard.Agrees.{success-quorum_met}
use info_crate.Tests.{alice, bob}

abbrev pub boot : BootInput
boot = record { now = 90000; jitter = λ id. 7; writes = λ id key. (80000, true ∷ []) }

abbrev pub asked : QueryInput
asked = record {
  query_id = units "q";
  timestamp = 91000;
  latency = 80;
  write_ts = λ id. 91000;
  flips = λ id. [];
}

Reach-Returns_example : Returns (
    execute_query unit_compare asked
      (toggle_node_partition unit_compare (init_cluster unit_compare boot) (units "node-1"))
      get
      alice
      none)
Reach-Returns_example =
    Reach-Returns unit_compare boot _ (next here (partition (units "node-1") refl)) asked get alice
      none

abbrev pub node_of : JsString → RaftRole → NodeState
node_of id role = record {
  id = id;
  shard_id = units "shard-0";
  role = role;
  current_term = 3;
  voted_for = none;
  commit_index = 0;
  last_applied = 0;
  grpc_port = 50051;
  metrics_port = 9091;
  is_healthy = true;
  is_partitioned = false;
  election_timeout_ms = 150;
  time_since_last_heartbeat = 0;
  log = [];
  wal_frames = [];
  memtable = [];
  immutable_memtables = [];
  sstables_l0 = [];
  sstables_l1 = [];
  bloom_checks = 0;
  bloom_hits = 0;
  compaction_count = 0;
}

abbrev pub shard_of : Option JsString → ShardState
shard_of leader_id = record {
  id = units "shard-0";
  shard_index = 0;
  leader_id = leader_id;
  nodes = node_of alice leader ∷ node_of bob follower ∷ [];
}

abbrev cluster_of : Option JsString → ClusterSimulator
cluster_of leader_id = record {
  shards = shard_of leader_id ∷ [];
  lsm_engines = (alice, empty_engine) ∷ (bob, empty_engine) ∷ [];
  metrics = first_metrics unit_compare boot;
  listeners = 1 ∷ [];
  query_history = [];
  notified = [];
}

abbrev pub served : ClusterSimulator
served = cluster_of (some alice)

pub served-IsWhole : IsWhole served
unfolding Dict.get str_eq find_leader names is_available
served-IsWhole = record {
  some_shards = omega arith;
  coherent = (
    record {
      engines_there = ((_, refl), ((_, refl), tt));
      unique = ((refl, tt), (tt, tt));
      led = inr (_, refl);
    },
    tt,
  );
}

heartbeat-IsServed_example : All IsServed (heartbeat unit_compare (cluster_of none)).shards
heartbeat-IsServed_example = heartbeat-IsServed unit_compare (cluster_of none)

abbrev pub ran : Returns (execute_query unit_compare asked served put bob (some (units "v")))
ran = execute_query-Returns unit_compare asked served put bob (some (units "v")) served-IsWhole

success-quorum_met_example : ran.0.success ≡ quorum_met (shard_of (some alice))
unfolding get_shard_for_key find_leader names is_available str_eq fnv1a64
success-quorum_met_example =
    success-quorum_met unit_compare asked served put bob (some (units "v")) (shard_of (some alice))
      (node_of alice leader) ran.0 ran.1 refl refl refl ((refl, tt), (tt, tt)) ran.2

abbrev emptied : Returns (execute_query unit_compare asked served put bob (some []))
emptied = execute_query-Returns unit_compare asked served put bob (some []) served-IsWhole

execute_query-empty_put_example : SameEngines served emptied.1
execute_query-empty_put_example =
    execute_query-empty_put unit_compare asked served bob emptied.0 emptied.1 emptied.2

abbrev turned_away : QueryResult × ClusterSimulator
turned_away =
    refuse asked (cluster_of none) put bob none 0 (shard_of none)
      (step_of asked 1 (router_hash bob 1 0) none (shard_of none) success ∷ [])

execute_query-refused_example :
    (turned_away.1.lsm_engines ≡ (cluster_of none).lsm_engines)
    × (turned_away.1.metrics ≡ (cluster_of none).metrics)
unfolding execute_query query_shard get_shard_for_key find_leader names is_available refuse fnv1a64
execute_query-refused_example =
    execute_query-refused unit_compare asked (cluster_of none) bob put none turned_away.0
      turned_away.1 refl refl

abbrev form : Console
form = record { command = put; key = units " user:2 "; value = units "v"; active_result = none }

handle_execute-IsShown_example :
    IsShown unit_compare asked form served (handle_execute unit_compare asked form served)
unfolding trim
handle_execute-IsShown_example =
    handle_execute-IsShown unit_compare asked form served 117 (units "ser:2") served-IsWhole refl

abbrev lab : ChaosLab
lab = record {
  is_running_workload = false;
  workload_progress = 0;
  workload_report = none;
  chaos_log = [];
}

abbrev ops : ℕ → OpInput
ops i = record { is_read = true; key_number = 3; val_number = 4; now = 5; query = asked }

handle_run_workload-IsReported_example :
    IsReported unit_compare ops
      (λ i s. heartbeat unit_compare s)
      (λ i s w. heartbeat-IsWhole unit_compare s w)
      (handle_run_workload unit_compare ops (λ i s. heartbeat unit_compare s) lab served)
handle_run_workload-IsReported_example =
    handle_run_workload-IsReported unit_compare ops (λ i s. heartbeat unit_compare s)
      (λ i s w. heartbeat-IsWhole unit_compare s w) lab served served-IsWhole

-- The second node is unhealthy and behind a partition; no engines stand behind the nodes.
abbrev broken : ClusterSimulator
broken = record served {
  shards =
      record (shard_of (some alice)) {
        nodes =
            node_of alice leader
            ∷ record (node_of bob follower) { is_healthy = false; is_partitioned = true }
            ∷ [];
      }
      ∷ [];
  lsm_engines = [];
}

abbrev restored : NodeState
restored = record (node_of bob follower) { is_healthy = false }

handlers_restore_example :
    (restored.is_partitioned ≡ false)
    × ((record (node_of bob follower) { is_partitioned = true }).is_healthy ≡ true)
unfolding handle_heal_partition handle_recover_all_nodes switch_nodes all_nodes toggle_node_health
    toggle_node_partition toggle_in notify sync_state sync_node sync_shard change_node Dict.get
    str_eq depose names
handlers_restore_example =
    handlers_restore unit_compare lab broken bob restored
      (record (node_of bob follower) { is_partitioned = true }) refl refl

scenarios_switch_example :
    (seek
        (λ n. n.is_partitioned)
        bob
        (all_nodes (handle_simulate_split_brain unit_compare lab served).1.shards)
      ≡ flipped
          (str_eq (units "node-1") bob)
          (seek (λ n. n.is_partitioned) bob (all_nodes served.shards)))
    × (seek
          (λ n. not n.is_healthy)
          bob
          (all_nodes (handle_kill_leader unit_compare lab served).1.shards)
        ≡ flipped (str_eq alice bob) (seek (λ n. not n.is_healthy) bob (all_nodes served.shards)))
scenarios_switch_example = scenarios_switch unit_compare lab served bob alice refl
