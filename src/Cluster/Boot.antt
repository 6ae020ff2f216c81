-- ===== src/Cluster/Boot.antt =====
-- The start of src/engine/clusterSimulator.ts: two shards of three nodes, each node with an engine
-- that the shard's first keys are put into. What the platform decides is the argument `input`.
use info_crate.Common.{ℕ, ◌+◌, ◌-◌, Bool, true, false, Option, none, some, List, [], ◌∷◌, Ordering}
use info_crate.Text.{JsString, units}
use info_crate.Dict
use info_crate.Dict.{Dict}
use info_crate.Lsm.{SimulatedLsmEngine, empty_engine, load, get_memtable_snapshot}
use info_crate.Cluster.{
  RaftRole, leader, follower, candidate, put, RaftLogEntry, NodeState, ShardState, ClusterMetrics,
  ClusterSimulator,
}

-- The time of day, each node's random part of the election timeout, and for each node and key the
-- time stamp and the coin tosses of the first `put`.
pub record BootInput : Type 0 where
  pub now : ℕ
  pub jitter : JsString → ℕ
  pub writes : JsString → JsString → ℕ × List Bool

abbrev pub initial_keys_shard0 : List (JsString × JsString)
initial_keys_shard0 =
    (units "user:1001", units "{\"name\":\"Alice\",\"role\":\"Admin\",\"tier\":\"Enterprise\"}")
    ∷ (units "user:1003", units "{\"name\":\"Charlie\",\"role\":\"Engineer\",\"tier\":\"Pro\"}")
    ∷ (units "org:alpha", units "{\"plan\":\"Standard\",\"seats\":50}")
    ∷ []

abbrev pub initial_keys_shard1 : List (JsString × JsString)
initial_keys_shard1 =
    (units "user:1002", units "{\"name\":\"Bob\",\"role\":\"Architect\",\"tier\":\"Enterprise\"}")
    ∷ (
      units "user:1004",
      units "{\"name\":\"Diana\",\"role\":\"Security\",\"tier\":\"Enterprise\"}",
    )
    ∷ (units "org:beta", units "{\"plan\":\"Enterprise\",\"seats\":500}")
    ∷ []

abbrev pub first_vote : RaftRole → JsString → Option JsString
first_vote leader id = some id
first_vote candidate id = some id
first_vote follower id = none

abbrev pub first_log : ℕ → ℕ → List RaftLogEntry
first_log now term =
    record {
      term = 1;
      index = 1;
      command_type = put;
      key = units "cluster:init";
      value = some (units "OK");
      timestamp = now - 50000;
    }
    ∷ record {
      term = term;
      index = 2;
      command_type = put;
      key = units "sys:epoch";
      value = some (units "1");
      timestamp = now - 20000;
    }
    ∷ []

module _ (collate : JsString → JsString → Ordering) (input : BootInput) where
  unfoldable pub boot_engine : JsString → List (JsString × JsString) → SimulatedLsmEngine
  boot_engine id initial_data = load collate (input.writes id) initial_data empty_engine

  -- The node that `createNode` returns; its engine is `boot_engine id initial_data`.
  unfoldable pub create_node :
      JsString → JsString → RaftRole → ℕ → ℕ → ℕ → List (JsString × JsString) → NodeState
  create_node id shard_id role term grpc_port metrics_port initial_data =
      let lsm = boot_engine id initial_data in
      record {
        id = id;
        shard_id = shard_id;
        role = role;
        current_term = term;
        voted_for = first_vote role id;
        commit_index = 2;
        last_applied = 2;
        grpc_port = grpc_port;
        metrics_port = metrics_port;
        is_healthy = true;
        is_partitioned = false;
        election_timeout_ms = 150 + input.jitter id;
        time_since_last_heartbeat = 0;
        log = first_log input.now term;
        wal_frames = lsm.wal_frames;
        memtable = get_memtable_snapshot collate lsm;
        immutable_memtables = [];
        sstables_l0 = lsm.l0_tables;
        sstables_l1 = lsm.l1_tables;
        bloom_checks = 24;
        bloom_hits = 18;
        compaction_count = 1;
      }

  unfoldable pub boot_engines : Dict SimulatedLsmEngine
  boot_engines = Dict.set (units "node-6") (boot_engine (units "node-6") initial_keys_shard1) (
      Dict.set (units "node-5") (boot_engine (units "node-5") initial_keys_shard1) (
        Dict.set (units "node-4") (boot_engine (units "node-4") initial_keys_shard1) (
          Dict.set (units "node-3") (boot_engine (units "node-3") initial_keys_shard0) (
            Dict.set (units "node-2") (boot_engine (units "node-2") initial_keys_shard0)
              (Dict.set (units "node-1") (boot_engine (units "node-1") initial_keys_shard0) [])))))

  unfoldable pub init_shards : List ShardState
  init_shards =
      let node0 = λ (id : JsString) (role : RaftRole) (grpc metrics : ℕ).
        create_node id (units "shard-0") role 3 grpc metrics initial_keys_shard0 in
      let node1 = λ (id : JsString) (role : RaftRole) (grpc metrics : ℕ).
        create_node id (units "shard-1") role 2 grpc metrics initial_keys_shard1 in
      record {
        id = units "shard-0";
        shard_index = 0;
        leader_id = some (units "node-1");
        nodes =
            node0 (units "node-1") leader 50051 9091
            ∷ node0 (units "node-2") follower 50052 9092
            ∷ node0 (units "node-3") follower 50053 9093
            ∷ [];
      }
      ∷ record {
        id = units "shard-1";
        shard_index = 1;
        leader_id = some (units "node-4");
        nodes =
            node1 (units "node-4") leader 50054 9094
            ∷ node1 (units "node-5") follower 50055 9095
            ∷ node1 (units "node-6") follower 50056 9096
            ∷ [];
      }
      ∷ []

  abbrev pub first_metrics : ClusterMetrics
  first_metrics = record {
    total_writes = 0;
    total_reads = 0;
    total_deletes = 0;
    avg_latency = 145;
    p99_latency = 320;
    qps = 0;
    bloom_hits = 142;
    bloom_checks = 380;
    compactions = 4;
    history_qps = [];
  }

  unfoldable pub init_cluster : ClusterSimulator
  init_cluster = record {
    shards = init_shards;
    lsm_engines = boot_engines;
    metrics = first_metrics;
    listeners = [];
    query_history = [];
    notified = [];
  }
