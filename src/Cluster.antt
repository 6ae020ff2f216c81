-- ===== src/Cluster.antt =====
-- The state of `ClusterSimulator` in src/engine/clusterSimulator.ts, with the views of
-- src/types/infocrate.ts, and the helpers that its methods share: the mirror of the engines in the
-- nodes (`syncState`), the callbacks (`subscribe`, `notify`) and the routing of keys.
pub mod Election
pub mod Control
pub mod Query
pub mod Boot
pub mod Coherence
pub mod Switched
pub mod Reach
pub mod EachEngine
pub mod Mirrored
pub mod Members
use info_crate.Common.{
  ℕ, zero, suc, ◌+◌, ◌%◌, Bool, true, false, ◌&&◌, not, Option, none, some, List, [], ◌∷◌, ◌++◌,
  map, length, select, find, ◌==◌, if◌then◌else◌, Ordering,
}
use info_crate.Text.{JsString, str_eq}
use info_crate.Dict
use info_crate.Dict.{Dict}
use info_crate.Hash.{fnv1a64}
use info_crate.Wal.{WalFrame}
use info_crate.SsTable.{SsTableView}
use info_crate.Lsm.{SimulatedLsmEngine, SkipListNodeView, get_memtable_snapshot}
use info_crate.Lsm.Lookup.{Location}

pub data RaftRole : Type 0 where
  leader follower candidate : RaftRole

pub data Command : Type 0 where
  put get delete : Command

pub record RaftLogEntry : Type 0 where
  pub term : ℕ
  pub index : ℕ
  pub command_type : Command
  pub key : JsString
  pub value : Option JsString
  pub timestamp : ℕ

pub record NodeState : Type 0 where
  pub id : JsString
  pub shard_id : JsString
  pub role : RaftRole
  pub current_term : ℕ
  pub voted_for : Option JsString
  pub commit_index : ℕ
  pub last_applied : ℕ
  pub grpc_port : ℕ
  pub metrics_port : ℕ
  pub is_healthy : Bool
  pub is_partitioned : Bool
  pub election_timeout_ms : ℕ
  pub time_since_last_heartbeat : ℕ
  pub log : List RaftLogEntry
  pub wal_frames : List WalFrame
  pub memtable : List SkipListNodeView
  pub immutable_memtables : List (List SkipListNodeView)
  pub sstables_l0 : List SsTableView
  pub sstables_l1 : List SsTableView
  pub bloom_checks : ℕ
  pub bloom_hits : ℕ
  pub compaction_count : ℕ

pub record ShardState : Type 0 where
  pub id : JsString
  pub shard_index : ℕ
  pub leader_id : Option JsString
  pub nodes : List NodeState

pub data StepStatus : Type 0 where
  pending active success warning error : StepStatus

-- The title and the description of a step, as the values that its texts show.
pub data StepText : Type 0 where
  router_hash : JsString → ℕ → ℕ → StepText
  leader_unavailable : ℕ → StepText
  client_request : Command → JsString → ℕ → StepText
  hierarchy_lookup : Location → Bool → StepText
  log_append : ℕ → ℕ → Command → JsString → StepText
  quorum_replication : ℕ → ℕ → Bool → ℕ → StepText
  engine_apply : StepText

pub record ExecutionStep : Type 0 where
  pub step_number : ℕ
  pub text : StepText
  pub node_id : Option JsString
  pub shard_id : JsString
  pub status : StepStatus
  pub timestamp : ℕ

pub data QueryError : Type 0 where
  cluster_unavailable raft_quorum_failure : QueryError

-- `latency` is in hundredths of a millisecond.
pub record QueryResult : Type 0 where
  pub id : JsString
  pub command : Command
  pub key : JsString
  pub value : Option JsString
  pub shard_index : ℕ
  pub target_node_id : JsString
  pub leader_id : JsString
  pub success : Bool
  pub found : Option Bool
  pub latency : ℕ
  pub timestamp : ℕ
  pub steps : List ExecutionStep
  pub error : Option QueryError

-- The latencies are in hundredths of a millisecond; no code changes them after the start.
pub record ClusterMetrics : Type 0 where
  pub total_writes : ℕ
  pub total_reads : ℕ
  pub total_deletes : ℕ
  pub avg_latency : ℕ
  pub p99_latency : ℕ
  pub qps : ℕ
  pub bloom_hits : ℕ
  pub bloom_checks : ℕ
  pub compactions : ℕ
  pub history_qps : List (JsString × ℕ × ℕ)

-- A listener is named by a number, its identity; `notified` is the record of the calls made.
pub record ClusterSimulator : Type 0 where
  pub shards : List ShardState
  pub lsm_engines : Dict SimulatedLsmEngine
  pub metrics : ClusterMetrics
  pub listeners : List ℕ
  pub query_history : List QueryResult
  pub notified : List ℕ

-- `n.isHealthy && !n.isPartitioned`
unfoldable pub is_available : NodeState → Bool
is_available n = n.is_healthy && not n.is_partitioned

-- `n.id === shard.leaderId`
unfoldable pub names : Option JsString → JsString → Bool
names none id = false
names (some leader_id) id = str_eq id leader_id

unfoldable pub find_leader : ShardState → Option NodeState
find_leader shard = find (λ n. names shard.leader_id n.id && is_available n) shard.nodes

abbrev pub available_nodes : List NodeState → List NodeState
available_nodes = select is_available

unfoldable pub get_shard_for_key : ClusterSimulator → JsString → ℕ
get_shard_for_key s key = fnv1a64 key % length s.shards

unfoldable pub notify : ClusterSimulator → ClusterSimulator
notify s = record s { notified = s.notified ++ s.listeners }

unfoldable pub subscribe : ClusterSimulator → ℕ → ClusterSimulator
subscribe s listener = record s { listeners = s.listeners ++ listener ∷ [] }

-- The function that `subscribe` returns.
unfoldable pub unsubscribe : ClusterSimulator → ℕ → ClusterSimulator
unsubscribe s listener = record s { listeners = select (λ l. not (l == listener)) s.listeners }

module _ (collate : JsString → JsString → Ordering) where
  -- A node shows its engine's tables; the snapshot of the memtable is taken anew.
  unfoldable pub sync_node : Dict SimulatedLsmEngine → NodeState → NodeState
  sync_node engines node = elim (Dict.get node.id engines) [
    | none ↦ node
    | some lsm ↦ record node {
      wal_frames = lsm.wal_frames;
      memtable = get_memtable_snapshot collate lsm;
      sstables_l0 = lsm.l0_tables;
      sstables_l1 = lsm.l1_tables;
    }
  ]

  unfoldable pub sync_shard : Dict SimulatedLsmEngine → ShardState → ShardState
  unfolding sync_node
  sync_shard engines shard = record shard { nodes = map (sync_node engines) shard.nodes }

  unfoldable pub sync_state : ClusterSimulator → ClusterSimulator
  sync_state s = record s { shards = map (sync_shard s.lsm_engines) s.shards }
