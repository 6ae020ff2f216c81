-- ===== src/Cluster/Query.antt =====
-- `executeQuery` of src/engine/clusterSimulator.ts. What the code reads from the platform in a call
-- (the query's random id, times, coin tosses) is the argument `input`; `none` is an exception, which
-- is thrown where a shard or an engine is looked up that is not there.
pub mod Apply
pub mod Keeps
pub mod Total
pub mod Answer
pub mod Refused
pub mod Branch
pub mod Replicated
pub mod ReadBack
pub mod Recorded
pub mod Trace
use info_crate.Common.{
  ℕ, ◌+◌, ◌/◌, Bool, true, false, ◌&&◌, not, Option, none, some, List, [], ◌∷◌, ◌++◌, map, length,
  select, get_elem?, drop_last, ltb, leb, if◌then◌else◌, Ordering,
}
use info_crate.Text.{JsString, str_eq, units}
use info_crate.Dict
use info_crate.Dict.{Dict}
use info_crate.Lsm
use info_crate.Lsm.{SimulatedLsmEngine}
use info_crate.Lsm.Lookup
use info_crate.Lsm.Lookup.{GetResult}
use info_crate.Cluster.{
  Command, put, get, delete, RaftLogEntry, NodeState, ShardState, StepStatus, success, warning,
  error, StepText, router_hash, leader_unavailable, client_request, hierarchy_lookup, log_append,
  quorum_replication, engine_apply, ExecutionStep, QueryError, cluster_unavailable,
  raft_quorum_failure, QueryResult, ClusterMetrics, ClusterSimulator, is_available, find_leader,
  get_shard_for_key, notify, sync_state,
}

pub record QueryInput : Type 0 where
  pub query_id : JsString
  pub timestamp : ℕ
  pub latency : ℕ
  pub write_ts : JsString → ℕ
  pub flips : JsString → List Bool

abbrev pub id_or_none : Option JsString → JsString
id_or_none none = units "none"
id_or_none (some id) = id

module _ (input : QueryInput) where
  abbrev pub step_of : ℕ → StepText → Option JsString → ShardState → StepStatus → ExecutionStep
  step_of number text node_id shard status = record {
    step_number = number;
    text = text;
    node_id = node_id;
    shard_id = shard.id;
    status = status;
    timestamp = input.timestamp;
  }

  abbrev pub result_of :
      Command
      → JsString
      → Option JsString
      → ℕ
      → JsString
      → Bool
      → Option Bool
      → List ExecutionStep
      → Option QueryError
      → QueryResult
  result_of command key value shard_index leader_id done found steps failure = record {
    id = input.query_id;
    command = command;
    key = key;
    value = value;
    shard_index = shard_index;
    target_node_id = leader_id;
    leader_id = leader_id;
    success = done;
    found = found;
    latency = input.latency;
    timestamp = input.timestamp;
    steps = steps;
    error = failure;
  }

  -- `this.queryHistory.unshift(res); this.notify(); return res;`
  abbrev pub finish : ClusterSimulator → QueryResult → QueryResult × ClusterSimulator
  finish s res = (res, notify (record s { query_history = res ∷ s.query_history }))

  -- No leader: the query is refused.
  unfoldable pub refuse :
      ClusterSimulator
      → Command
      → JsString
      → Option JsString
      → ℕ
      → ShardState
      → List ExecutionStep
      → QueryResult × ClusterSimulator
  refuse s command key value index shard steps = finish s (
      result_of command key value index (id_or_none shard.leader_id) false none
        (steps ++ step_of 2 (leader_unavailable index) none shard error ∷ [])
        (some cluster_unavailable))

  -- GET: the leader's engine is asked.
  unfoldable pub read_from :
      ClusterSimulator
      → JsString
      → ℕ
      → ShardState
      → NodeState
      → List ExecutionStep
      → GetResult
      → QueryResult × ClusterSimulator
  read_from s key index shard leader steps got =
      finish
        (record s {
          metrics = record s.metrics {
            total_reads = s.metrics.total_reads + 1;
            bloom_checks = s.metrics.bloom_checks + (if got.bloom_checked then 1 else 0);
            bloom_hits = if got.found then s.metrics.bloom_hits + 1 else s.metrics.bloom_hits;
          };
        })
        (result_of get key got.value index leader.id true (some got.found)
          (steps
            ++ step_of 3 (hierarchy_lookup got.location got.bloom_checked) (some leader.id) shard
                (if got.found then success else warning)
              ∷ [])
          none)

  unfoldable pub new_entry : Command → JsString → Option JsString → NodeState → RaftLogEntry
  new_entry command key value leader = record {
    term = leader.current_term;
    index = length leader.log + 1;
    command_type = command;
    key = key;
    value = value;
    timestamp = input.timestamp;
  }

-- `n.id !== leader.id && n.isHealthy && !n.isPartitioned`
abbrev pub is_peer : NodeState → NodeState → Bool
is_peer leader n = not (str_eq n.id leader.id) && is_available n

-- The leader and its available followers append the entry.
unfoldable pub append_entry : NodeState → RaftLogEntry → NodeState → NodeState
append_entry leader entry n =
    if str_eq n.id leader.id
    then record n { log = n.log ++ entry ∷ [] }
    else if is_available n
    then record n { log = n.log ++ entry ∷ [] }
    else n

-- The acknowledgements: the leader's own and the followers'.
unfoldable pub acks_of : NodeState → List NodeState → ℕ
acks_of leader nodes = 1 + length (select (is_peer leader) nodes)

unfoldable pub quorum_of : List NodeState → ℕ
quorum_of nodes = length nodes / 2 + 1

-- `leader.commitIndex = nextIndex`, and the indices of each available node.
unfoldable pub commit_node : NodeState → ℕ → NodeState → NodeState
commit_node leader index n =
    if is_available n
    then record n { commit_index = index; last_applied = index }
    else if str_eq n.id leader.id
    then record n { commit_index = index }
    else n

-- The shard's slot of the array is changed, as the nodes are changed in place.
unfoldable pub set_nodes : List ShardState → ℕ → List NodeState → List ShardState
set_nodes [] index nodes = []
set_nodes (shard ∷ shards) ℕ.zero nodes = record shard { nodes = nodes } ∷ shards
set_nodes (shard ∷ shards) (ℕ.suc index) nodes = shard ∷ set_nodes shards index nodes
