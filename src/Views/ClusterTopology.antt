-- ===== src/Views/ClusterTopology.antt =====
-- What src/components/ClusterTopology.tsx renders, and what its controls do. The selected node is one
-- of the cluster's own objects, so it is named by its id and read from the state of the moment.
use info_crate.Common.{
  ℕ, Bool, false, not, Option, none, some, List, [], ◌∷◌, ◌++◌, length, find, leb, if◌then◌else◌,
  Ordering,
}
use info_crate.Text.{JsString, units, str_eq}
use info_crate.Cluster.{
  RaftRole, leader, follower, candidate, RaftLogEntry, NodeState, ShardState, ClusterSimulator,
  available_nodes,
}
use info_crate.Cluster.Control.{
  toggle_node_health, toggle_node_partition, trigger_compaction, flush_memtable,
}
use info_crate.Dashboard.{all_nodes, quorum_met}
use info_crate.Views.{Item, shows, text, number, button, str, label, each}
use info_crate.Views.QueryConsole.{command_name}

-- `shards[0]?.nodes[0] || null`
unfoldable pub first_selected : List ShardState → Option JsString
first_selected [] = none
first_selected (shard ∷ shards) = elim shard.nodes [ [] ↦ none | n ∷ nodes ↦ some n.id ]

pub data TopologyAction : Type 0 where
  set_selected_node switch_health switch_partition flush compact : JsString → TopologyAction

module _ (collate : JsString → JsString → Ordering) where
  unfoldable pub act_topology :
      TopologyAction → Option JsString → ClusterSimulator → Option JsString × ClusterSimulator
  act_topology (set_selected_node id) selected s = (some id, s)
  act_topology (switch_health id) selected s = (selected, toggle_node_health collate s id)
  act_topology (switch_partition id) selected s = (selected, toggle_node_partition collate s id)
  act_topology (flush id) selected s = (selected, flush_memtable collate s id)
  act_topology (compact id) selected s = (selected, trigger_compaction collate s id)

abbrev pub role_name : RaftRole → JsString
role_name leader = units "LEADER"
role_name follower = units "FOLLOWER"
role_name candidate = units "CANDIDATE"

unfoldable pub node_badge : NodeState → JsString
node_badge node =
    if not node.is_healthy
    then units "OFFLINE"
    else if node.is_partitioned
    then units "PARTITIONED"
    else role_name node.role

-- `selectedNode?.id === node.id`
abbrev pub is_selected : Option JsString → JsString → Bool
is_selected none id = false
is_selected (some selected) id = str_eq selected id

-- The card, a click on which selects the node, and its two controls, which keep the click to
-- themselves.
unfoldable pub node_card : Option JsString → NodeState → List (Item TopologyAction)
node_card selected node =
    button (is_selected selected node.id) (set_selected_node node.id) (
      text node.id
      ∷ text (node_badge node)
      ∷ str "Term: "
      ∷ number node.current_term
      ∷ str "CommitIdx: "
      ∷ number node.commit_index
      ∷ str "Port: "
      ∷ number node.grpc_port
      ∷ str "Memtable: "
      ∷ number (length node.memtable)
      ∷ str " keys"
      ∷ str "WAL: "
      ∷ number (length node.wal_frames)
      ∷ str " frames"
      ∷ str "L0 SSTs: "
      ∷ number (length node.sstables_l0)
      ∷ str "L1 SSTs: "
      ∷ number (length node.sstables_l1)
      ∷ [])
    ∷ button false (switch_health node.id)
        (str (if node.is_healthy then "Kill / Stop Node" else "Restart / Recover Node") ∷ [])
    ∷ button node.is_partitioned (switch_partition node.id)
        (str (if node.is_partitioned then "Rejoin Network" else "Isolate Network Partition") ∷ [])
    ∷ []

abbrev pub quorum_badge : ShardState → List (Item TopologyAction)
quorum_badge shard =
    if quorum_met shard
    then label "Quorum OK ("
      ∷ shows (number (length (available_nodes shard.nodes)))
      ∷ label "/"
      ∷ shows (number (length shard.nodes))
      ∷ label ")"
      ∷ []
    else label "Quorum Lost" ∷ []

unfoldable pub shard_panel : Option JsString → ShardState → List (Item TopologyAction)
shard_panel selected shard =
    label "Shard "
      ∷ shows (number shard.shard_index)
      ∷ label " ("
      ∷ shows (text shard.id)
      ∷ label ")"
      ∷ label "Raft Group "
      ∷ shows (number shard.shard_index)
      ∷ label " • "
      ∷ shows (number (length shard.nodes))
      ∷ label " Replicas"
      ∷ quorum_badge shard
    ++ each (node_card selected) shard.nodes

-- `entry.value || '<Tombstone>'`
abbrev pub value_or_tombstone : Option JsString → JsString
value_or_tombstone none = units "<Tombstone>"
value_or_tombstone (some []) = units "<Tombstone>"
value_or_tombstone (some (c ∷ value)) = c ∷ value

unfoldable pub log_row : ℕ → RaftLogEntry → List (Item TopologyAction)
log_row commit_index entry =
    label "#"
    ∷ shows (number entry.index)
    ∷ label "Term "
    ∷ shows (number entry.term)
    ∷ shows (text (command_name entry.command_type))
    ∷ shows (text entry.key)
    ∷ shows (text (value_or_tombstone entry.value))
    ∷ label (if leb entry.index commit_index then "Committed" else "Uncommitted")
    ∷ []

abbrev pub log_panel : Option NodeState → List (Item TopologyAction)
log_panel none = []
log_panel (some node) =
    shows (text node.id)
    ∷ label " — Raft Consensus Log & Storage State"
    ∷ label "Replicated log sequence applied to the local LSM storage engine on quorum commit."
    ∷ button false (flush node.id) (str "Flush Memtable → L0" ∷ [])
    ∷ button false (compact node.id) (str "Compact (L0 → L1)" ∷ [])
    ∷ label "Log Index"
    ∷ label "Raft Term"
    ∷ label "Command"
    ∷ label "Key"
    ∷ label "Value Payload"
    ∷ label "Commit Status"
    ∷ each (log_row node.commit_index) node.log

abbrev pub node_named : Option JsString → List NodeState → Option NodeState
node_named none nodes = none
node_named (some id) nodes = find (λ n. str_eq n.id id) nodes

unfoldable pub cluster_topology : List ShardState → Option JsString → List (Item TopologyAction)
cluster_topology shards selected =
    label "Cluster Topology & Raft State Machines"
      ∷ label
          "Each shard forms an independent Raft consensus group ensuring strict quorum replication (N/2 + 1)."
      ∷ label "HEARTBEAT: 50ms"
      ∷ label "TIMEOUT: 150-300ms"
      ∷ each (shard_panel selected) shards
    ++ log_panel (node_named selected (all_nodes shards))
