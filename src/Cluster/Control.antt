-- ===== src/Cluster/Control.antt =====
-- The switches of src/engine/clusterSimulator.ts: health, partitions, compaction and flush.
use info_crate.Common.{
  ◌+◌, Bool, not, Option, none, some, List, [], ◌∷◌, find, if◌then◌else◌, Ordering, ◌&&◌,
}
use info_crate.Text.{JsString, str_eq}
use info_crate.Dict
use info_crate.Lsm
use info_crate.Cluster.{NodeState, ShardState, ClusterSimulator, names, notify, sync_state}

abbrev pub switch_health : NodeState → NodeState
switch_health n = record n { is_healthy = not n.is_healthy }

abbrev pub switch_partition : NodeState → NodeState
switch_partition n = record n { is_partitioned = not n.is_partitioned }

-- `if (!node.isHealthy && shard.leaderId === nodeId) shard.leaderId = null`, and the same for a
-- partition: `down` tells of the node after the switch.
unfoldable pub depose : Bool → JsString → Option JsString → Option JsString
depose down node_id leader_id = if down && names leader_id node_id then none else leader_id

-- The change of the first node with the id, in one shard.
unfoldable pub change_node : (NodeState → NodeState) → JsString → List NodeState → List NodeState
change_node change node_id [] = []
change_node change node_id (n ∷ nodes) =
    if str_eq n.id node_id then change n ∷ nodes else n ∷ change_node change node_id nodes

-- The loop over the shards, which ends at the first that has the node.
unfoldable pub toggle_in :
    (NodeState → NodeState) → (NodeState → Bool) → JsString → List ShardState → List ShardState
toggle_in change down node_id [] = []
toggle_in change down node_id (shard ∷ shards) =
    elim (find (λ n. str_eq n.id node_id) shard.nodes) [
      | none ↦ shard ∷ toggle_in change down node_id shards
      | some node ↦
          record shard {
            nodes = change_node change node_id shard.nodes;
            leader_id = depose (down (change node)) node_id shard.leader_id;
          }
          ∷ shards
    ]

module _ (collate : JsString → JsString → Ordering) where
  unfoldable pub toggle_node_health : ClusterSimulator → JsString → ClusterSimulator
  toggle_node_health s node_id = notify (
      sync_state collate
        (record s { shards = toggle_in switch_health (λ n. not n.is_healthy) node_id s.shards }))

  unfoldable pub toggle_node_partition : ClusterSimulator → JsString → ClusterSimulator
  toggle_node_partition s node_id = notify (
      sync_state collate
        (record s { shards = toggle_in switch_partition (λ n. n.is_partitioned) node_id s.shards }))

  unfoldable pub trigger_compaction : ClusterSimulator → JsString → ClusterSimulator
  trigger_compaction s node_id = elim (Dict.get node_id s.lsm_engines) [
    | none ↦ s
    | some lsm ↦ notify (
        sync_state collate (record s {
          lsm_engines = Dict.set node_id (Lsm.trigger_compaction collate lsm) s.lsm_engines;
          metrics = record s.metrics { compactions = s.metrics.compactions + 1 };
        }))
  ]

  unfoldable pub flush_memtable : ClusterSimulator → JsString → ClusterSimulator
  flush_memtable s node_id = elim (Dict.get node_id s.lsm_engines) [
    | none ↦ s
    | some lsm ↦ notify (
        sync_state collate (record s {
          lsm_engines = Dict.set node_id (Lsm.rotate_and_flush collate lsm) s.lsm_engines;
        }))
  ]
