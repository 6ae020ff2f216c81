-- ===== src/Cluster/Election.antt =====
-- The heartbeat of src/engine/clusterSimulator.ts: in each shard that has no available leader and
-- at least two available nodes, the first of these takes the lead.
pub mod Leads
pub mod Safety
use info_crate.Common.{
  ℕ, suc, ◌+◌, Bool, true, false, ◌&&◌, Option, none, some, List, [], ◌∷◌, map, length, leb,
  if◌then◌else◌, Ordering,
}
use info_crate.Text.{JsString, str_eq}
use info_crate.Cluster.{
  NodeState, ShardState, ClusterSimulator, leader, follower, is_available, find_leader,
  available_nodes, notify, sync_state,
}

-- The candidate of the source is, in the end, the leader of a term of its own.
unfoldable pub promote : NodeState → NodeState
promote candidate = record candidate {
  role = leader;
  current_term = candidate.current_term + 1;
  voted_for = some candidate.id;
}

-- What the election does to a node of the shard, whose ids are all different.
unfoldable pub elected : NodeState → NodeState → NodeState
unfolding promote
elected candidate n =
    if str_eq n.id candidate.id
    then promote n
    else if is_available n
    then record n { role = follower; current_term = candidate.current_term + 1 }
    else n

unfoldable pub hold_election : ShardState → List NodeState → ShardState
hold_election shard [] = shard
hold_election shard (candidate ∷ others) =
    if leb 2 (length (candidate ∷ others))
    then record shard { leader_id = some candidate.id; nodes = map (elected candidate) shard.nodes }
    else shard

unfoldable pub heartbeat_shard : ShardState → ShardState
heartbeat_shard shard = elim (find_leader shard) [
  | some l ↦ shard
  | none ↦ hold_election shard (available_nodes shard.nodes)
]

unfoldable pub heartbeat : (JsString → JsString → Ordering) → ClusterSimulator → ClusterSimulator
heartbeat collate s =
    notify (sync_state collate (record s { shards = map heartbeat_shard s.shards }))
