-- ===== src/Cluster/Members.antt =====
-- The nodes of the shards of src/engine/clusterSimulator.ts, by their ids.
use info_crate.Common.{
  ℕ, ◌≡◌, refl, ap, ◌∙◌, arith, Bool, inl, inr, Option, some, List, [], ◌∷◌, map, get_elem?,
  Ordering, Bool-cases, Option-cases, find, leb, length,
}
use info_crate.Text.{JsString, str_eq}
use info_crate.Dict
use info_crate.Cluster.{
  Command, NodeState, ShardState, QueryResult, ClusterSimulator, available_nodes, find_leader,
  notify, sync_shard, subscribe, unsubscribe, sync_state,
}
use info_crate.Cluster.Coherence.{Engines}
use info_crate.Cluster.Control
use info_crate.Cluster.Control.{
  switch_health, switch_partition, change_node, toggle_in, toggle_node_health,
  toggle_node_partition,
}
use info_crate.Cluster.Election.{promote, elected, hold_election, heartbeat_shard, heartbeat}
use info_crate.Cluster.Election.Leads.{sync_node_id}
use info_crate.Cluster.Query.{QueryInput, refuse, read_from, append_entry, commit_node}
use info_crate.Cluster.Query.Branch.{
  Branch, lost, reads, few, done, execute_query-Branch, committed, appended,
}
use info_crate.Cluster.Query.Keeps.{append_entry_id, commit_node_id}
use info_crate.Cluster.Query.Recorded.{
  of_nodes, map-eq, of_nodes-set_nodes, of_nodes-set_same, of_nodes-sync, of_nodes-commit_write,
}
use info_crate.Cluster.Reach.{
  Step, Reach, query, beat, health, partition, compaction, flush, listen, forget, here, next,
}

-- The ids of the nodes, shard by shard.
abbrev pub members : List ShardState → List (List JsString)
members shards = of_nodes (λ n. n.id) shards

elected_id : (candidate n : NodeState) → (elected candidate n).id ≡ n.id
unfolding elected promote
elected_id candidate n = ground arith

heartbeat_shard_ids :
    (shard : ShardState)
    → map (λ n. n.id) (heartbeat_shard shard).nodes ≡ map (λ n. n.id) shard.nodes
unfolding heartbeat_shard hold_election
heartbeat_shard_ids shard = elim (Option-cases (find_leader shard)) [
  | inr (l, led) ↦ rw (led, heartbeat_shard)
  | inl missing ↦ rw (missing, heartbeat_shard) (held (available_nodes shard.nodes))
]
  where
    held :
        (others : List NodeState)
        → map (λ n. n.id) (hold_election shard others).nodes ≡ map (λ n. n.id) shard.nodes
    held [] = refl
    held (candidate ∷ others) = elim (Bool-cases (leb 2 (length (candidate ∷ others)))) [
      | inl enough ↦
          rw enough
            (map-eq (λ n. n.id) (elected candidate) (λ n. n.id) (elected_id candidate) shard.nodes)
      | inr few_left ↦ rw few_left
    ]

members-heartbeat :
    (shards : List ShardState) → members (map heartbeat_shard shards) ≡ members shards
members-heartbeat [] = refl
members-heartbeat (shard ∷ shards) = rw (heartbeat_shard_ids shard, members-heartbeat shards)

module _ (change : NodeState → NodeState) (keep : (n : NodeState) → (change n).id ≡ n.id) where
  change_node_ids :
      (id : JsString) (nodes : List NodeState)
      → map (λ n. n.id) (change_node change id nodes) ≡ map (λ n. n.id) nodes
  unfolding change_node
  change_node_ids id [] = refl
  change_node_ids id (n ∷ nodes) = elim (Bool-cases (str_eq n.id id)) [
    | inl hit ↦ rw (hit, keep n)
    | inr miss ↦ rw (miss, change_node_ids id nodes)
  ]

  members-toggle_in :
      (down : NodeState → Bool) (id : JsString) (shards : List ShardState)
      → members (toggle_in change down id shards) ≡ members shards
  unfolding toggle_in
  members-toggle_in down id [] = refl
  members-toggle_in down id (shard ∷ shards) =
      elim (Option-cases (find (λ n. str_eq n.id id) shard.nodes)) [
        | inl missing ↦
            rw (missing, toggle_in)
              (ap (λ rest. map (λ n. n.id) shard.nodes ∷ rest) (members-toggle_in down id shards))
        | inr (n, found) ↦
            rw (found, toggle_in)
              (ap (λ first. first ∷ members shards) (change_node_ids id shard.nodes))
      ]

module _ (collate : JsString → JsString → Ordering) where
  members-sync :
      (engines : Engines) (shards : List ShardState)
      → members (map (sync_shard collate engines) shards) ≡ members shards
  members-sync engines shards =
      of_nodes-sync (λ n. n.id) collate engines (sync_node_id collate engines) shards

  members-trigger_compaction :
      (s : ClusterSimulator) (id : JsString)
      → members (Control.trigger_compaction collate s id).shards ≡ members s.shards
  unfolding Control.trigger_compaction notify sync_state
  members-trigger_compaction s id = elim (Option-cases (Dict.get id s.lsm_engines)) [
    | inl missing ↦ rw (missing, Control.trigger_compaction)
    | inr (lsm, own) ↦ rw (own, Control.trigger_compaction) (members-sync _ s.shards)
  ]

  members-flush_memtable :
      (s : ClusterSimulator) (id : JsString)
      → members (Control.flush_memtable collate s id).shards ≡ members s.shards
  unfolding Control.flush_memtable notify sync_state
  members-flush_memtable s id = elim (Option-cases (Dict.get id s.lsm_engines)) [
    | inl missing ↦ rw (missing, Control.flush_memtable)
    | inr (lsm, own) ↦ rw (own, Control.flush_memtable) (members-sync _ s.shards)
  ]

  module _ (input : QueryInput) (s : ClusterSimulator) (command : Command) (key : JsString)
      (value : Option JsString) (index : ℕ) (shard : ShardState)
      (there : get_elem? s.shards index ≡ some shard) where
    appended_ids :
        (l : NodeState)
        → map (λ n. n.id) (appended collate input s command key value shard l)
          ≡ map (λ n. n.id) shard.nodes
    appended_ids l =
        map-eq (λ n. n.id) (append_entry l _) (λ n. n.id) (append_entry_id l _) shard.nodes

    committed_ids :
        (l : NodeState)
        → map (λ n. n.id) (committed collate input s command key value shard l)
          ≡ map (λ n. n.id) shard.nodes
    committed_ids l =
        map-eq (λ n. n.id) (commit_node l _) (λ n. n.id) (commit_node_id l _) _ ∙ appended_ids l

    members-Branch :
        (r : QueryResult) (t : ClusterSimulator)
        → Branch collate input s command key value index shard r t
        → members t.shards ≡ members s.shards
    unfolding refuse read_from notify
    members-Branch r t (lost steps led re te) = rw te
    members-Branch r t (reads steps l lsm c led own re te) = rw te
    members-Branch r t (few steps l w led q re te) = rw te (
        of_nodes-set_nodes (λ n. n.id) s.shards index _
        ∙ rw (appended_ids l) (of_nodes-set_same (λ n. n.id) s.shards index shard there))
    members-Branch r t (done steps l engines w led q applied re te) = rw te (
        of_nodes-commit_write (λ n. n.id) collate input s command engines index _ r
          (sync_node_id collate engines)
        ∙ rw (committed_ids l) (of_nodes-set_same (λ n. n.id) s.shards index shard there))

  members-Step : {s t : ClusterSimulator} → Step collate s t → members t.shards ≡ members s.shards
  unfolding heartbeat toggle_node_health toggle_node_partition subscribe unsubscribe notify
      sync_state
  members-Step {s} {t} (query input command key value r e) =
      let (shard, there, branch) = execute_query-Branch collate input s command key value r t e in
      members-Branch input s command key value _ shard there r t branch
  members-Step {s} (beat e) = rw e (members-sync _ _ ∙ members-heartbeat s.shards)
  members-Step {s} (health id e) =
      rw e (members-sync _ _ ∙ members-toggle_in switch_health (λ n. refl) _ id s.shards)
  members-Step {s} (partition id e) =
      rw e (members-sync _ _ ∙ members-toggle_in switch_partition (λ n. refl) _ id s.shards)
  members-Step {s} (compaction id e) = rw e (members-trigger_compaction s id)
  members-Step {s} (flush id e) = rw e (members-flush_memtable s id)
  members-Step (listen l e) = rw e
  members-Step (forget l e) = rw e

  -- Nothing that happens to a cluster, in any order, adds, removes or moves a node: the ids of the
  -- nodes of each shard stay the same, in their order.
  pub Reach-members :
      (s t : ClusterSimulator) → Reach collate s t → members t.shards ≡ members s.shards
  Reach-members s t here = refl
  Reach-members s t (next r x) = members-Step x ∙ Reach-members s _ r
