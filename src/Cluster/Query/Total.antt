-- ===== src/Cluster/Query/Total.antt =====
-- `executeQuery` of src/engine/clusterSimulator.ts on a coherent cluster.
use info_crate.Common.{
  ℕ, ◌%◌, ◌<◌, ◌≡◌, refl, subst, arith, inl, inr, Option, none, some, List, map, length, leb,
  get_elem?, Ordering, All, All-map, length-map, Bool-cases, Option-cases,
}
use info_crate.Text.{JsString}
use info_crate.Hash.{fnv1a64}
use info_crate.Cluster.{
  Command, put, get, delete, RaftLogEntry, NodeState, ShardState, ExecutionStep, QueryResult,
  ClusterSimulator, find_leader, get_shard_for_key, notify, sync_shard, sync_state,
}
use info_crate.Cluster.Election.Leads.{leads}
use info_crate.Cluster.Coherence.{
  Engines, HasEngine, IsCoherent, map-IsCoherent, sync_shard-IsCoherent,
}
use info_crate.Cluster.Query.{
  QueryInput, refuse, read_from, new_entry, append_entry, acks_of, quorum_of, commit_node,
  set_nodes,
}
use info_crate.Cluster.Query.Apply.{commit_write, write_to, dispatch, query_shard, execute_query}
use info_crate.Cluster.Query.Keeps.{
  All-get_elem?, All-set_nodes, IsWhole, Returns, append_entry_id, append_entry-available,
  commit_node_id, commit_node-available, apply_nodes_total, length-set_nodes, get_elem?_total,
  All-find,
}

module _ (collate : JsString → JsString → Ordering) (input : QueryInput) where
  module _ (s : ClusterSimulator) (command : Command) (key : JsString) (value : Option JsString)
      (index : ℕ) (shard : ShardState) (here : get_elem? s.shards index ≡ some shard)
      (w : IsWhole s) where
    set_nodes-IsWhole :
        (nodes : List NodeState)
        → IsCoherent s.lsm_engines (record shard { nodes = nodes })
        → IsWhole (record s { shards = set_nodes s.shards index nodes })
    set_nodes-IsWhole nodes c = record {
      some_shards = omega (arith, length-set_nodes s.shards index nodes, w.some_shards);
      coherent =
          All-set_nodes (IsCoherent s.lsm_engines) s.shards index shard nodes here c w.coherent;
    }

    own : IsCoherent s.lsm_engines shard
    own = All-get_elem? (IsCoherent s.lsm_engines) s.shards index shard here w.coherent

    module _ (leader : NodeState) (entry : RaftLogEntry) where
      appended : List NodeState
      appended = map (append_entry leader entry) shard.nodes

      appended-IsCoherent : IsCoherent s.lsm_engines (record shard { nodes = appended })
      unfolding appended
      appended-IsCoherent =
          map-IsCoherent (append_entry leader entry) (append_entry_id leader entry)
            (append_entry-available leader entry) s.lsm_engines shard own

      committed-IsCoherent :
          IsCoherent s.lsm_engines
            (record shard { nodes = map (commit_node leader entry.index) appended })
      committed-IsCoherent =
          map-IsCoherent (commit_node leader entry.index) (commit_node_id leader entry.index)
            (commit_node-available leader entry.index) s.lsm_engines
            (record shard { nodes = appended }) appended-IsCoherent

    commit_write-IsWhole :
        (engines : Engines) (nodes : List NodeState) (res : QueryResult)
        → All (IsCoherent engines) (set_nodes s.shards index nodes)
        → IsWhole
            (commit_write collate input s command engines (set_nodes s.shards index nodes) res).1
    unfolding commit_write notify sync_state
    commit_write-IsWhole engines nodes res c = record {
      some_shards = omega (
        arith,
        length-map (sync_shard collate engines) (set_nodes s.shards index nodes),
        length-set_nodes s.shards index nodes,
        w.some_shards,
      );
      coherent =
          All-map _ _ (sync_shard collate engines) (sync_shard-IsCoherent collate engines)
            (set_nodes s.shards index nodes) c;
    }

    committed-Returns :
        (nodes : List NodeState) (res : QueryResult) (o : Option Engines)
        → (after : Engines) × (o ≡ some after)
          × All (IsCoherent after) (set_nodes s.shards index nodes)
        → Returns (elim o [
          | none ↦ none
          | some engines ↦
              some
                (commit_write collate input s command engines (set_nodes s.shards index nodes) res)
        ])
    committed-Returns nodes res none (after, e, c) = cc
    committed-Returns nodes res (some engines) (after, e, c) =
        let same : after ≡ engines = cc in
        (
          res,
          (commit_write collate input s command engines (set_nodes s.shards index nodes) res).1,
          unfold commit_write in refl,
          commit_write-IsWhole engines nodes res
              (subst (λ (t : Engines). All (IsCoherent t) (set_nodes s.shards index nodes)) same c),
        )

    pub write_to-Returns :
        (leader : NodeState) (steps : List ExecutionStep)
        → Returns (write_to collate input s command key value index shard leader steps)
    unfolding write_to appended
    write_to-Returns leader steps =
        elim (Bool-cases (leb (quorum_of shard.nodes) (acks_of leader shard.nodes))) [
          | inl enough ↦ rw enough (
              committed-Returns nodes _ _ (
                apply_nodes_total collate input command key value nodes s.lsm_engines
                  (set_nodes s.shards index nodes) (committed-IsCoherent leader entry).engines_there
                  (All-set_nodes (IsCoherent s.lsm_engines) s.shards index shard nodes here
                    (committed-IsCoherent leader entry) w.coherent)))
          | inr few ↦ rw few (
            _,
            _,
            refl,
            unfold notify in
                (let v =
                    set_nodes-IsWhole (appended leader entry) (appended-IsCoherent leader entry) in
                  record { some_shards = v.some_shards; coherent = v.coherent }),
          )
        ]
      where
        entry : RaftLogEntry
        entry = new_entry input command key value leader

        nodes : List NodeState
        nodes = map (commit_node leader entry.index) (appended leader entry)

    read-Returns :
        (leader : NodeState) (steps : List ExecutionStep)
        → HasEngine s.lsm_engines leader
        → Returns (dispatch collate input s get key value index shard leader steps)
    unfolding dispatch read_from notify
    read-Returns leader steps (lsm, e) =
        rw (e, dispatch) (_, _, refl, record { some_shards = w.some_shards; coherent = w.coherent })

  module _ (s : ClusterSimulator) (key : JsString) (value : Option JsString) (index : ℕ)
      (shard : ShardState) (here : get_elem? s.shards index ≡ some shard) (w : IsWhole s) where
    dispatch-Returns :
        (command : Command) (leader : NodeState) (steps : List ExecutionStep)
        → HasEngine s.lsm_engines leader
        → Returns (dispatch collate input s command key value index shard leader steps)
    dispatch-Returns get leader steps e =
        read-Returns s get key value index shard here w leader steps e
    dispatch-Returns put leader steps e =
        unfold dispatch in write_to-Returns s put key value index shard here w leader steps
    dispatch-Returns delete leader steps e =
        unfold dispatch in write_to-Returns s delete key value index shard here w leader steps

    query_shard-Returns :
        (command : Command) → Returns (query_shard collate input s command key value index shard)
    unfolding query_shard
    query_shard-Returns command = elim (Option-cases (find_leader shard)) [
      | inl lost ↦
          rw (lost, query_shard)
            (
              _,
              _,
              refl,
              unfold refuse notify in record { some_shards = w.some_shards; coherent = w.coherent },
            )
      | inr (l, led) ↦
          rw (led, query_shard)
            (dispatch-Returns command l _ (
              All-find (HasEngine s.lsm_engines) (leads shard.leader_id) shard.nodes l
                (unfold find_leader in led)
                (own s command key value index shard here w).engines_there))
    ]

  -- On a coherent cluster of at least one shard every query returns a result, with no exception on
  -- any branch, and leaves a coherent cluster.
  pub execute_query-Returns :
      (s : ClusterSimulator) (command : Command) (key : JsString) (value : Option JsString)
      → IsWhole s
      → Returns (execute_query collate input s command key value)
  unfolding execute_query get_shard_for_key
  execute_query-Returns s command key value w =
      let (shard, here) =
        get_elem?_total s.shards (get_shard_for_key s key) (routed s.shards w.some_shards) in
      rw (here, execute_query)
        (query_shard-Returns s key value (get_shard_for_key s key) shard here w command)
    where
      routed :
          (shards : List ShardState)
          → 0 < length shards
          → fnv1a64 key % length shards < length shards
      routed shards h = omega arith
