-- ===== src/Cluster/Query/Apply.antt =====
-- The write path of `executeQuery` and the whole method.
use info_crate.Common.{
  ℕ, ◌+◌, true, false, Option, none, some, List, [], ◌∷◌, ◌++◌, map, length, get_elem?, drop_last,
  ltb, leb, if◌then◌else◌, Ordering,
}
use info_crate.Text.{JsString}
use info_crate.Dict
use info_crate.Dict.{Dict}
use info_crate.Lsm
use info_crate.Lsm.{SimulatedLsmEngine}
use info_crate.Lsm.Lookup
use info_crate.Cluster.{
  Command, put, get, delete, NodeState, ShardState, success, error, router_hash, client_request,
  log_append, quorum_replication, engine_apply, ExecutionStep, raft_quorum_failure, QueryResult,
  ClusterMetrics, ClusterSimulator, is_available, find_leader, get_shard_for_key, notify,
  sync_state,
}
use info_crate.Cluster.Query.{
  QueryInput, step_of, result_of, finish, refuse, read_from, new_entry, append_entry, acks_of,
  quorum_of, commit_node, set_nodes,
}

module _ (collate : JsString → JsString → Ordering) (input : QueryInput) where
  -- What a node's engine does with a committed command: a value that is null or empty is falsy.
  unfoldable pub apply_command :
      Command → JsString → Option JsString → NodeState → SimulatedLsmEngine → SimulatedLsmEngine
  apply_command put key none node lsm = lsm
  apply_command put key (some []) node lsm = lsm
  apply_command put key (some (c ∷ value)) node lsm =
      (Lsm.put collate lsm (input.write_ts node.id) (input.flips node.id) key (c ∷ value)).1
  apply_command delete key value node lsm =
      (Lsm.delete collate lsm (input.write_ts node.id) (input.flips node.id) key).1
  apply_command get key value node lsm = lsm

  -- The loop over the shard's nodes: each available node applies the command to its engine.
  unfoldable pub apply_nodes :
      Command
      → JsString
      → Option JsString
      → List NodeState
      → Dict SimulatedLsmEngine
      → Option (Dict SimulatedLsmEngine)
  apply_nodes command key value [] engines = some engines
  apply_nodes command key value (n ∷ nodes) engines = elim (is_available n) [
    | false ↦ apply_nodes command key value nodes engines
    | true ↦ elim (Dict.get n.id engines) [
      | none ↦ none
      | some lsm ↦
          apply_nodes command key value nodes
            (Dict.set n.id (apply_command command key value n lsm) engines)
    ]
  ]

  unfoldable pub count_write : Command → ClusterMetrics → ClusterMetrics
  count_write put m = record m { total_writes = m.total_writes + 1 }
  count_write delete m = record m { total_deletes = m.total_deletes + 1 }
  count_write get m = m

  -- A committed write: the history keeps at most the 50 results it had, or drops one of more.
  unfoldable pub commit_write :
      ClusterSimulator
      → Command
      → Dict SimulatedLsmEngine
      → List ShardState
      → QueryResult
      → QueryResult × ClusterSimulator
  commit_write s command engines shards res =
      let synced = sync_state collate (record s {
        shards = shards;
        lsm_engines = engines;
        metrics = count_write command s.metrics;
      }) in
      let history = res ∷ synced.query_history in
      (
        res,
        notify (record synced {
          query_history = if ltb 50 (length history) then drop_last history else history;
        }),
      )

  -- PUT and DELETE: the log entry, the acknowledgements, and the quorum's decision.
  unfoldable pub write_to :
      ClusterSimulator
      → Command
      → JsString
      → Option JsString
      → ℕ
      → ShardState
      → NodeState
      → List ExecutionStep
      → Option (QueryResult × ClusterSimulator)
  write_to s command key value index shard leader steps =
      let entry = new_entry input command key value leader in
      let appended = map (append_entry leader entry) shard.nodes in
      let acks = acks_of leader shard.nodes in
      let total = length shard.nodes in
      let achieved = leb (quorum_of shard.nodes) acks in
      let logged =
        steps
        ++ (step_of input 3 (log_append entry.term entry.index command key) (some leader.id) shard
              success
            ∷ step_of input 4 (quorum_replication acks total achieved entry.index) (some leader.id)
                shard (if achieved then success else error)
            ∷ []) in
      let refused = some (
        finish input (record s { shards = set_nodes s.shards index appended })
          (result_of input command key value index leader.id false none logged
            (some raft_quorum_failure))) in
      let done =
        result_of input command key value index leader.id true none
          (logged ++ step_of input 5 engine_apply (some leader.id) shard success ∷ []) none in
      let committed = map (commit_node leader entry.index) appended in
      let applied : Option (QueryResult × ClusterSimulator) =
        elim (apply_nodes command key value committed s.lsm_engines) [
          | none ↦ none
          | some engines ↦
              some (commit_write s command engines (set_nodes s.shards index committed) done)
        ] in
      if achieved then applied else refused

  unfoldable pub dispatch :
      ClusterSimulator
      → Command
      → JsString
      → Option JsString
      → ℕ
      → ShardState
      → NodeState
      → List ExecutionStep
      → Option (QueryResult × ClusterSimulator)
  dispatch s get key value index shard leader steps = elim (Dict.get leader.id s.lsm_engines) [
    | none ↦ none
    | some lsm ↦ some (read_from input s key index shard leader steps (Lookup.get lsm key))
  ]
  dispatch s put key value index shard leader steps =
      write_to s put key value index shard leader steps
  dispatch s delete key value index shard leader steps =
      write_to s delete key value index shard leader steps

  -- From the shard on.
  unfoldable pub query_shard :
      ClusterSimulator
      → Command
      → JsString
      → Option JsString
      → ℕ
      → ShardState
      → Option (QueryResult × ClusterSimulator)
  query_shard s command key value index shard =
      let routed =
        step_of input 1 (router_hash key (length s.shards) index) none shard success ∷ [] in
      elim (find_leader shard) [
        | none ↦ some (refuse input s command key value index shard routed)
        | some leader ↦ dispatch s command key value index shard leader (
            routed
            ++ step_of input 2 (client_request command leader.id leader.grpc_port) (some leader.id)
                shard success
              ∷ [])
      ]

  unfoldable pub execute_query :
      ClusterSimulator
      → Command
      → JsString
      → Option JsString
      → Option (QueryResult × ClusterSimulator)
  execute_query s command key value = elim (get_elem? s.shards (get_shard_for_key s key)) [
    | none ↦ none
    | some shard ↦ query_shard s command key value (get_shard_for_key s key) shard
  ]
