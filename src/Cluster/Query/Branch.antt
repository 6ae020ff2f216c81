-- ===== src/Cluster/Query/Branch.antt =====
-- The four ways in which `executeQuery` of src/engine/clusterSimulator.ts returns.
use info_crate.Common.{
  ℕ, ◌≡◌, refl, subst, Bool, true, false, inl, inr, Option, none, some, List, [], ◌∷◌, ◌++◌, map,
  map-append, length, if◌then◌else◌, ◌∙◌, leb, get_elem?, Ordering, Bool-cases, Option-cases,
}
use info_crate.Text.{JsString}
use info_crate.Dict
use info_crate.Lsm.{SimulatedLsmEngine}
use info_crate.Lsm.Lookup
use info_crate.Cluster.{
  Command, put, get, delete, RaftLogEntry, NodeState, ShardState, ExecutionStep, QueryResult,
  ClusterSimulator, raft_quorum_failure, log_append, quorum_replication, engine_apply, success,
  error, find_leader, get_shard_for_key,
}
use info_crate.Cluster.Coherence.{Engines}
use info_crate.Cluster.Query.{
  QueryInput, step_of, result_of, finish, refuse, read_from, new_entry, append_entry, acks_of,
  quorum_of, commit_node, set_nodes,
}
use info_crate.Cluster.Query.Answer.{Out, Yields, Yields-out}
use info_crate.Cluster.Query.Apply.{
  apply_nodes, commit_write, write_to, dispatch, query_shard, execute_query,
}

abbrev pub is_write : Command → Bool
is_write get = false
is_write put = true
is_write delete = true

-- Steps of a query's trace, with their numbers.
pub record Traced (numbers : List ℕ) : Type 0 where
  pub list : List ExecutionStep
  pub numbered : map (λ x. x.step_number) list ≡ numbers

then_steps :
    {numbers : List ℕ}
    → Traced numbers
    → (more : List ExecutionStep) → Traced (numbers ++ map (λ x. x.step_number) more)
then_steps steps more = record {
  list = steps.list ++ more;
  numbered = map-append _ steps.list more ∙ rw steps.numbered;
}

module _ (collate : JsString → JsString → Ordering) (input : QueryInput) (s : ClusterSimulator)
    (command : Command) (key : JsString) (value : Option JsString) where
  abbrev pub raft_entry : NodeState → RaftLogEntry
  raft_entry l = new_entry input command key value l

  -- The shard's nodes with the entry in the logs.
  abbrev pub appended : ShardState → NodeState → List NodeState
  appended shard l = map (append_entry l (raft_entry l)) shard.nodes

  abbrev pub committed : ShardState → NodeState → List NodeState
  committed shard l = map (commit_node l (raft_entry l).index) (appended shard l)

  -- What a query on the shard returns: there is no leader; the leader reads; the quorum is not met;
  -- the write is committed.
  pub data Branch (index : ℕ) (shard : ShardState) (r : QueryResult) (t : ClusterSimulator)
      : Type 0 where
    lost :
        (steps : Traced (1 ∷ []))
        → find_leader shard ≡ none
        → r ≡ (refuse input s command key value index shard steps.list).0
        → t ≡ (refuse input s command key value index shard steps.list).1
        → Branch index shard r t
    reads :
        (steps : Traced (1 ∷ 2 ∷ [])) (l : NodeState) (lsm : SimulatedLsmEngine)
        → command ≡ get
        → find_leader shard ≡ some l
        → Dict.get l.id s.lsm_engines ≡ some lsm
        → r ≡ (read_from input s key index shard l steps.list (Lookup.get lsm key)).0
        → t ≡ (read_from input s key index shard l steps.list (Lookup.get lsm key)).1
        → Branch index shard r t
    few :
        (steps : Traced (1 ∷ 2 ∷ 3 ∷ 4 ∷ [])) (l : NodeState)
        → is_write command ≡ true
        → find_leader shard ≡ some l
        → leb (quorum_of shard.nodes) (acks_of l shard.nodes) ≡ false
        → r
          ≡ result_of input command key value index l.id false none steps.list
              (some raft_quorum_failure)
        → t ≡ (finish input (record s { shards = set_nodes s.shards index (appended shard l) }) r).1
        → Branch index shard r t
    done :
        (steps : Traced (1 ∷ 2 ∷ 3 ∷ 4 ∷ 5 ∷ [])) (l : NodeState) (engines : Engines)
        → is_write command ≡ true
        → find_leader shard ≡ some l
        → leb (quorum_of shard.nodes) (acks_of l shard.nodes) ≡ true
        → apply_nodes collate input command key value (committed shard l) s.lsm_engines
          ≡ some engines
        → r ≡ result_of input command key value index l.id true none steps.list none
        → t
          ≡ (commit_write collate input s command engines
              (set_nodes s.shards index (committed shard l))
              r).1
        → Branch index shard r t

  abbrev logged_steps : ShardState → NodeState → Bool → List ExecutionStep
  logged_steps shard l achieved =
      step_of input 3 (log_append (raft_entry l).term (raft_entry l).index command key) (some l.id)
        shard success
      ∷ step_of input 4
          (quorum_replication (acks_of l shard.nodes) (length shard.nodes) achieved
            (raft_entry l).index)
          (some l.id) shard (if achieved then success else error)
      ∷ []

  abbrev apply_step : ShardState → NodeState → List ExecutionStep
  apply_step shard l = step_of input 5 engine_apply (some l.id) shard success ∷ []

  write_to-Branch :
      (index : ℕ) (shard : ShardState) (l : NodeState) (steps : Traced (1 ∷ 2 ∷ []))
      → is_write command ≡ true
      → find_leader shard ≡ some l
      → Yields
          (Branch index shard)
          (write_to collate input s command key value index shard l steps.list)
  unfolding write_to commit_write then_steps
  write_to-Branch index shard l steps w led =
      elim (Bool-cases (leb (quorum_of shard.nodes) (acks_of l shard.nodes))) [
        | inl enough ↦
            elim (Option-cases
              (apply_nodes collate input command key value (committed shard l) s.lsm_engines)) [
                | inl stuck ↦ rw (enough, stuck) tt
                | inr (engines, e) ↦
                    rw (enough, e)
                      (done
                        (then_steps
                          (then_steps steps (
                            logged_steps shard l
                              (leb (quorum_of shard.nodes) (acks_of l shard.nodes))))
                          (apply_step shard l))
                        l engines w led enough e refl refl)
              ]
        | inr fewer ↦
            rw fewer (few (then_steps steps (logged_steps shard l false)) l w led fewer refl refl)
      ]

  read-Branch :
      (index : ℕ) (shard : ShardState) (l : NodeState) (steps : Traced (1 ∷ 2 ∷ []))
      → command ≡ get
      → find_leader shard ≡ some l
      → Yields
          (Branch index shard)
          (dispatch collate input s get key value index shard l steps.list)
  unfolding dispatch
  read-Branch index shard l steps c led = elim (Option-cases (Dict.get l.id s.lsm_engines)) [
    | inl missing ↦ rw (missing, dispatch) tt
    | inr (lsm, e) ↦ rw (e, dispatch) (reads steps l lsm c led e refl refl)
  ]

  dispatch-Branch :
      (c : Command)
      → command ≡ c
      → (index : ℕ) (shard : ShardState) (l : NodeState) (steps : Traced (1 ∷ 2 ∷ []))
      → find_leader shard ≡ some l
      → Yields (Branch index shard) (dispatch collate input s c key value index shard l steps.list)
  unfolding dispatch
  dispatch-Branch get e index shard l steps led = read-Branch index shard l steps e led
  dispatch-Branch put e index shard l steps led =
      rw (← e) (write_to-Branch index shard l steps (rw e) led)
  dispatch-Branch delete e index shard l steps led =
      rw (← e) (write_to-Branch index shard l steps (rw e) led)

  query_shard-Branch :
      (index : ℕ) (shard : ShardState)
      → Yields (Branch index shard) (query_shard collate input s command key value index shard)
  unfolding query_shard
  query_shard-Branch index shard = elim (Option-cases (find_leader shard)) [
    | inl missing ↦
        rw (missing, query_shard) (lost (record { list = _; numbered = refl }) missing refl refl)
    | inr (l, led) ↦
        rw (led, query_shard)
          (dispatch-Branch command refl index shard l (record { list = _; numbered = refl }) led)
  ]

  -- A query that returns took one of the four ways, on the shard that its key belongs to.
  pub execute_query-Branch :
      (r : QueryResult) (t : ClusterSimulator)
      → execute_query collate input s command key value ≡ some (r, t)
      → (shard : ShardState) × (get_elem? s.shards (get_shard_for_key s key) ≡ some shard)
        × Branch (get_shard_for_key s key) shard r t
  unfolding execute_query
  execute_query-Branch r t e = elim (Option-cases (get_elem? s.shards (get_shard_for_key s key))) [
    | inl missing ↦ nothing (rw (missing, execute_query) at e)
    | inr (shard, here) ↦ (
      shard,
      here,
      Yields-out _ _ r t (rw (here, execute_query) at e)
          (query_shard-Branch (get_shard_for_key s key) shard),
    )
  ]
    where
      nothing :
          ◌≡◌ {A = Out} none (some (r, t))
          → (shard : ShardState) × (get_elem? s.shards (get_shard_for_key s key) ≡ some shard)
            × Branch (get_shard_for_key s key) shard r t
      nothing h = cc

  pub execute_query-Branch_at :
      (r : QueryResult) (t : ClusterSimulator) (shard : ShardState)
      → get_elem? s.shards (get_shard_for_key s key) ≡ some shard
      → execute_query collate input s command key value ≡ some (r, t)
      → Branch (get_shard_for_key s key) shard r t
  execute_query-Branch_at r t shard here e =
      let (found, there, branch) = execute_query-Branch r t e in
      let same : found ≡ shard = cc in
      subst (λ (x : ShardState). Branch (get_shard_for_key s key) x r t) same branch
