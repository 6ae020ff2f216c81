-- ===== src/Cluster/Query/Recorded.antt =====
-- What a query leaves behind besides its result: the history, the calls of the listeners, and the
-- logs of the nodes.
use info_crate.Common.{
  ℕ, zero, suc, ◌≡◌, ◌<◌, refl, ◌∙◌, arith, true, ◌⊎◌, inl, inr, Option, some, List, [], ◌∷◌, ◌++◌,
  map, length, drop_last, set, ltb, ltb→lt, get_elem?, if◌then◌else◌, Ordering, Bool-cases,
}
use info_crate.Text.{JsString, str_eq}
use info_crate.Cluster.{
  Command, get, NodeState, RaftLogEntry, ShardState, QueryResult, ClusterSimulator, is_available,
  find_leader, get_shard_for_key, notify, sync_node, sync_shard, sync_state,
}
use info_crate.Cluster.Coherence.{Engines}
use info_crate.Cluster.Query.{QueryInput, refuse, read_from, append_entry, commit_node, set_nodes}
use info_crate.Cluster.Query.Keeps.{append_entry_id, append_entry-available}
use info_crate.Cluster.Query.Apply.{commit_write, execute_query}
use info_crate.Cluster.Query.Branch.{
  Branch, lost, reads, few, done, is_write, raft_entry, appended, committed, execute_query-Branch,
  execute_query-Branch_at,
}

-- The result stands first in the history, before all that was there, and each listener was called
-- once; only a write that succeeded may have dropped the oldest result, of more than fifty.
pub record IsRecorded (s : ClusterSimulator) (command : Command) (r : QueryResult)
    (t : ClusterSimulator) : Type 0 where
  pub history :
      (t.query_history ≡ r ∷ s.query_history)
      ⊎ ((t.query_history ≡ drop_last (r ∷ s.query_history))
          × (50 < length (r ∷ s.query_history))
          × (is_write command ≡ true)
          × (r.success ≡ true))
  pub calls : t.notified ≡ s.notified ++ s.listeners
  pub same_listeners : t.listeners ≡ s.listeners

-- A query that returns records its result and calls each listener once.
pub execute_query-IsRecorded :
    (collate : JsString → JsString → Ordering) (input : QueryInput) (s : ClusterSimulator)
    (command : Command) (key : JsString) (value : Option JsString) (r : QueryResult)
    (t : ClusterSimulator)
    → execute_query collate input s command key value ≡ some (r, t)
    → IsRecorded s command r t
unfolding refuse read_from notify commit_write sync_state
execute_query-IsRecorded collate input s command key value r t e =
    let (shard, there, branch) = execute_query-Branch collate input s command key value r t e in
    by_branch (get_shard_for_key s key) shard branch
  where
    by_branch :
        (index : ℕ) (shard : ShardState)
        → Branch collate input s command key value index shard r t
        → IsRecorded s command r t
    by_branch index shard (lost steps led re te) =
        rw (te, re) (record { history = inl refl; calls = refl; same_listeners = refl })
    by_branch index shard (reads steps l lsm c led own re te) =
        rw (te, re) (record { history = inl refl; calls = refl; same_listeners = refl })
    by_branch index shard (few steps l w led q re te) =
        rw te (record { history = inl refl; calls = refl; same_listeners = refl })
    by_branch index shard (done steps l engines w led q applied re te) =
        elim (Bool-cases (ltb 50 (length (r ∷ s.query_history)))) [
          | inl over ↦ rw te (
              rw over (record {
                history = inr (refl, ltb→lt _ _ over, w, rw re);
                calls = refl;
                same_listeners = refl;
              }))
          | inr fits ↦
              rw te (rw fits (record { history = inl refl; calls = refl; same_listeners = refl }))
        ]

-- A value of each node, shard by shard.
abbrev pub of_nodes {ℓ} : {A : Type ℓ} → (NodeState → A) → List ShardState → List (List A)
of_nodes f shards = map (λ (sh : ShardState). map f sh.nodes) shards

module _ {A : Type 0} (f : NodeState → A) where
  pub of_nodes-set_nodes :
      (shards : List ShardState) (i : ℕ) (nodes : List NodeState)
      → of_nodes f (set_nodes shards i nodes) ≡ set (of_nodes f shards) i (map f nodes)
  unfolding set_nodes
  of_nodes-set_nodes [] i nodes = refl
  of_nodes-set_nodes (sh ∷ shards) zero nodes = refl
  of_nodes-set_nodes (sh ∷ shards) (suc i) nodes = rw (of_nodes-set_nodes shards i nodes)

  pub map-eq :
      (g : NodeState → NodeState) (h : NodeState → A)
      → ((n : NodeState) → f (g n) ≡ h n)
      → (nodes : List NodeState) → map f (map g nodes) ≡ map h nodes
  map-eq g h same [] = refl
  map-eq g h same (n ∷ nodes) = rw (same n, map-eq g h same nodes)

  pub of_nodes-sync :
      (collate : JsString → JsString → Ordering) (engines : Engines)
      → ((n : NodeState) → f (sync_node collate engines n) ≡ f n)
      → (shards : List ShardState)
      → of_nodes f (map (sync_shard collate engines) shards) ≡ of_nodes f shards
  unfolding sync_shard
  of_nodes-sync collate engines same [] = refl
  of_nodes-sync collate engines same (sh ∷ shards) = rw (
    map-eq (sync_node collate engines) f same sh.nodes,
    of_nodes-sync collate engines same shards,
  )

  -- After a committed write, all that `f` shows is its value at the shard's nodes.
  pub of_nodes-commit_write :
      (collate : JsString → JsString → Ordering) (input : QueryInput) (s : ClusterSimulator)
      (command : Command) (engines : Engines) (i : ℕ) (nodes : List NodeState) (r : QueryResult)
      → ((n : NodeState) → f (sync_node collate engines n) ≡ f n)
      → of_nodes f
          (commit_write collate input s command engines (set_nodes s.shards i nodes) r).1.shards
        ≡ set (of_nodes f s.shards) i (map f nodes)
  unfolding commit_write notify sync_state
  of_nodes-commit_write collate input s command engines i nodes r same =
      of_nodes-sync collate engines same (set_nodes s.shards i nodes)
      ∙ of_nodes-set_nodes s.shards i nodes

pub of_nodes-set_same :
    {A : Type 0} (f : NodeState → A) (shards : List ShardState) (i : ℕ) (shard : ShardState)
    → get_elem? shards i ≡ some shard
    → set (of_nodes f shards) i (map f shard.nodes) ≡ of_nodes f shards
of_nodes-set_same f [] i shard e = refl
of_nodes-set_same f (sh ∷ shards) zero shard e = let same : sh ≡ shard = cc in rw same
of_nodes-set_same f (sh ∷ shards) (suc i) shard e = rw (of_nodes-set_same f shards i shard e)

-- The log of a node with the entry, if the node is the leader or available.
abbrev pub logged : NodeState → RaftLogEntry → NodeState → List RaftLogEntry
logged l entry n =
    if str_eq n.id l.id
    then n.log ++ entry ∷ []
    else if is_available n
    then n.log ++ entry ∷ []
    else n.log

abbrev pub advanced : NodeState → ℕ → NodeState → ℕ
advanced l index n =
    if is_available n then index else if str_eq n.id l.id then index else n.commit_index

module _ (collate : JsString → JsString → Ordering) (input : QueryInput) (s : ClusterSimulator)
    (command : Command) (key : JsString) (value : Option JsString) (shard : ShardState)
    (l : NodeState) where
  abbrev entry : RaftLogEntry
  entry = raft_entry collate input s command key value l

  logs_appended :
      map (λ n. n.log) (appended collate input s command key value shard l)
      ≡ map (logged l entry) shard.nodes
  logs_appended =
      map-eq (λ n. n.log) (append_entry l entry) (logged l entry)
        (λ n. unfold append_entry in ground arith) shard.nodes

  logs_committed :
      map (λ n. n.log) (committed collate input s command key value shard l)
      ≡ map (logged l entry) shard.nodes
  logs_committed =
      map-eq (λ n. n.log) (commit_node l entry.index) (λ n. n.log)
        (λ n. unfold commit_node in ground arith) _
      ∙ logs_appended

  commits_appended :
      map (λ n. n.commit_index) (appended collate input s command key value shard l)
      ≡ map (λ n. n.commit_index) shard.nodes
  commits_appended =
      map-eq (λ n. n.commit_index) (append_entry l entry) (λ n. n.commit_index)
        (λ n. unfold append_entry in ground arith) shard.nodes

  commits_committed :
      map (λ n. n.commit_index) (committed collate input s command key value shard l)
      ≡ map (advanced l entry.index) shard.nodes
  commits_committed =
      map-eq (λ n. n.commit_index) (commit_node l entry.index) (advanced l entry.index)
        (λ n. unfold commit_node in ground arith) _
      ∙ map-eq (advanced l entry.index) (append_entry l entry) (advanced l entry.index)
          (λ n.
            rw (append_entry-available l entry n, append_entry_id l entry n)
              (unfold append_entry in ground arith))
          shard.nodes

  -- The entry is in the log of the leader and of each available node of the shard, whether or not
  -- the write succeeded; if it did, these nodes' commit indices are the entry's; no other log and no
  -- other commit index has changed.
  pub record IsReplicated (index : ℕ) (r : QueryResult) (t : ClusterSimulator) : Type 0 where
    pub logs :
        of_nodes (λ n. n.log) t.shards
        ≡ set (of_nodes (λ n. n.log) s.shards) index (map (logged l entry) shard.nodes)
    pub commits : of_nodes (λ n. n.commit_index) t.shards ≡ (
        if r.success
        then set
            (of_nodes (λ n. n.commit_index) s.shards)
            index
            (map (advanced l entry.index) shard.nodes)
        else of_nodes (λ n. n.commit_index) s.shards)

  -- A PUT or DELETE whose shard has a leader, if it returns, puts its entry into the logs and, where
  -- it succeeds, advances the commit indices.
  pub execute_query-IsReplicated :
      (r : QueryResult) (t : ClusterSimulator)
      → is_write command ≡ true
      → get_elem? s.shards (get_shard_for_key s key) ≡ some shard
      → find_leader shard ≡ some l
      → execute_query collate input s command key value ≡ some (r, t)
      → IsReplicated (get_shard_for_key s key) r t
  unfolding notify commit_write
  execute_query-IsReplicated r t w here led e =
      by_branch (execute_query-Branch_at collate input s command key value r t shard here e)
    where
      by_branch :
          Branch collate input s command key value (get_shard_for_key s key) shard r t
          → IsReplicated (get_shard_for_key s key) r t
      by_branch (lost steps missing re te) = cc
      by_branch (reads steps l' lsm c led' own re te) =
          let bad : is_write get ≡ true = rw c at w in cc
      by_branch (few steps l' w' led' q re te) =
          let same : l' ≡ l = cc in
          rw (te, re, same)
            (record {
              logs = of_nodes-set_nodes (λ n. n.log) s.shards _ _ ∙ rw logs_appended;
              commits =
                  of_nodes-set_nodes (λ n. n.commit_index) s.shards _ _
                  ∙ rw commits_appended
                      (of_nodes-set_same (λ n. n.commit_index) s.shards _ shard here);
            })
      by_branch (done steps l' engines w' led' q applied re te) =
          let same : l' ≡ l = cc in
          let ok : r.success ≡ true = rw re in
          rw (te, ok, same)
            (record {
              logs =
                  of_nodes-commit_write (λ n. n.log) collate input s command engines _ _ r
                    (λ n. unfold sync_node in ground arith)
                  ∙ rw logs_committed;
              commits =
                  of_nodes-commit_write (λ n. n.commit_index) collate input s command engines _ _ r
                    (λ n. unfold sync_node in ground arith)
                  ∙ rw commits_committed;
            })
