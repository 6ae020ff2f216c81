-- ===== src/Cluster/Query/Refused.antt =====
-- The effect on the stored data of queries that fail and of a PUT of an empty value.
use info_crate.Common.{
  ℕ, ◌≡◌, refl, ◌∙◌, true, false, inl, inr, Option, none, some, List, [], ◌∷◌, Ordering, Bool-cases,
  Option-cases,
}
use info_crate.Text.{JsString, str_eq}
use info_crate.Text.Laws.{str_eq_iff}
use info_crate.Dict
use info_crate.Dict.Laws.{get-set}
use info_crate.Cluster.{
  Command, put, NodeState, ShardState, QueryResult, ClusterSimulator, is_available,
  get_shard_for_key, notify, sync_state,
}
use info_crate.Cluster.Coherence.{Engines}
use info_crate.Cluster.Query.{QueryInput, refuse, read_from}
use info_crate.Cluster.Query.Branch.{
  Branch, lost, reads, few, done, committed, execute_query-Branch,
}
use info_crate.Cluster.Query.Apply.{apply_command, apply_nodes, commit_write, execute_query}

-- Every node's engine is the same.
abbrev pub SameEngines : ClusterSimulator → ClusterSimulator → Type 0
SameEngines s t = (id : JsString) → Dict.get id t.lsm_engines ≡ Dict.get id s.lsm_engines

module _ (collate : JsString → JsString → Ordering) (input : QueryInput) (s : ClusterSimulator)
    (key : JsString) where
  -- A query whose result does not succeed, for want of a leader or of the quorum, leaves every
  -- engine and all the metrics as they were.
  pub execute_query-refused :
      (command : Command) (value : Option JsString) (r : QueryResult) (t : ClusterSimulator)
      → execute_query collate input s command key value ≡ some (r, t)
      → r.success ≡ false
      → (t.lsm_engines ≡ s.lsm_engines) × (t.metrics ≡ s.metrics)
  unfolding refuse read_from notify
  execute_query-refused command value r t e bad =
      let (shard, there, branch) = execute_query-Branch collate input s command key value r t e in
      by_branch (get_shard_for_key s key) shard branch
    where
      by_branch :
          (index : ℕ) (shard : ShardState)
          → Branch collate input s command key value index shard r t
          → (t.lsm_engines ≡ s.lsm_engines) × (t.metrics ≡ s.metrics)
      by_branch index shard (lost steps missing re te) = rw te (refl, refl)
      by_branch index shard (reads steps l lsm c led own re te) =
          let good : r.success ≡ true = rw re in cc
      by_branch index shard (few steps l w led q re te) = rw te (refl, refl)
      by_branch index shard (done steps l engines w led q applied re te) =
          let good : r.success ≡ true = rw re in cc

  -- An engine set to what it is.
  set_same :
      (id k : JsString) (engines : Engines) {lsm : _}
      → Dict.get id engines ≡ some lsm
      → Dict.get k (Dict.set id lsm engines) ≡ Dict.get k engines
  set_same id k engines e = elim (Bool-cases (str_eq id k)) [
    | inl same ↦ let here : id ≡ k = (str_eq_iff id k).0 same in rw (get-set, same, ← here, e)
    | inr other ↦ rw (get-set, other)
  ]

  abbrev Unmoved : Engines → Option Engines → Type 0
  Unmoved engines none = Unit
  Unmoved engines (some after) = (k : JsString) → Dict.get k after ≡ Dict.get k engines

  Unmoved-from :
      (e₁ e₂ : Engines)
      → ((k : JsString) → Dict.get k e₁ ≡ Dict.get k e₂)
      → (o : Option Engines) → Unmoved e₁ o
      → Unmoved e₂ o
  Unmoved-from e₁ e₂ same none u = tt
  Unmoved-from e₁ e₂ same (some after) u = λ k. u k ∙ same k

  apply_nodes_empty :
      (nodes : List NodeState) (engines : Engines)
      → Unmoved engines (apply_nodes collate input put key (some []) nodes engines)
  unfolding apply_nodes apply_command
  apply_nodes_empty [] engines = λ k. refl
  apply_nodes_empty (n ∷ nodes) engines = elim (Bool-cases (is_available n)) [
    | inr down ↦ rw (down, apply_nodes) (apply_nodes_empty nodes engines)
    | inl up ↦ elim (Option-cases (Dict.get n.id engines)) [
      | inl missing ↦ rw (up, missing, apply_nodes) tt
      | inr (lsm, e) ↦
          rw (up, e, apply_nodes)
            (Unmoved-from (Dict.set n.id lsm engines) engines (λ k. set_same n.id k engines e) _
              (apply_nodes_empty nodes (Dict.set n.id lsm engines)))
    ]
  ]

  -- A PUT of the empty value, if it returns and whatever its result says, changes no node's
  -- engine.
  pub execute_query-empty_put :
      (r : QueryResult) (t : ClusterSimulator)
      → execute_query collate input s put key (some []) ≡ some (r, t)
      → SameEngines s t
  unfolding refuse read_from notify commit_write sync_state
  execute_query-empty_put r t e =
      let (shard, there, branch) = execute_query-Branch collate input s put key (some []) r t e in
      by_branch (get_shard_for_key s key) shard branch
    where
      by_branch :
          (index : ℕ) (shard : ShardState)
          → Branch collate input s put key (some []) index shard r t
          → SameEngines s t
      by_branch index shard (lost steps missing re te) = rw te (λ k. refl)
      by_branch index shard (reads steps l lsm c led own re te) = rw te (λ k. refl)
      by_branch index shard (few steps l w led q re te) = rw te (λ k. refl)
      by_branch index shard (done steps l engines w led q applied re te) = rw te (
          rw applied at
            (apply_nodes_empty (committed collate input s put key (some []) shard l) s.lsm_engines))
