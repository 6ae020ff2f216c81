-- ===== src/Cluster/Query/Replicated.antt =====
-- Writes of src/engine/clusterSimulator.ts next to calls on the engines of the nodes.
use info_crate.Common.{
  ℕ, ◌≡◌, refl, sym, ap, ◌∙◌, arith, Bool, true, false, ◌&&◌, ◌||◌, inl, inr, Option, none, some,
  List, [], ◌∷◌, map, get_elem?, if◌then◌else◌, Ordering, All, Bool-cases, Option-cases,
}
use mathlib.Core.Option
use info_crate.Text.{JsString, str_eq}
use info_crate.Text.Laws.{str_eq_iff}
use info_crate.Dict
use info_crate.Dict.Laws.{get-set}
use info_crate.Lsm.{SimulatedLsmEngine}
use info_crate.Lsm.Counts.{Call, puts, deletes, step}
use info_crate.Cluster.{
  Command, put, get, delete, NodeState, ShardState, QueryResult, ClusterSimulator, is_available,
  get_shard_for_key, notify, sync_state,
}
use info_crate.Cluster.Coherence.{Engines, UniqueIds, map-UniqueIds}
use info_crate.Cluster.Query.{QueryInput, refuse}
use info_crate.Cluster.Query.Apply.{apply_command, apply_nodes, commit_write, execute_query}
use info_crate.Cluster.Query.Branch.{
  Branch, lost, reads, few, done, is_write, raft_entry, committed, execute_query-Branch_at,
}
use info_crate.Cluster.Query.Keeps.{
  append_entry_id, append_entry-available, commit_node_id, commit_node-available,
}

-- The call that a write makes on the engine of a node: a PUT of nothing or of the empty value none.
abbrev pub call_of : Command → JsString → Option JsString → ℕ → List Bool → Option Call
call_of get key value ts flips = none
call_of put key none ts flips = none
call_of put key (some []) ts flips = none
call_of put key (some (c ∷ value)) ts flips = some (puts ts flips key (c ∷ value))
call_of delete key value ts flips = some (deletes ts flips key)

-- An available node of the shard has the id.
abbrev pub is_replica : List NodeState → JsString → Bool
is_replica [] id = false
is_replica (n ∷ nodes) id = (is_available n && str_eq n.id id) || is_replica nodes id

is_replica-map :
    (f : NodeState → NodeState)
    → ((n : NodeState) → (f n).id ≡ n.id)
    → ((n : NodeState) → is_available (f n) ≡ is_available n)
    → (nodes : List NodeState) (id : JsString) → is_replica (map f nodes) id ≡ is_replica nodes id
is_replica-map f keep up [] id = refl
is_replica-map f keep up (n ∷ nodes) id = simp (up n, keep n, is_replica-map f keep up nodes id)

not_replica :
    (id : JsString) (nodes : List NodeState)
    → All (λ m. str_eq m.id id ≡ false) nodes
    → is_replica nodes id ≡ false
not_replica id [] h = refl
not_replica id (n ∷ nodes) h = ground (arith, not_replica id nodes h.1)

abbrev pub taken :
    (JsString → JsString → Ordering) → Option Call → SimulatedLsmEngine → SimulatedLsmEngine
taken collate none lsm = lsm
taken collate (some call) lsm = step collate lsm call

pub apply_command_lem :
    (collate : JsString → JsString → Ordering) (input : QueryInput) (command : Command)
    (key : JsString) (value : Option JsString) (n : NodeState) (lsm : SimulatedLsmEngine)
    → apply_command collate input command key value n lsm
      ≡ taken collate (call_of command key value (input.write_ts n.id) (input.flips n.id)) lsm
unfolding apply_command step
apply_command_lem collate input get key value n lsm = refl
apply_command_lem collate input put key none n lsm = refl
apply_command_lem collate input put key (some []) n lsm = refl
apply_command_lem collate input put key (some (c ∷ value)) n lsm = refl
apply_command_lem collate input delete key value n lsm = refl

module _ (collate : JsString → JsString → Ordering) (input : QueryInput) (command : Command)
    (key : JsString) (value : Option JsString) where
  -- What the write makes of the engine of the node with the id.
  abbrev pub written_at : JsString → SimulatedLsmEngine → SimulatedLsmEngine
  written_at id lsm =
      taken collate (call_of command key value (input.write_ts id) (input.flips id)) lsm

  apply_nodes_skipped :
      (n : NodeState) (lsm : SimulatedLsmEngine) (nodes : List NodeState) (engines after : Engines)
      (id : JsString)
      → is_available n ≡ true
      → Dict.get n.id engines ≡ some lsm
      → All (λ m. str_eq m.id n.id ≡ false) nodes
      → Dict.get id after ≡ (
          if is_replica nodes id
          then Option.map
              (written_at id)
              (Dict.get id (Dict.set n.id (written_at n.id lsm) engines))
          else Dict.get id (Dict.set n.id (written_at n.id lsm) engines))
      → Dict.get id after ≡ (
          if is_replica (n ∷ nodes) id
          then Option.map (written_at id) (Dict.get id engines)
          else Dict.get id engines)
  apply_nodes_skipped n lsm nodes engines after id up own others h =
      elim (Bool-cases (str_eq n.id id)) [
        | inl same ↦
            let here : n.id ≡ id = (str_eq_iff n.id id).0 same in
            let none_later : is_replica nodes id ≡ false =
              not_replica id nodes (rw here at others) in
            rw (up, same, ← here, own) (rw (← here) at (rw (get-set, same, none_later) at h))
        | inr other ↦ rw (up, other) (rw (get-set, other) at h)
      ]

  apply_nodes_replicates :
      (nodes : List NodeState) (engines after : Engines)
      → UniqueIds nodes
      → apply_nodes collate input command key value nodes engines ≡ some after
      → (id : JsString)
      → Dict.get id after ≡ (
          if is_replica nodes id
          then Option.map (written_at id) (Dict.get id engines)
          else Dict.get id engines)
  unfolding apply_nodes
  apply_nodes_replicates [] engines after u e id = sym (ap (Dict.get id) (some_eq e))
    where
      some_eq : some engines ≡ some after → engines ≡ after
      some_eq h = cc
  apply_nodes_replicates (n ∷ nodes) engines after u e id = elim (Bool-cases (is_available n)) [
    | inr down ↦
        rw down (apply_nodes_replicates nodes engines after u.1 (rw (down, apply_nodes) at e) id)
    | inl up ↦ elim (Option-cases (Dict.get n.id engines)) [
      | inl missing ↦ stuck (rw (up, missing, apply_nodes) at e)
      | inr (lsm, own) ↦ apply_nodes_skipped n lsm nodes engines after id up own u.0 (
          rw (← apply_command_lem collate input command key value n lsm) (
            apply_nodes_replicates nodes
              (Dict.set n.id (apply_command collate input command key value n lsm) engines) after
              u.1 (rw (up, own, apply_nodes) at e) id))
    ]
  ]
    where
      stuck :
          ◌≡◌ {A = Option Engines} none (some after)
          → Dict.get id after ≡ (
              if is_replica (n ∷ nodes) id
              then Option.map (written_at id) (Dict.get id engines)
              else Dict.get id engines)
      stuck h = cc

-- A PUT or DELETE on a shard with no id twice, if it returns with success, makes its call once on
-- the engine of each available node of its shard, an empty PUT none, and leaves the engines of all
-- other nodes as they were.
pub execute_query_replicates :
    (collate : JsString → JsString → Ordering) (input : QueryInput) (s : ClusterSimulator)
    (command : Command) (key : JsString) (value : Option JsString) (shard : ShardState)
    (r : QueryResult) (t : ClusterSimulator)
    → is_write command ≡ true
    → get_elem? s.shards (get_shard_for_key s key) ≡ some shard
    → UniqueIds shard.nodes
    → execute_query collate input s command key value ≡ some (r, t)
    → r.success ≡ true
    → (id : JsString)
    → Dict.get id t.lsm_engines ≡ (
        if is_replica shard.nodes id
        then Option.map (written_at collate input command key value id) (Dict.get id s.lsm_engines)
        else Dict.get id s.lsm_engines)
unfolding refuse commit_write notify sync_state
execute_query_replicates collate input s command key value shard r t w here unique e ok id =
    by_branch (execute_query-Branch_at collate input s command key value r t shard here e)
  where
    unique_committed :
        (l : NodeState) → UniqueIds (committed collate input s command key value shard l)
    unique_committed l = map-UniqueIds _ (commit_node_id l _) _ (
        map-UniqueIds _ (append_entry_id l (raft_entry collate input s command key value l))
          shard.nodes unique)

    replica_committed :
        (l : NodeState)
        → is_replica (committed collate input s command key value shard l) id
          ≡ is_replica shard.nodes id
    replica_committed l =
        is_replica-map _ (commit_node_id l _) (commit_node-available l _) _ id
        ∙ is_replica-map _ (append_entry_id l _)
            (append_entry-available l (raft_entry collate input s command key value l)) shard.nodes
            id

    by_branch :
        Branch collate input s command key value (get_shard_for_key s key) shard r t
        → Dict.get id t.lsm_engines ≡ (
            if is_replica shard.nodes id
            then Option.map
                (written_at collate input command key value id)
                (Dict.get id s.lsm_engines)
            else Dict.get id s.lsm_engines)
    by_branch (lost steps led re te) = let bad : r.success ≡ false = rw re in cc
    by_branch (reads steps l lsm c led own re te) = let bad : is_write get ≡ true = rw c at w in cc
    by_branch (few steps l w' led q re te) = let bad : r.success ≡ false = rw re in cc
    by_branch (done steps l engines w' led q applied re te) = rw te (
        rw (← replica_committed l) (
          apply_nodes_replicates collate input command key value _ s.lsm_engines engines
            (unique_committed l) applied id))
