-- ===== src/Cluster/Query/Keeps.antt =====
-- What `executeQuery` of src/engine/clusterSimulator.ts keeps of a coherent cluster.
use info_crate.Common.{
  ℕ, zero, suc, ◌<◌, ◌≡◌, refl, ap, arith, Bool, inl, inr, Option, some, List, [], ◌∷◌, length,
  get_elem?, find, Ordering, All, All-map, length-map, Bool-cases,
}
use info_crate.Text.{JsString}
use info_crate.Dict
use info_crate.Lsm.{SimulatedLsmEngine}
use info_crate.Cluster.{
  Command, RaftLogEntry, NodeState, ShardState, QueryResult, ClusterSimulator, is_available,
  sync_shard, sync_state,
}
use info_crate.Cluster.Coherence.{
  Engines, HasEngine, IsCoherent, HasEngine-set, IsCoherent-set, sync_shard-IsCoherent,
}
use info_crate.Cluster.Query.{QueryInput, append_entry, commit_node, set_nodes}
use info_crate.Cluster.Query.Apply.{apply_command, apply_nodes}

module _ (P : ShardState → Type 0) where
  pub All-get_elem? :
      (shards : List ShardState) (i : ℕ) (shard : ShardState)
      → get_elem? shards i ≡ some shard
      → All P shards
      → P shard
  All-get_elem? [] i shard e h = cc
  All-get_elem? (s ∷ shards) zero shard e h = let same : s ≡ shard = cc in rw (← same) h.0
  All-get_elem? (s ∷ shards) (suc i) shard e h = All-get_elem? shards i shard e h.1

  pub All-set_nodes :
      (shards : List ShardState) (i : ℕ) (shard : ShardState) (nodes : List NodeState)
      → get_elem? shards i ≡ some shard
      → P (record shard { nodes = nodes })
      → All P shards
      → All P (set_nodes shards i nodes)
  unfolding set_nodes
  All-set_nodes [] i shard nodes e p h = tt
  All-set_nodes (s ∷ shards) zero shard nodes e p h = let same : s ≡ shard = cc in (rw same p, h.1)
  All-set_nodes (s ∷ shards) (suc i) shard nodes e p h =
      (h.0, All-set_nodes shards i shard nodes e p h.1)

pub append_entry_id :
    (l : NodeState) (e : RaftLogEntry) (n : NodeState) → (append_entry l e n).id ≡ n.id
unfolding append_entry
append_entry_id l e n = ground arith

pub append_entry-available :
    (l : NodeState) (e : RaftLogEntry) (n : NodeState)
    → is_available (append_entry l e n) ≡ is_available n
unfolding append_entry is_available
append_entry-available l e n = ground arith

pub commit_node_id : (l : NodeState) (i : ℕ) (n : NodeState) → (commit_node l i n).id ≡ n.id
unfolding commit_node
commit_node_id l i n = ground arith

pub commit_node-available :
    (l : NodeState) (i : ℕ) (n : NodeState) → is_available (commit_node l i n) ≡ is_available n
unfolding commit_node is_available
commit_node-available l i n = ground arith

module _ (collate : JsString → JsString → Ordering) (input : QueryInput) (command : Command)
    (key : JsString) (value : Option JsString) where
  abbrev applied : List NodeState → Engines → Option Engines
  applied = apply_nodes collate input command key value

  keep-All :
      (id : JsString) (lsm : SimulatedLsmEngine) (engines : Engines) (nodes : List NodeState)
      → All (HasEngine engines) nodes
      → All (HasEngine (Dict.set id lsm engines)) nodes
  keep-All id lsm engines [] h = tt
  keep-All id lsm engines (n ∷ nodes) h =
      (HasEngine-set id lsm engines n h.0, keep-All id lsm engines nodes h.1)

  -- Every available node has an engine to apply the command to.
  pub apply_nodes_total :
      (nodes : List NodeState) (engines : Engines) (shards : List ShardState)
      → All (HasEngine engines) nodes
      → All (IsCoherent engines) shards
      → (after : Engines) × (applied nodes engines ≡ some after) × All (IsCoherent after) shards
  unfolding apply_nodes
  apply_nodes_total [] engines shards h c = (engines, refl, c)
  apply_nodes_total (n ∷ nodes) engines shards h c = elim (Bool-cases (is_available n)) [
    | inl up ↦
        let lsm = apply_command collate input command key value n h.0.0 in
        let (after, e, k) =
          apply_nodes_total nodes (Dict.set n.id lsm engines) shards
            (keep-All n.id lsm engines nodes h.1) (IsCoherent-set n.id lsm engines shards c) in
        (after, rw (up, h.0.1, apply_nodes) e, k)
    | inr down ↦
        let (after, e, k) = apply_nodes_total nodes engines shards h.1 c in
        (after, rw (down, apply_nodes) e, k)
  ]

-- A coherent cluster of at least one shard.
pub record IsWhole (s : ClusterSimulator) : Type 0 where
  pub some_shards : 0 < length s.shards
  pub coherent : All (IsCoherent s.lsm_engines) s.shards

-- The query returns, and the cluster is still whole.
abbrev pub Returns : Option (QueryResult × ClusterSimulator) → Type 0
Returns o = (r : QueryResult) × (t : ClusterSimulator) × (o ≡ some (r, t)) × IsWhole t

pub length-set_nodes :
    (shards : List ShardState) (i : ℕ) (nodes : List NodeState)
    → length (set_nodes shards i nodes) ≡ length shards
unfolding set_nodes
length-set_nodes [] i nodes = refl
length-set_nodes (s ∷ shards) zero nodes = refl
length-set_nodes (s ∷ shards) (suc i) nodes = ap suc (length-set_nodes shards i nodes)

pub get_elem?_total :
    (shards : List ShardState) (i : ℕ)
    → i < length shards
    → (shard : ShardState) × (get_elem? shards i ≡ some shard)
get_elem?_total [] i h = absurd (omega arith)
get_elem?_total (s ∷ shards) zero h = (s, refl)
get_elem?_total (s ∷ shards) (suc i) h = get_elem?_total shards i (omega arith)

pub All-find :
    (P : NodeState → Type 0) (p : NodeState → Bool) (nodes : List NodeState) (n : NodeState)
    → find p nodes ≡ some n
    → All P nodes
    → P n
All-find P p [] n e h = cc
All-find P p (m ∷ nodes) n e h = elim (Bool-cases (p m)) [
  | inl hit ↦ let same : m ≡ n = some_eq (rw hit at e) in rw (← same) h.0
  | inr miss ↦ All-find P p nodes n (rw miss at e) h.1
]
  where
    some_eq : some m ≡ some n → m ≡ n
    some_eq k = cc

pub sync-IsWhole :
    (collate : JsString → JsString → Ordering) (s : ClusterSimulator)
    → IsWhole s
    → IsWhole (sync_state collate s)
unfolding sync_state
sync-IsWhole collate s w = record {
  some_shards =
      omega (arith, length-map (sync_shard collate s.lsm_engines) s.shards, w.some_shards);
  coherent =
      All-map _ _ (sync_shard collate s.lsm_engines) (sync_shard-IsCoherent collate s.lsm_engines)
        s.shards w.coherent;
}
