-- ===== src/Cluster/Coherence.antt =====
-- A coherent cluster: each node has an engine, no node's id stands twice in a shard, and a shard
-- that names a leader has that leader at hand.
use info_crate.Common.{
  ◌≡◌, refl, arith, false, ◌⊎◌, inl, inr, none, some, List, [], ◌∷◌, map, length, leb, Ordering,
  All, All-map, find-map, Bool-cases, Option-cases,
}
use info_crate.Text.{JsString, str_eq}
use info_crate.Dict
use info_crate.Dict.{Dict}
use info_crate.Dict.Laws.{get-set}
use info_crate.Lsm.{SimulatedLsmEngine}
use info_crate.Cluster.{
  NodeState, ShardState, is_available, find_leader, available_nodes, sync_node, sync_shard,
}
use info_crate.Cluster.Election.{promote, elected, hold_election, heartbeat_shard}
use info_crate.Cluster.Election.Leads.{leads, find-elected}

abbrev pub Engines : Type 0
Engines = Dict SimulatedLsmEngine

abbrev pub HasEngine : Engines → NodeState → Type 0
HasEngine engines n = (lsm : SimulatedLsmEngine) × (Dict.get n.id engines ≡ some lsm)

abbrev pub UniqueIds : List NodeState → Type 0
UniqueIds [] = Unit
UniqueIds (n ∷ nodes) = All (λ m. str_eq m.id n.id ≡ false) nodes × UniqueIds nodes

abbrev pub IsLed : ShardState → Type 0
IsLed shard = (shard.leader_id ≡ none) ⊎ ((l : NodeState) × (find_leader shard ≡ some l))

pub record IsCoherent (engines : Engines) (shard : ShardState) : Type 0 where
  pub engines_there : All (HasEngine engines) shard.nodes
  pub unique : UniqueIds shard.nodes
  pub led : IsLed shard

-- An engine that is set keeps all the engines there.
pub HasEngine-set :
    (id : JsString) (lsm : SimulatedLsmEngine) (engines : Engines) (n : NodeState)
    → HasEngine engines n
    → HasEngine (Dict.set id lsm engines) n
HasEngine-set id lsm engines n (own, e) = elim (Bool-cases (str_eq id n.id)) [
  | inl same ↦ (lsm, rw (get-set, same))
  | inr other ↦ (own, rw (get-set, other) e)
]

pub IsCoherent-set :
    (id : JsString) (lsm : SimulatedLsmEngine) (engines : Engines) (shards : List ShardState)
    → All (IsCoherent engines) shards
    → All (IsCoherent (Dict.set id lsm engines)) shards
IsCoherent-set id lsm engines [] h = tt
IsCoherent-set id lsm engines (shard ∷ shards) h = (
  record { engines_there = go shard.nodes h.0.engines_there; unique = h.0.unique; led = h.0.led },
  IsCoherent-set id lsm engines shards h.1,
)
  where
    go :
        (nodes : List NodeState)
        → All (HasEngine engines) nodes
        → All (HasEngine (Dict.set id lsm engines)) nodes
    go [] k = tt
    go (n ∷ nodes) k = (HasEngine-set id lsm engines n k.0, go nodes k.1)

-- A change of the nodes that keeps their ids.
module _ (f : NodeState → NodeState) (keep : (n : NodeState) → (f n).id ≡ n.id) where
  pub engines-map :
      (engines : Engines) (nodes : List NodeState)
      → All (HasEngine engines) nodes
      → All (HasEngine engines) (map f nodes)
  engines-map engines [] h = tt
  engines-map engines (n ∷ nodes) h = ((h.0.0, rw (keep n) h.0.1), engines-map engines nodes h.1)

  pub map-UniqueIds : (nodes : List NodeState) → UniqueIds nodes → UniqueIds (map f nodes)
  map-UniqueIds [] h = tt
  map-UniqueIds (n ∷ nodes) h = (
    All-map (λ m. str_eq m.id n.id ≡ false) (λ m. str_eq m.id (f n).id ≡ false) f
        (λ m e. rw (keep m, keep n) e) nodes h.0,
    map-UniqueIds nodes h.1,
  )

  -- One that keeps their availability too keeps the shard coherent.
  pub map-IsCoherent :
      ((n : NodeState) → is_available (f n) ≡ is_available n)
      → (engines : Engines) (shard : ShardState) → IsCoherent engines shard
      → IsCoherent engines (record shard { nodes = map f shard.nodes })
  map-IsCoherent up engines shard h = record {
    engines_there = engines-map engines shard.nodes h.engines_there;
    unique = map-UniqueIds shard.nodes h.unique;
    led = led h.led;
  }
    where
      led : IsLed shard → IsLed (record shard { nodes = map f shard.nodes })
      led (inl nobody) = inl nobody
      led (inr (l, e)) = inr (
        f l,
        unfold find_leader in
            find-map (leads shard.leader_id) (leads shard.leader_id) f (λ n. simp (up n, keep n))
              shard.nodes l e,
      )

pub sync_shard-IsCoherent :
    (collate : JsString → JsString → Ordering) (engines : Engines) (shard : ShardState)
    → IsCoherent engines shard
    → IsCoherent engines (sync_shard collate engines shard)
unfolding sync_shard
sync_shard-IsCoherent collate engines shard h =
    map-IsCoherent (sync_node collate engines) (λ n. unfold sync_node in ground arith)
      (λ n. unfold sync_node is_available in ground arith) engines shard h

elected_id : (c n : NodeState) → (elected c n).id ≡ n.id
unfolding elected promote
elected_id c n = ground arith

hold_election-IsCoherent :
    (engines : Engines) (shard : ShardState) (healthy : List NodeState)
    → available_nodes shard.nodes ≡ healthy
    → IsCoherent engines shard
    → IsCoherent engines (hold_election shard healthy)
unfolding hold_election
hold_election-IsCoherent engines shard [] e h = h
hold_election-IsCoherent engines shard (c ∷ others) e h =
    elim (Bool-cases (leb 2 (length (c ∷ others)))) [
      | inl enough ↦ rw enough (record {
        engines_there = engines-map (elected c) (elected_id c) engines shard.nodes h.engines_there;
        unique = map-UniqueIds (elected c) (elected_id c) shard.nodes h.unique;
        led = inr (promote c, unfold find_leader in find-elected c others shard.nodes e);
      })
      | inr few ↦ rw few h
    ]

pub heartbeat_shard-IsCoherent :
    (engines : Engines) (shard : ShardState)
    → IsCoherent engines shard
    → IsCoherent engines (heartbeat_shard shard)
unfolding heartbeat_shard
heartbeat_shard-IsCoherent engines shard h = elim (Option-cases (find_leader shard)) [
  | inl lost ↦
      rw (lost, heartbeat_shard)
        (hold_election-IsCoherent engines shard (available_nodes shard.nodes) refl h)
  | inr (l, led) ↦ rw (led, heartbeat_shard) h
]
