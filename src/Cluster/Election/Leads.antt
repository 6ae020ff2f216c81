-- ===== src/Cluster/Election/Leads.antt =====
-- Leaders and the heartbeat of src/engine/clusterSimulator.ts.
use info_crate.Common.{
  ◌<◌, ◌≡◌, refl, arith, Bool, true, false, ◌&&◌, ◌⊎◌, inl, inr, Option, some, List, [], ◌∷◌, map,
  length, leb, find, Ordering, All, All-map, length-map, find-map, select-map, Bool-cases,
  Option-cases,
}
use info_crate.Text.{JsString}
use info_crate.Text.Laws.{str_eq_refl}
use info_crate.Dict.{Dict}
use info_crate.Lsm.{SimulatedLsmEngine}
use info_crate.Cluster.{
  NodeState, ShardState, ClusterSimulator, is_available, names, find_leader, available_nodes,
  notify, sync_node, sync_shard, sync_state,
}
use info_crate.Cluster.Election.{promote, elected, hold_election, heartbeat_shard, heartbeat}

-- The test of `find_leader`.
abbrev pub leads : Option JsString → NodeState → Bool
leads leader_id n = names leader_id n.id && is_available n

leads_self : (c : NodeState) → is_available c ≡ true → leads (some c.id) (elected c c) ≡ true
unfolding elected names is_available
leads_self c up = ground (arith, str_eq_refl c.id)

leads_down : (c n : NodeState) → is_available n ≡ false → leads (some c.id) (elected c n) ≡ false
unfolding elected names is_available
leads_down c n down = ground arith

elected_self : (c : NodeState) → elected c c ≡ promote c
unfolding elected
elected_self c = rw str_eq_refl

-- The first available node, once elected, is the leader that is found.
pub find-elected :
    (c : NodeState) (others nodes : List NodeState)
    → available_nodes nodes ≡ c ∷ others
    → find (leads (some c.id)) (map (elected c) nodes) ≡ some (promote c)
find-elected c others [] h = cc
find-elected c others (n ∷ nodes) h = elim (Bool-cases (is_available n)) [
  | inl up ↦ first up (rw up at h)
  | inr down ↦ rw (leads_down c n down) (find-elected c others nodes (rw down at h))
]
  where
    first :
        is_available n ≡ true
        → n ∷ available_nodes nodes ≡ c ∷ others
        → find (leads (some c.id)) (map (elected c) (n ∷ nodes)) ≡ some (promote c)
    first up e = let same : n ≡ c = cc in rw (same, leads_self c (rw (← same) up), elected_self c)

-- A shard has fewer than two available nodes, or an available leader.
abbrev pub IsServed : ShardState → Type 0
IsServed shard =
    (length (available_nodes shard.nodes) < 2) ⊎ ((l : NodeState) × (find_leader shard ≡ some l))

length-available-elected :
    (c : NodeState) (nodes : List NodeState)
    → length (available_nodes (map (elected c) nodes)) ≡ length (available_nodes nodes)
unfolding elected promote is_available
length-available-elected c [] = refl
length-available-elected c (n ∷ nodes) = ground (arith, length-available-elected c nodes)

hold_election-IsServed :
    (shard : ShardState) (healthy : List NodeState)
    → available_nodes shard.nodes ≡ healthy
    → IsServed (hold_election shard healthy)
unfolding hold_election
hold_election-IsServed shard [] e = inl (rw e (omega arith))
hold_election-IsServed shard (c ∷ others) e = elim (Bool-cases (leb 2 (length (c ∷ others)))) [
  | inl enough ↦
      rw enough (inr (promote c, unfold find_leader in find-elected c others shard.nodes e))
  | inr few ↦ rw few (inl (rw e (ground arith)))
]

heartbeat_shard-IsServed : (shard : ShardState) → IsServed (heartbeat_shard shard)
unfolding heartbeat_shard
heartbeat_shard-IsServed shard = elim (Option-cases (find_leader shard)) [
  | inl lost ↦ rw (lost, heartbeat_shard) (hold_election-IsServed shard _ refl)
  | inr (l, led) ↦ rw (led, heartbeat_shard) (inr (l, led))
]

module _ (collate : JsString → JsString → Ordering) (engines : Dict SimulatedLsmEngine) where
  pub sync_node_id : (n : NodeState) → (sync_node collate engines n).id ≡ n.id
  unfolding sync_node
  sync_node_id n = ground arith

  pub leads-sync_node :
      (o : Option JsString) (n : NodeState) → leads o (sync_node collate engines n) ≡ leads o n
  unfolding sync_node is_available
  leads-sync_node o n = ground arith

  available-sync_node :
      (n : NodeState) → is_available (sync_node collate engines n) ≡ is_available n
  unfolding sync_node is_available
  available-sync_node n = ground arith

  pub find_leader-sync_shard :
      (shard : ShardState) (l : NodeState)
      → find_leader shard ≡ some l
      → find_leader (sync_shard collate engines shard) ≡ some (sync_node collate engines l)
  unfolding find_leader sync_shard
  find_leader-sync_shard shard l h =
      unfold sync_node in
      find-map (leads shard.leader_id) (leads shard.leader_id) (sync_node collate engines)
        (leads-sync_node shard.leader_id) shard.nodes l h

  IsServed-sync_shard :
      (shard : ShardState) → IsServed shard → IsServed (sync_shard collate engines shard)
  unfolding sync_shard
  IsServed-sync_shard shard (inl few) = inl (
      rw
        (select-map is_available is_available (sync_node collate engines) available-sync_node
          shard.nodes)
        (omega (arith, length-map (sync_node collate engines) (available_nodes shard.nodes), few)))
  IsServed-sync_shard shard (inr (l, led)) =
      inr (sync_node collate engines l, find_leader-sync_shard shard l led)

-- After a heartbeat, whatever the state before it, every shard with two or more available nodes has
-- an available leader that queries find.
pub heartbeat-IsServed :
    (collate : JsString → JsString → Ordering) (s : ClusterSimulator)
    → All IsServed (heartbeat collate s).shards
unfolding heartbeat notify sync_state
heartbeat-IsServed collate s =
    All-map IsServed IsServed (sync_shard collate s.lsm_engines)
      (IsServed-sync_shard collate s.lsm_engines) (map heartbeat_shard s.shards)
      (All-heartbeat s.shards)
  where
    All-heartbeat : (shards : List ShardState) → All IsServed (map heartbeat_shard shards)
    All-heartbeat [] = tt
    All-heartbeat (shard ∷ shards) = (heartbeat_shard-IsServed shard, All-heartbeat shards)
