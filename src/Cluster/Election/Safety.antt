-- ===== src/Cluster/Election/Safety.antt =====
-- The leaders of a shard after an election of the heartbeat of src/engine/clusterSimulator.ts.
use info_crate.Common.{
  ℕ, ◌≡◌, ◌≤◌, refl, arith, Bool, true, false, ◌&&◌, not, inl, inr, none, List, [], ◌∷◌, map,
  length, leb, select, All, Bool-cases,
}
use info_crate.Text.{JsString, str_eq}
use info_crate.Text.Laws.{str_eq_iff, str_eq_refl}
use info_crate.Cluster.{
  RaftRole, leader, follower, candidate, NodeState, ShardState, is_available, find_leader,
  available_nodes,
}
use info_crate.Cluster.Coherence.{UniqueIds}
use info_crate.Cluster.Election.{promote, elected, hold_election, heartbeat_shard}

abbrev pub is_leader : RaftRole → Bool
is_leader leader = true
is_leader follower = false
is_leader candidate = false

-- An available node that shows the role of a leader.
abbrev pub leading : NodeState → Bool
leading n = is_available n && is_leader n.role

abbrev pub is_down : NodeState → Bool
is_down n = not (is_available n)

module _ (c : NodeState) where
  chosen_up :
      is_available c ≡ true
      → (leading (elected c c) ≡ true) × (is_down (elected c c) ≡ false) × (is_down c ≡ false)
  unfolding elected promote is_available
  chosen_up up = (ground (arith, str_eq_refl c.id), ground (arith, str_eq_refl c.id), ground arith)

  down_stays :
      (n : NodeState)
      → is_available n ≡ false
      → str_eq n.id c.id ≡ false
      → (elected c n ≡ n) × (leading n ≡ false) × (is_down n ≡ true)
  unfolding elected is_available
  down_stays n down other = (rw (other, down), rw down, rw down)

  -- The first available node has none of the ids that its list lacks.
  other_id :
      (id : JsString) (others nodes : List NodeState)
      → All (λ m. str_eq m.id id ≡ false) nodes
      → available_nodes nodes ≡ c ∷ others
      → str_eq id c.id ≡ false
  other_id id others [] h e = cc
  other_id id others (m ∷ nodes) h e = elim (Bool-cases (is_available m)) [
    | inr down ↦ other_id id others nodes h.1 (rw down at e)
    | inl up ↦ apart (rw up at e)
  ]
    where
      apart : m ∷ available_nodes nodes ≡ c ∷ others → str_eq id c.id ≡ false
      apart e' =
          let same : m ≡ c = cc in
          elim (Bool-cases (str_eq id c.id)) [
            | inr differs ↦ differs
            | inl equal ↦
                let here : id ≡ c.id = (str_eq_iff id c.id).0 equal in
                let missed : str_eq c.id c.id ≡ false = rw (same, here) at h.0 in
                let hit : str_eq c.id c.id ≡ true = str_eq_refl c.id in cc
          ]

  others_follow :
      (nodes : List NodeState)
      → All (λ m. str_eq m.id c.id ≡ false) nodes
      → (length (select leading (map (elected c) nodes)) ≡ 0)
        × (select is_down (map (elected c) nodes) ≡ select is_down nodes)
  unfolding elected is_available
  others_follow [] h = (refl, refl)
  others_follow (n ∷ nodes) h =
      let (none_lead, same_down) = others_follow nodes h.1 in
      (ground (arith, h.0, none_lead), ground (arith, h.0, same_down))

  chosen_leads :
      (others nodes : List NodeState)
      → UniqueIds nodes
      → available_nodes nodes ≡ c ∷ others
      → (length (select leading (map (elected c) nodes)) ≡ 1)
        × (select is_down (map (elected c) nodes) ≡ select is_down nodes)
  chosen_leads others [] u h = cc
  chosen_leads others (n ∷ nodes) u h = elim (Bool-cases (is_available n)) [
    | inl up ↦ first up (rw up at h)
    | inr down ↦
        let (stays, quiet, counted) =
          down_stays n down (other_id n.id others nodes u.0 (rw down at h)) in
        let (one_leads, same_down) = chosen_leads others nodes u.1 (rw down at h) in
        (rw (stays, quiet) one_leads, rw (stays, counted, same_down))
  ]
    where
      first :
          is_available n ≡ true
          → n ∷ available_nodes nodes ≡ c ∷ others
          → (length (select leading (map (elected c) (n ∷ nodes))) ≡ 1)
            × (select is_down (map (elected c) (n ∷ nodes)) ≡ select is_down (n ∷ nodes))
      first up e =
          let same : n ≡ c = cc in
          let (none_lead, same_down) = others_follow nodes (rw (← same) u.0) in
          (let (shows_it, not_down, up_before) = chosen_up (rw (← same) up) in
            (rw (same, shows_it, none_lead), rw (same, not_down, up_before, same_down)))

-- In a shard with no id twice that has no available leader and two or more available nodes, a
-- heartbeat leaves exactly one available node with the role of a leader, and it leaves the
-- unavailable nodes as they were, also one that has the role of a leader.
pub heartbeat_shard_safe :
    (shard : ShardState)
    → UniqueIds shard.nodes
    → find_leader shard ≡ none
    → 2 ≤ length (available_nodes shard.nodes)
    → (length (select leading (heartbeat_shard shard).nodes) ≡ 1)
      × (select is_down (heartbeat_shard shard).nodes ≡ select is_down shard.nodes)
unfolding heartbeat_shard hold_election
heartbeat_shard_safe shard u leaderless enough =
    rw (leaderless, heartbeat_shard) (held (available_nodes shard.nodes) refl)
  where
    enough_left : (n : ℕ) → 2 ≤ n → leb 2 n ≡ true
    enough_left n h = ground (arith, h)

    held :
        (nodes : List NodeState)
        → available_nodes shard.nodes ≡ nodes
        → (length (select leading (hold_election shard nodes).nodes) ≡ 1)
          × (select is_down (hold_election shard nodes).nodes ≡ select is_down shard.nodes)
    held [] e = absurd (few (rw e at enough))
      where
        few : 2 ≤ 0 → ⊥
        few h = omega (arith, h)
    held (c ∷ others) e =
        rw (enough_left (length (c ∷ others)) (rw e at enough))
          (chosen_leads c others shard.nodes u e)
