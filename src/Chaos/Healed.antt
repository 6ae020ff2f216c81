-- ===== src/Chaos/Healed.antt =====
-- The scenarios of the nodes in src/components/ChaosLab.tsx.
use info_crate.Common.{
  ◌≡◌, ◌≢◌, refl, ap, ◌∙◌, arith, Bool, true, false, not, inl, inr, Option, none, some, List, [],
  ◌∷◌, if◌then◌else◌, Ordering, All, Bool-cases, Option-cases, get_elem?,
}
use info_crate.Text.{JsString, units, str_eq}
use info_crate.Text.Laws.{str_eq_iff}
use info_crate.Cluster.{NodeState, ClusterSimulator, notify, sync_node, sync_state}
use info_crate.Cluster.Control.{
  switch_health, switch_partition, toggle_in, toggle_node_health, toggle_node_partition,
}
use info_crate.Dashboard.{all_nodes}
use info_crate.Chaos.{
  ChaosLab, switch_nodes, handle_heal_partition, handle_recover_all_nodes, first_leader,
  add_chaos_log, election_triggered, killing, handle_simulate_split_brain, handle_kill_leader,
}
use info_crate.Chaos.Switches.{
  node_with, flipped, flipped-false, seek, seek-node_with, seek-absent, seek-toggle_in,
  seek-sync_state,
}

module _ (down : NodeState → Bool) where
  -- The loop of the handlers, over any of the nodes.
  module _ (collate : JsString → JsString → Ordering)
      (toggle : ClusterSimulator → JsString → ClusterSimulator)
      (turns : (s : ClusterSimulator) (id k : JsString)
        → seek down k (all_nodes (toggle s id).shards)
          ≡ flipped (str_eq id k) (seek down k (all_nodes s.shards)))
      (k : JsString) where
    abbrev StillDown : ClusterSimulator → Type 0
    StillDown s = seek down k (all_nodes s.shards) ≡ some true

    abbrev visited : ClusterSimulator → NodeState → ClusterSimulator
    visited s node = elim (node_with node.id (all_nodes s.shards)) [
      | none ↦ s
      | some n ↦ if down n then toggle s node.id else s
    ]

    turned :
        (s : ClusterSimulator) (node n : NodeState)
        → node_with node.id (all_nodes s.shards) ≡ some n
        → down n ≡ true
        → StillDown (toggle s node.id)
        → StillDown s × (str_eq node.id k ≡ false)
    unfolding flipped
    turned s node n here up h = elim (Bool-cases (str_eq node.id k)) [
      | inl same ↦
          let it : seek down k (all_nodes s.shards) ≡ some true =
            rw (← (str_eq_iff node.id k).0 same, ← up)
              (seek-node_with down node.id (all_nodes s.shards) n here) in
          let off : flipped true (some true) ≡ some true = rw (turns s node.id k, same, it) at h in
          cc
      | inr other ↦ (
        flipped-false (seek down k (all_nodes s.shards)) ∙ rw (turns s node.id k, other) at h,
        other,
      )
    ]

    passed :
        (s : ClusterSimulator) (node : NodeState)
        → (str_eq node.id k ≡ true → seek down k (all_nodes s.shards) ≢ some true)
        → StillDown s
        → StillDown s × (str_eq node.id k ≡ false)
    passed s node never h = elim (Bool-cases (str_eq node.id k)) [
      | inl same ↦ absurd (never same h)
      | inr other ↦ (h, other)
    ]

    one_visit :
        (s : ClusterSimulator) (node : NodeState)
        → StillDown (visited s node)
        → StillDown s × (str_eq node.id k ≡ false)
    one_visit s node h = elim (Option-cases (node_with node.id (all_nodes s.shards))) [
      | inl missing ↦
          passed s node
            (λ same e. gone (seek-absent down node.id (all_nodes s.shards) missing) same e)
            (rw (missing, visited) at h)
      | inr (n, here) ↦ elim (Bool-cases (down n)) [
        | inl up ↦ turned s node n here up (rw (here, up, visited) at h)
        | inr off ↦
            passed s node
              (λ same e. stays (seek-node_with down node.id (all_nodes s.shards) n here) off same e)
              (rw (here, off, visited) at h)
      ]
    ]
      where
        gone :
            seek down node.id (all_nodes s.shards) ≡ none
            → str_eq node.id k ≡ true
            → seek down k (all_nodes s.shards) ≢ some true
        gone absent same e =
            let it : seek down node.id (all_nodes s.shards) ≡ some true =
              rw ((str_eq_iff node.id k).0 same) e in
            cc

        stays :
            {n : NodeState}
            → seek down node.id (all_nodes s.shards) ≡ some (down n)
            → down n ≡ false
            → str_eq node.id k ≡ true
            → seek down k (all_nodes s.shards) ≢ some true
        stays there off same e =
            let it : seek down node.id (all_nodes s.shards) ≡ some true =
              rw ((str_eq_iff node.id k).0 same) e in
            let no : seek down node.id (all_nodes s.shards) ≡ some false = rw off at there in cc

    visits :
        (nodes : List NodeState) (s : ClusterSimulator)
        → StillDown (switch_nodes collate down toggle nodes s)
        → StillDown s × All (λ n. str_eq n.id k ≡ false) nodes
    unfolding switch_nodes
    visits [] s h = (h, tt)
    visits (n ∷ nodes) s h =
        let (before, rest) = visits nodes (visited s n) h in
        let (down_s, other) = one_visit s n before in (down_s, (other, rest))

    none_left :
        (nodes : List NodeState) → All (λ n. str_eq n.id k ≡ false) nodes → seek down k nodes ≡ none
    none_left [] h = refl
    none_left (n ∷ nodes) h = rw h.0 (none_left nodes h.1)

    none_down :
        (s : ClusterSimulator) (n : NodeState)
        → node_with k (all_nodes (switch_nodes collate down toggle (all_nodes s.shards) s).shards)
          ≡ some n
        → down n ≡ false
    none_down s n here = elim (Bool-cases (down n)) [
      | inr off ↦ off
      | inl up ↦
          let after = switch_nodes collate down toggle (all_nodes s.shards) s in
          let (before, others) = visits (all_nodes s.shards) s (
            seek-node_with down k (all_nodes after.shards) n here ∙ ap (λ (b : Bool). some b) up) in
          let gone = none_left (all_nodes s.shards) others in cc
    ]

module _ (collate : JsString → JsString → Ordering) where
  toggle_node_partition-turns :
      (s : ClusterSimulator) (id k : JsString)
      → seek (λ n. n.is_partitioned) k (all_nodes (toggle_node_partition collate s id).shards)
        ≡ flipped (str_eq id k) (seek (λ n. n.is_partitioned) k (all_nodes s.shards))
  unfolding toggle_node_partition notify sync_state
  toggle_node_partition-turns s id k =
      seek-sync_state (λ n. n.is_partitioned) collate
        (λ engines n. unfold sync_node in ground arith) s.lsm_engines k
        (toggle_in switch_partition (λ n. n.is_partitioned) id s.shards)
      ∙ seek-toggle_in (λ n. n.is_partitioned) switch_partition (λ n. refl) (λ n. refl) id k
          s.shards

  toggle_node_health-turns :
      (s : ClusterSimulator) (id k : JsString)
      → seek (λ n. not n.is_healthy) k (all_nodes (toggle_node_health collate s id).shards)
        ≡ flipped (str_eq id k) (seek (λ n. not n.is_healthy) k (all_nodes s.shards))
  unfolding toggle_node_health notify sync_state
  toggle_node_health-turns s id k =
      seek-sync_state (λ n. not n.is_healthy) collate
        (λ engines n. unfold sync_node in ground arith) s.lsm_engines k
        (toggle_in switch_health (λ n. not n.is_healthy) id s.shards)
      ∙ seek-toggle_in (λ n. not n.is_healthy) switch_health (λ n. refl) (λ n. refl) id k s.shards

  -- After the partitions are healed, whatever the state before, no id names a node that is
  -- partitioned: the node of the cluster that is found by an id is not.
  pub handle_heal_partition_joined :
      (lab : ChaosLab) (s : ClusterSimulator) (id : JsString) (n : NodeState)
      → node_with id (all_nodes (handle_heal_partition collate lab s).1.shards) ≡ some n
      → n.is_partitioned ≡ false
  unfolding handle_heal_partition
  handle_heal_partition_joined lab s id n =
      none_down (λ n. n.is_partitioned) collate (toggle_node_partition collate)
        toggle_node_partition-turns id s n

  -- After all nodes are recovered, whatever the state before, no id names a node that is unhealthy:
  -- the node of the cluster that is found by an id is healthy.
  pub handle_recover_all_nodes_healthy :
      (lab : ChaosLab) (s : ClusterSimulator) (id : JsString) (n : NodeState)
      → node_with id (all_nodes (handle_recover_all_nodes collate lab s).1.shards) ≡ some n
      → n.is_healthy ≡ true
  unfolding handle_recover_all_nodes
  handle_recover_all_nodes_healthy lab s id n here = up n.is_healthy (
      none_down (λ n. not n.is_healthy) collate (toggle_node_health collate)
        toggle_node_health-turns id s n here)
    where
      up : (b : Bool) → not b ≡ false → b ≡ true
      up b h = ground arith

  -- Whatever the state before, the node that an id names after the partitions are healed is not
  -- partitioned, and the one that it names after all nodes are recovered is healthy: each handler
  -- reaches every node.
  pub handlers_restore :
      (lab : ChaosLab) (s : ClusterSimulator) (id : JsString) (joined up : NodeState)
      → node_with id (all_nodes (handle_heal_partition collate lab s).1.shards) ≡ some joined
      → node_with id (all_nodes (handle_recover_all_nodes collate lab s).1.shards) ≡ some up
      → (joined.is_partitioned ≡ false) × (up.is_healthy ≡ true)
  handlers_restore lab s id joined up here there = (
    handle_heal_partition_joined lab s id joined here,
    handle_recover_all_nodes_healthy lab s id up there,
  )

  -- Where the first shard names a leader: the split-brain scenario turns the partition of the node
  -- node-1 over, and the kill of the leader the health of that leader; for every other id the node
  -- that it names keeps its switch.
  pub scenarios_switch :
      (lab : ChaosLab) (s : ClusterSimulator) (k leader_id : JsString)
      → first_leader (get_elem? s.shards 0) ≡ some leader_id
      → (seek
            (λ n. n.is_partitioned)
            k
            (all_nodes (handle_simulate_split_brain collate lab s).1.shards)
          ≡ flipped
              (str_eq (units "node-1") k)
              (seek (λ n. n.is_partitioned) k (all_nodes s.shards)))
        × (seek (λ n. not n.is_healthy) k (all_nodes (handle_kill_leader collate lab s).1.shards)
            ≡ flipped (str_eq leader_id k) (seek (λ n. not n.is_healthy) k (all_nodes s.shards)))
  unfolding handle_simulate_split_brain handle_kill_leader
  scenarios_switch lab s k leader_id led = (
    toggle_node_partition-turns s (units "node-1") k,
    ap
          (λ (o : Option JsString).
            seek (λ n. not n.is_healthy) k
              (all_nodes
                (elim o as (λ _. ChaosLab × ClusterSimulator) [
                  | none ↦ (lab, s)
                  | some id ↦ (
                    add_chaos_log election_triggered (add_chaos_log (killing id) lab),
                    toggle_node_health collate s id,
                  )
                ]).1.shards))
          led
        ∙ toggle_node_health-turns s leader_id k,
  )
