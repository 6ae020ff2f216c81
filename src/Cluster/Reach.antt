-- ===== src/Cluster/Reach.antt =====
-- All that can happen to a cluster, as steps: queries, the heartbeat, the switches of the chaos
-- controls, and the subscriptions, in any order.
use info_crate.Common.{
  ℕ, ◌≡◌, refl, arith, Bool, inl, inr, Option, some, List, [], ◌∷◌, length, length-map, All-map,
  Ordering, not, Option-cases,
}
use info_crate.Text.{JsString, str_eq}
use info_crate.Dict
use info_crate.Cluster.{
  Command, NodeState, ShardState, QueryResult, ClusterSimulator, is_available, names, find_leader,
  notify, subscribe, unsubscribe, sync_state,
}
use info_crate.Cluster.Boot.{BootInput, init_cluster, init_shards, boot_engines, create_node}
use info_crate.Cluster.Coherence.{IsCoherent-set, heartbeat_shard-IsCoherent}
use info_crate.Cluster.Switched.{toggle_in-IsCoherent}
use info_crate.Cluster.Control
use info_crate.Cluster.Control.{
  switch_health, switch_partition, toggle_in, toggle_node_health, toggle_node_partition,
}
use info_crate.Cluster.Election.{heartbeat_shard, heartbeat}
use info_crate.Cluster.Query.{QueryInput}
use info_crate.Cluster.Query.Apply.{execute_query}
use info_crate.Cluster.Query.Keeps.{IsWhole, Returns, sync-IsWhole}
use info_crate.Cluster.Query.Total.{execute_query-Returns}

module _ (collate : JsString → JsString → Ordering) where
  pub data Step (s : ClusterSimulator) (t : ClusterSimulator) : Type 0 where
    query :
        (input : QueryInput) (command : Command) (key : JsString) (value : Option JsString)
        (r : QueryResult)
        → execute_query collate input s command key value ≡ some (r, t)
        → Step s t
    beat : t ≡ heartbeat collate s → Step s t
    health : (node_id : JsString) → t ≡ toggle_node_health collate s node_id → Step s t
    partition : (node_id : JsString) → t ≡ toggle_node_partition collate s node_id → Step s t
    compaction : (node_id : JsString) → t ≡ Control.trigger_compaction collate s node_id → Step s t
    flush : (node_id : JsString) → t ≡ Control.flush_memtable collate s node_id → Step s t
    listen : (listener : ℕ) → t ≡ subscribe s listener → Step s t
    forget : (listener : ℕ) → t ≡ unsubscribe s listener → Step s t

  pub data Reach (s : ClusterSimulator) : ClusterSimulator → Type 0 where
    here : Reach s s
    next : {t u : ClusterSimulator} → Reach s t → Step t u → Reach s u

  settled : (s : ClusterSimulator) → IsWhole s → IsWhole (notify (sync_state collate s))
  unfolding notify
  settled s w =
      let v = sync-IsWhole collate s w in
      record { some_shards = v.some_shards; coherent = v.coherent }

  pub heartbeat-IsWhole : (s : ClusterSimulator) → IsWhole s → IsWhole (heartbeat collate s)
  unfolding heartbeat
  heartbeat-IsWhole s w = settled _ (record {
    some_shards = omega (arith, length-map heartbeat_shard s.shards, w.some_shards);
    coherent =
        All-map _ _ heartbeat_shard (heartbeat_shard-IsCoherent s.lsm_engines) s.shards w.coherent;
  })

  length-toggle_in :
      (change : NodeState → NodeState) (down : NodeState → Bool) (id : JsString)
      (shards : List ShardState)
      → length (toggle_in change down id shards) ≡ length shards
  unfolding toggle_in
  length-toggle_in change down id [] = refl
  length-toggle_in change down id (shard ∷ shards) =
      ground (arith, length-toggle_in change down id shards)

  toggle_node_health-IsWhole :
      (s : ClusterSimulator) (id : JsString) → IsWhole s → IsWhole (toggle_node_health collate s id)
  unfolding toggle_node_health
  toggle_node_health-IsWhole s id w = settled _ (record {
    some_shards =
        omega (
          arith,
          length-toggle_in switch_health (λ n. not n.is_healthy) id s.shards,
          w.some_shards,
        );
    coherent =
        toggle_in-IsCoherent switch_health (λ n. not n.is_healthy) (λ n. refl)
          (λ n up. unfold is_available in ground arith) id s.lsm_engines s.shards w.coherent;
  })

  toggle_node_partition-IsWhole :
      (s : ClusterSimulator) (id : JsString)
      → IsWhole s
      → IsWhole (toggle_node_partition collate s id)
  unfolding toggle_node_partition
  toggle_node_partition-IsWhole s id w = settled _ (record {
    some_shards = omega (
      arith,
      length-toggle_in switch_partition (λ n. n.is_partitioned) id s.shards,
      w.some_shards,
    );
    coherent =
        toggle_in-IsCoherent switch_partition (λ n. n.is_partitioned) (λ n. refl)
          (λ n up. unfold is_available in ground arith) id s.lsm_engines s.shards w.coherent;
  })

  trigger_compaction-IsWhole :
      (s : ClusterSimulator) (id : JsString)
      → IsWhole s
      → IsWhole (Control.trigger_compaction collate s id)
  unfolding Control.trigger_compaction
  trigger_compaction-IsWhole s id w = elim (Option-cases (Dict.get id s.lsm_engines)) [
    | inl missing ↦ rw (missing, Control.trigger_compaction) w
    | inr (lsm, e) ↦
        rw (e, Control.trigger_compaction)
          (settled _ (record {
            some_shards = w.some_shards;
            coherent = IsCoherent-set id _ s.lsm_engines s.shards w.coherent;
          }))
  ]

  flush_memtable-IsWhole :
      (s : ClusterSimulator) (id : JsString)
      → IsWhole s
      → IsWhole (Control.flush_memtable collate s id)
  unfolding Control.flush_memtable
  flush_memtable-IsWhole s id w = elim (Option-cases (Dict.get id s.lsm_engines)) [
    | inl missing ↦ rw (missing, Control.flush_memtable) w
    | inr (lsm, e) ↦
        rw (e, Control.flush_memtable)
          (settled _ (record {
            some_shards = w.some_shards;
            coherent = IsCoherent-set id _ s.lsm_engines s.shards w.coherent;
          }))
  ]

  returned :
      (o : Option (QueryResult × ClusterSimulator)) (r : QueryResult) (t : ClusterSimulator)
      → o ≡ some (r, t)
      → Returns o
      → IsWhole t
  returned o r t e (r', t', e', w) = let same : t' ≡ t = cc in rw (← same) w

  Step-IsWhole : {s t : ClusterSimulator} → Step s t → IsWhole s → IsWhole t
  unfolding subscribe unsubscribe
  Step-IsWhole (query input command key value r e) w =
      returned _ r _ e (execute_query-Returns collate input _ command key value w)
  Step-IsWhole (beat e) w = rw e (heartbeat-IsWhole _ w)
  Step-IsWhole (health id e) w = rw e (toggle_node_health-IsWhole _ id w)
  Step-IsWhole (partition id e) w = rw e (toggle_node_partition-IsWhole _ id w)
  Step-IsWhole (compaction id e) w = rw e (trigger_compaction-IsWhole _ id w)
  Step-IsWhole (flush id e) w = rw e (flush_memtable-IsWhole _ id w)
  Step-IsWhole (listen l e) w = rw e (record { some_shards = w.some_shards; coherent = w.coherent })
  Step-IsWhole (forget l e) w = rw e (record { some_shards = w.some_shards; coherent = w.coherent })

  pub Reach-IsWhole : {s t : ClusterSimulator} → Reach s t → IsWhole s → IsWhole t
  Reach-IsWhole here w = w
  Reach-IsWhole (next r x) w = Step-IsWhole x (Reach-IsWhole r w)

  module _ (start : BootInput) where
    pub init_cluster-IsWhole : IsWhole (init_cluster collate start)
    unfolding init_cluster init_shards boot_engines create_node find_leader names is_available
        Dict.get Dict.set str_eq
    init_cluster-IsWhole = record {
      some_shards = omega arith;
      coherent = (
        record {
          engines_there = ((_, refl), ((_, refl), ((_, refl), tt)));
          unique = ((refl, (refl, tt)), ((refl, tt), (tt, tt)));
          led = inr (_, refl);
        },
        (
          record {
            engines_there = ((_, refl), ((_, refl), ((_, refl), tt)));
            unique = ((refl, (refl, tt)), ((refl, tt), (tt, tt)));
            led = inr (_, refl);
          },
          tt,
        ),
      );
    }

    -- In every state that a run of queries, heartbeats, switches and subscriptions leads to from
    -- the start of the program, in any order and with any results of the clock and of the random
    -- numbers, every query returns a result, without an exception; and in the state it leaves every
    -- node has an engine and a shard that names a leader has that leader available.
    pub Reach-Returns :
        (s : ClusterSimulator)
        → Reach (init_cluster collate start) s
        → (input : QueryInput) (command : Command) (key : JsString) (value : Option JsString)
        → Returns (execute_query collate input s command key value)
    Reach-Returns s r input command key value =
        execute_query-Returns collate input s command key value
          (Reach-IsWhole r init_cluster-IsWhole)
