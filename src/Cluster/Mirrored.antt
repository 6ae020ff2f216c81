-- ===== src/Cluster/Mirrored.antt =====
-- The nodes' views of their engines, which `syncState` of src/engine/clusterSimulator.ts renews.
use info_crate.Common.{
  ℕ, ◌≡◌, refl, sym, ap, arith, ◌∙◌, inl, inr, Option, some, List, [], ◌∷◌, map, get_elem?,
  Ordering, All, All-map, Option-cases,
}
use info_crate.Text.{JsString, str_eq}
use info_crate.Dict
use info_crate.Lsm.{SimulatedLsmEngine, get_memtable_snapshot}
use info_crate.Cluster.{
  RaftRole, RaftLogEntry, Command, NodeState, ShardState, ClusterSimulator, QueryResult, notify,
  subscribe, unsubscribe, sync_node, sync_shard, sync_state,
}
use info_crate.Cluster.Boot.{
  BootInput, boot_engine, boot_engines, create_node, init_shards, init_cluster,
}
use info_crate.Cluster.Coherence.{Engines}
use info_crate.Cluster.Control
use info_crate.Cluster.Control.{toggle_node_health, toggle_node_partition}
use info_crate.Cluster.Election.{heartbeat}
use info_crate.Cluster.Election.Leads.{sync_node_id}
use info_crate.Cluster.Query.{QueryInput, refuse, read_from, append_entry}
use info_crate.Cluster.Query.Apply.{commit_write}
use info_crate.Cluster.Query.Branch.{
  Branch, lost, reads, few, done, raft_entry, execute_query-Branch,
}
use info_crate.Cluster.Query.Keeps.{All-get_elem?, All-set_nodes, append_entry_id}
use info_crate.Cluster.Reach.{
  Step, query, beat, health, partition, compaction, flush, listen, forget, Reach, here, next,
}

module _ (collate : JsString → JsString → Ordering) where
  -- The node shows the log, the memtable and the tables of its engine.
  pub record Mirrors (lsm : SimulatedLsmEngine) (n : NodeState) : Type 0 where
    pub same_log : n.wal_frames ≡ lsm.wal_frames
    pub same_memtable : n.memtable ≡ get_memtable_snapshot collate lsm
    pub same_l0 : n.sstables_l0 ≡ lsm.l0_tables
    pub same_l1 : n.sstables_l1 ≡ lsm.l1_tables

  abbrev pub IsMirrored : Engines → NodeState → Type 0
  IsMirrored engines n =
      (lsm : SimulatedLsmEngine) → Dict.get n.id engines ≡ some lsm → Mirrors lsm n

  abbrev pub AllMirrored : Engines → List ShardState → Type 0
  AllMirrored engines = All (λ (sh : ShardState). All (IsMirrored engines) sh.nodes)

  sync_node-IsMirrored :
      (engines : Engines) (n : NodeState) → IsMirrored engines (sync_node collate engines n)
  unfolding sync_node
  sync_node-IsMirrored engines n lsm e =
      let own : Dict.get n.id engines ≡ some lsm = rw (sync_node_id collate engines n) at e in
      rw (own, sync_node)
        (record { same_log = refl; same_memtable = refl; same_l0 = refl; same_l1 = refl })

  sync_nodes :
      (engines : Engines) (nodes : List NodeState)
      → All (IsMirrored engines) (map (sync_node collate engines) nodes)
  sync_nodes engines [] = tt
  sync_nodes engines (n ∷ nodes) = (sync_node-IsMirrored engines n, sync_nodes engines nodes)

  synced :
      (engines : Engines) (shards : List ShardState)
      → AllMirrored engines (map (sync_shard collate engines) shards)
  unfolding sync_shard
  synced engines [] = tt
  synced engines (sh ∷ shards) = (sync_nodes engines sh.nodes, synced engines shards)

  append_entry_views :
      (l : NodeState) (entry : RaftLogEntry) (n : NodeState)
      → ((append_entry l entry n).wal_frames ≡ n.wal_frames)
        × ((append_entry l entry n).memtable ≡ n.memtable)
        × ((append_entry l entry n).sstables_l0 ≡ n.sstables_l0)
        × ((append_entry l entry n).sstables_l1 ≡ n.sstables_l1)
  unfolding append_entry
  append_entry_views l entry n = ground arith

  append_entry-IsMirrored :
      (engines : Engines) (l : NodeState) (entry : RaftLogEntry) (n : NodeState)
      → IsMirrored engines n
      → IsMirrored engines (append_entry l entry n)
  append_entry-IsMirrored engines l entry n h lsm e =
      let v = h lsm (rw (append_entry_id l entry n) at e) in
      let (a, b, c, d) = append_entry_views l entry n in
      record {
        same_log = a ∙ v.same_log;
        same_memtable = b ∙ v.same_memtable;
        same_l0 = c ∙ v.same_l0;
        same_l1 = d ∙ v.same_l1;
      }

  Branch-AllMirrored :
      (input : QueryInput) (s t : ClusterSimulator) (command : Command) (key : JsString)
      (value : Option JsString) (r : QueryResult) (index : ℕ) (shard : ShardState)
      → get_elem? s.shards index ≡ some shard
      → Branch collate input s command key value index shard r t
      → AllMirrored s.lsm_engines s.shards
      → AllMirrored t.lsm_engines t.shards
  unfolding refuse read_from notify commit_write sync_state
  Branch-AllMirrored input s t command key value r index shard e (lost steps led re te) h = rw te h
  Branch-AllMirrored input s t command key value r index shard e (reads steps l lsm c led own re te)
        h =
      rw te h
  Branch-AllMirrored input s t command key value r index shard e (few steps l w led q re te) h =
      rw te (
        All-set_nodes (λ (sh : ShardState). All (IsMirrored s.lsm_engines) sh.nodes) s.shards index
          shard _ e
          (All-map _ _ (append_entry l (raft_entry collate input s command key value l))
            (append_entry-IsMirrored s.lsm_engines l
              (raft_entry collate input s command key value l))
            shard.nodes
            (All-get_elem? (λ (sh : ShardState). All (IsMirrored s.lsm_engines) sh.nodes) s.shards
              index shard e h))
          h)
  Branch-AllMirrored input s t command key value r index shard e
        (done steps l engines w led q applied re te) h =
      rw te (synced engines _)

  compacted :
      (s : ClusterSimulator) (id : JsString)
      → AllMirrored s.lsm_engines s.shards
      → AllMirrored
          (Control.trigger_compaction collate s id).lsm_engines
          (Control.trigger_compaction collate s id).shards
  unfolding Control.trigger_compaction notify sync_state
  compacted s id h = elim (Option-cases (Dict.get id s.lsm_engines)) [
    | inl missing ↦ rw (missing, Control.trigger_compaction) h
    | inr (lsm, own) ↦ rw (own, Control.trigger_compaction) (synced _ s.shards)
  ]

  flushed :
      (s : ClusterSimulator) (id : JsString)
      → AllMirrored s.lsm_engines s.shards
      → AllMirrored
          (Control.flush_memtable collate s id).lsm_engines
          (Control.flush_memtable collate s id).shards
  unfolding Control.flush_memtable notify sync_state
  flushed s id h = elim (Option-cases (Dict.get id s.lsm_engines)) [
    | inl missing ↦ rw (missing, Control.flush_memtable) h
    | inr (lsm, own) ↦ rw (own, Control.flush_memtable) (synced _ s.shards)
  ]

  Step-AllMirrored :
      {s t : ClusterSimulator}
      → Step collate s t
      → AllMirrored s.lsm_engines s.shards
      → AllMirrored t.lsm_engines t.shards
  unfolding heartbeat toggle_node_health toggle_node_partition subscribe unsubscribe notify
      sync_state
  Step-AllMirrored {s} {t} (query input command key value r e) h =
      let (shard, there, branch) = execute_query-Branch collate input s command key value r t e in
      Branch-AllMirrored input s t command key value r _ shard there branch h
  Step-AllMirrored {s} (beat e) h = rw e (synced s.lsm_engines _)
  Step-AllMirrored {s} (health id e) h = rw e (synced s.lsm_engines _)
  Step-AllMirrored {s} (partition id e) h = rw e (synced s.lsm_engines _)
  Step-AllMirrored {s} (compaction id e) h = rw e (compacted s id h)
  Step-AllMirrored {s} (flush id e) h = rw e (flushed s id h)
  Step-AllMirrored (listen l e) h = rw e h
  Step-AllMirrored (forget l e) h = rw e h

  Reach-AllMirrored_from :
      {s t : ClusterSimulator}
      → Reach collate s t
      → AllMirrored s.lsm_engines s.shards
      → AllMirrored t.lsm_engines t.shards
  Reach-AllMirrored_from here h = h
  Reach-AllMirrored_from (next r x) h = Step-AllMirrored x (Reach-AllMirrored_from r h)

  module _ (start : BootInput) where
    create_node-IsMirrored :
        (engines : Engines) (id shard_id : JsString) (role : RaftRole) (term grpc metrics : ℕ)
        (pairs : List (JsString × JsString))
        → Dict.get id engines ≡ some (boot_engine collate start id pairs)
        → IsMirrored engines (create_node collate start id shard_id role term grpc metrics pairs)
    unfolding create_node
    create_node-IsMirrored engines id shard_id role term grpc metrics pairs own lsm e =
        same_engine (sym own ∙ e)
      where
        same_engine :
            some (boot_engine collate start id pairs) ≡ some lsm
            → Mirrors lsm (create_node collate start id shard_id role term grpc metrics pairs)
        same_engine q =
            let it : boot_engine collate start id pairs ≡ lsm = cc in
            record {
              same_log = ap (λ (x : SimulatedLsmEngine). x.wal_frames) it;
              same_memtable = ap (get_memtable_snapshot collate) it;
              same_l0 = ap (λ (x : SimulatedLsmEngine). x.l0_tables) it;
              same_l1 = ap (λ (x : SimulatedLsmEngine). x.l1_tables) it;
            }

    init_cluster-AllMirrored :
        AllMirrored (init_cluster collate start).lsm_engines (init_cluster collate start).shards
    unfolding init_cluster init_shards boot_engines Dict.get Dict.set str_eq
    init_cluster-AllMirrored = (
      (
        create_node-IsMirrored (init_cluster collate start).lsm_engines _ _ _ _ _ _ _ refl,
        (
          create_node-IsMirrored (init_cluster collate start).lsm_engines _ _ _ _ _ _ _ refl,
          (create_node-IsMirrored (init_cluster collate start).lsm_engines _ _ _ _ _ _ _ refl, tt),
        ),
      ),
      (
        (
          create_node-IsMirrored (init_cluster collate start).lsm_engines _ _ _ _ _ _ _ refl,
          (
            create_node-IsMirrored (init_cluster collate start).lsm_engines _ _ _ _ _ _ _ refl,
            (
              create_node-IsMirrored (init_cluster collate start).lsm_engines _ _ _ _ _ _ _ refl,
              tt,
            ),
          ),
        ),
        tt,
      ),
    )

    -- In every state that a run leads to from the start of the program, every node shows the log
    -- window, the snapshot of the memtable and the tables that its engine has at that moment.
    pub Reach-AllMirrored :
        (s : ClusterSimulator)
        → Reach collate (init_cluster collate start) s
        → AllMirrored s.lsm_engines s.shards
    Reach-AllMirrored s r = Reach-AllMirrored_from r init_cluster-AllMirrored
