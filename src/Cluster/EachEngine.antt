-- ===== src/Cluster/EachEngine.antt =====
-- What holds of every engine of src/engine/clusterSimulator.ts through a run of the program.
use info_crate.Common.{
  ℕ, ◌≡◌, subst, Bool, inl, inr, Option, none, some, List, [], ◌∷◌, Ordering, Bool-cases,
  Option-cases,
}
use info_crate.Text.{JsString, str_eq}
use info_crate.Dict
use info_crate.Dict.Laws.{get-set}
use info_crate.Lsm.{SimulatedLsmEngine, empty_engine, load}
use info_crate.Lsm.Counts.{
  Call, puts, flushes, compacts, step, IsValid, step-IsValid, run, run-IsValid,
}
use info_crate.Lsm.LogFrames.{IsLogged, step-IsLogged, run-IsLogged}
use info_crate.Cluster.{
  Command, NodeState, ClusterSimulator, QueryResult, is_available, notify, subscribe, unsubscribe,
  sync_state,
}
use info_crate.Cluster.Boot.{BootInput, boot_engine, boot_engines, init_cluster}
use info_crate.Cluster.Coherence.{Engines}
use info_crate.Cluster.Control
use info_crate.Cluster.Control.{toggle_node_health, toggle_node_partition}
use info_crate.Cluster.Election.{heartbeat}
use info_crate.Cluster.Query.{QueryInput, refuse, read_from}
use info_crate.Cluster.Query.Apply.{apply_nodes, commit_write}
use info_crate.Cluster.Query.Branch.{Branch, lost, reads, few, done, execute_query-Branch}
use info_crate.Cluster.Query.Replicated.{taken, apply_command_lem}
use info_crate.Cluster.Reach.{
  Step, query, beat, health, partition, compaction, flush, listen, forget, Reach, here, next,
}

module _ (P : SimulatedLsmEngine → Type 0) where
  abbrev pub Each : Engines → Type 0
  Each engines = (id : JsString) (lsm : SimulatedLsmEngine) → Dict.get id engines ≡ some lsm → P lsm

  Each-nil : Each []
  unfolding Dict.get
  Each-nil id lsm e = cc

  Each-set :
      (id : JsString) (lsm : SimulatedLsmEngine) (engines : Engines)
      → P lsm
      → Each engines
      → Each (Dict.set id lsm engines)
  Each-set id lsm engines p h k other e = elim (Bool-cases (str_eq id k)) [
    | inl same ↦ own (rw (get-set, same) at e)
    | inr apart ↦ h k other (rw (get-set, apart) at e)
  ]
    where
      own : some lsm ≡ some other → P other
      own q = let it : lsm ≡ other = cc in subst P it p

  module _ (collate : JsString → JsString → Ordering)
      (keeps : (lsm : SimulatedLsmEngine) (call : Call) → P lsm → P (step collate lsm call)) where
    taken-P : (o : Option Call) (lsm : SimulatedLsmEngine) → P lsm → P (taken collate o lsm)
    taken-P none lsm p = p
    taken-P (some call) lsm p = keeps lsm call p

    apply_nodes-Each :
        (input : QueryInput) (command : Command) (key : JsString) (value : Option JsString)
        (nodes : List NodeState) (engines after : Engines)
        → apply_nodes collate input command key value nodes engines ≡ some after
        → Each engines
        → Each after
    unfolding apply_nodes
    apply_nodes-Each input command key value [] engines after e h = ended e
      where
        ended : some engines ≡ some after → Each after
        ended q = let same : engines ≡ after = cc in subst Each same h
    apply_nodes-Each input command key value (n ∷ nodes) engines after e h =
        elim (Bool-cases (is_available n)) [
          | inr down ↦
              apply_nodes-Each input command key value nodes engines after
                (rw (down, apply_nodes) at e) h
          | inl up ↦ elim (Option-cases (Dict.get n.id engines)) [
            | inl missing ↦ stuck (rw (up, missing, apply_nodes) at e)
            | inr (lsm, own) ↦
                apply_nodes-Each input command key value nodes _ after
                  (rw (up, own, apply_nodes) at e)
                  (Each-set n.id _ engines (rw apply_command_lem (taken-P _ lsm (h n.id lsm own)))
                    h)
          ]
        ]
      where
        stuck : ◌≡◌ {A = Option Engines} none (some after) → Each after
        stuck q = cc

    Branch-Each :
        (input : QueryInput) (s t : ClusterSimulator) (command : Command) (key : JsString)
        (value : Option JsString) (r : QueryResult) {index : ℕ} {shard : _}
        → Branch collate input s command key value index shard r t
        → Each s.lsm_engines
        → Each t.lsm_engines
    unfolding refuse read_from notify commit_write sync_state
    Branch-Each input s t command key value r (lost steps led re te) h = rw te h
    Branch-Each input s t command key value r (reads steps l lsm c led own re te) h = rw te h
    Branch-Each input s t command key value r (few steps l w led q re te) h = rw te h
    Branch-Each input s t command key value r (done steps l engines w led q applied re te) h =
        rw te (apply_nodes-Each input command key value _ s.lsm_engines engines applied h)

    compacted :
        (s : ClusterSimulator) (id : JsString)
        → Each s.lsm_engines
        → Each (Control.trigger_compaction collate s id).lsm_engines
    unfolding Control.trigger_compaction notify sync_state
    compacted s id h = elim (Option-cases (Dict.get id s.lsm_engines)) [
      | inl missing ↦ rw (missing, Control.trigger_compaction) h
      | inr (lsm, own) ↦
          rw (own, Control.trigger_compaction)
            (Each-set id _ s.lsm_engines (unfold step in keeps lsm compacts (h id lsm own)) h)
    ]

    flushed :
        (s : ClusterSimulator) (id : JsString)
        → Each s.lsm_engines
        → Each (Control.flush_memtable collate s id).lsm_engines
    unfolding Control.flush_memtable notify sync_state
    flushed s id h = elim (Option-cases (Dict.get id s.lsm_engines)) [
      | inl missing ↦ rw (missing, Control.flush_memtable) h
      | inr (lsm, own) ↦
          rw (own, Control.flush_memtable)
            (Each-set id _ s.lsm_engines (unfold step in keeps lsm flushes (h id lsm own)) h)
    ]

    Step-Each :
        {s t : ClusterSimulator} → Step collate s t → Each s.lsm_engines → Each t.lsm_engines
    unfolding heartbeat toggle_node_health toggle_node_partition subscribe unsubscribe notify
        sync_state
    Step-Each {s} {t} (query input command key value r e) h =
        let (shard, there, branch) = execute_query-Branch collate input s command key value r t e in
        Branch-Each input s t command key value r branch h
    Step-Each (beat e) h = rw e h
    Step-Each (health id e) h = rw e h
    Step-Each (partition id e) h = rw e h
    Step-Each {s} (compaction id e) h = rw e (compacted s id h)
    Step-Each {s} (flush id e) h = rw e (flushed s id h)
    Step-Each (listen l e) h = rw e h
    Step-Each (forget l e) h = rw e h

    Reach-Each :
        {s t : ClusterSimulator} → Reach collate s t → Each s.lsm_engines → Each t.lsm_engines
    Reach-Each here h = h
    Reach-Each (next r x) h = Step-Each x (Reach-Each r h)

    module _ (start : BootInput) (new : P empty_engine) where
      load-P :
          (inputs : JsString → ℕ × List Bool) (pairs : List (JsString × JsString))
          (lsm : SimulatedLsmEngine)
          → P lsm
          → P (load collate inputs pairs lsm)
      unfolding load
      load-P inputs [] lsm p = p
      load-P inputs ((key, value) ∷ pairs) lsm p =
          load-P inputs pairs _
            (unfold step in keeps lsm (puts (inputs key).0 (inputs key).1 key value) p)

      boot_engine-P :
          (id : JsString) (pairs : List (JsString × JsString))
          → P (boot_engine collate start id pairs)
      unfolding boot_engine
      boot_engine-P id pairs = load-P (start.writes id) pairs empty_engine new

      pub Reach-Each_start :
          (s : ClusterSimulator) → Reach collate (init_cluster collate start) s → Each s.lsm_engines
      unfolding init_cluster boot_engines
      Reach-Each_start s r = Reach-Each r (
          Each-set _ _ _ (boot_engine-P _ _) (
            Each-set _ _ _ (boot_engine-P _ _) (
              Each-set _ _ _ (boot_engine-P _ _) (
                Each-set _ _ _ (boot_engine-P _ _) (
                  Each-set _ _ _ (boot_engine-P _ _)
                    (Each-set _ _ _ (boot_engine-P _ _) Each-nil))))))

-- In every state that a run leads to from the start of the program, the engine of every node holds
-- at most seven keys in its memtable, each once, at most two tables on level 0, no immutable memtable
-- and only tables that `createSSTable` built, and the window on its log holds at most fifty frames,
-- end to end up to the current offset.
pub Reach-IsValid :
    (collate : JsString → JsString → Ordering) (start : BootInput) (s : ClusterSimulator)
    → Reach collate (init_cluster collate start) s
    → (id : JsString) (lsm : SimulatedLsmEngine) → Dict.get id s.lsm_engines ≡ some lsm
    → IsValid lsm × IsLogged lsm
Reach-IsValid collate start s r =
    Reach-Each_start (λ lsm. IsValid lsm × IsLogged lsm) collate
      (λ lsm call h. (step-IsValid collate lsm call h.0, step-IsLogged collate lsm call h.1)) start
      (unfold run in (run-IsValid collate [], run-IsLogged collate [])) s r
