-- ===== src/Views/Session/Safe.antt =====
-- Sessions on the page, from the start of the program.
use info_crate.Common.{
  ◌≡◌, refl, ap, inl, inr, Option, none, some, List, [], ◌∷◌, ◌++◌, map, find, Ordering, Bool-cases,
  Option-cases,
}
use mathlib.Core.Option
use info_crate.Text.{JsString, str_eq}
use info_crate.Cluster.{NodeState, ShardState, ClusterSimulator}
use info_crate.Cluster.Boot.{BootInput, init_cluster, init_shards, create_node}
use info_crate.Cluster.Members.{members, Reach-members}
use info_crate.Cluster.Query.Keeps.{IsWhole}
use info_crate.Cluster.Reach.{Reach, here, next, Reach-IsWhole, init_cluster-IsWhole}
use info_crate.Dashboard.{all_nodes, active_node}
use info_crate.Views.{Item}
use info_crate.Views.Header.{same_tab}
use info_crate.Views.LsmInspector.{
  LsmSubTab, skiplist, wal, sstables, bloom, compaction, Inspector, InspectorAction,
}
use info_crate.Views.LsmInspector.Panels.{sub_panel, lsm_inspector}
use info_crate.Views.CodeExplorer.{CodeFile}
use info_crate.Views.Session.{
  View, console, topology, inspector, dashboard, lab, explorer, Session, Action, Surroundings, Runs,
  start, then_, Move, acts, event, act, mounted, render, first_session, set_active_tab, in_console,
  in_topology, in_inspector, in_lab, in_explorer, tab_of, view_items,
}
use info_crate.Views.Session.Reached.{
  Reach-trans, act_console-Goes, act_topology-Reach, act_inspector-Reach, act_chaos-Goes,
}

some_ids :
    (nodes : List NodeState) (id : JsString) (ids : List JsString)
    → map (λ n. n.id) nodes ≡ id ∷ ids
    → (n : NodeState) × (rest : List NodeState) × (nodes ≡ n ∷ rest)
some_ids [] id ids e = cc
some_ids (n ∷ nodes) id ids e = (n, nodes, refl)

some_node :
    (shards : List ShardState) (id : JsString) (ids : List JsString) (others : List (List JsString))
    → members shards ≡ (id ∷ ids) ∷ others
    → (n : NodeState) × (rest : List NodeState) × (all_nodes shards ≡ n ∷ rest)
unfolding all_nodes
some_node [] id ids others e = cc
some_node (shard ∷ shards) id ids others e =
    let (n, rest, first) = some_ids shard.nodes id ids cc in
    (n, rest ++ all_nodes shards, ap (λ ns. ns ++ all_nodes shards) first)

-- A cluster with a node has an active one.
some_active :
    (shards : List ShardState) (selected : JsString) (n : NodeState) (rest : List NodeState)
    → all_nodes shards ≡ n ∷ rest
    → (m : NodeState) × (active_node shards selected ≡ some m)
unfolding active_node
some_active shards selected n rest e =
    elim (Option-cases (find (λ m. str_eq m.id selected) (all_nodes shards))) [
      | inl missing ↦ (n, rw (active_node, missing, e))
      | inr (m, found) ↦ (m, rw (active_node, found))
    ]

sub_panel-some :
    (i : Inspector) (active : Option NodeState) (m : NodeState) (tab : LsmSubTab)
    → active ≡ some m
    → (panel : List (Item InspectorAction)) × (sub_panel i active tab ≡ some panel)
unfolding sub_panel
sub_panel-some i none m tab e = cc
sub_panel-some i (some n) m skiplist e = (_, refl)
sub_panel-some i (some n) m wal e = (_, refl)
sub_panel-some i (some n) m sstables e = (_, refl)
sub_panel-some i (some n) m bloom e = (_, refl)
sub_panel-some i (some n) m compaction e = (_, refl)

lsm_inspector-some :
    (shards : List ShardState) (i : Inspector) (n : NodeState) (rest : List NodeState)
    → all_nodes shards ≡ n ∷ rest
    → (items : List (Item InspectorAction)) × (lsm_inspector shards i ≡ some items)
unfolding lsm_inspector
lsm_inspector-some shards i n rest e =
    let (m, found) = some_active shards i.selected_node_id n rest e in
    let (panel, shown) =
      sub_panel-some i (active_node shards i.selected_node_id) m i.lsm_sub_tab found in
    (_, ap (Option.map _) shown)

module _ (first_file : CodeFile) (other_files : List CodeFile) where
  view_items-some :
      (v : View) (s : ClusterSimulator) (n : NodeState) (rest : List NodeState)
      → all_nodes s.shards ≡ n ∷ rest
      → (items : List (Item Action)) × (view_items first_file other_files v s ≡ some items)
  unfolding view_items
  view_items-some (inspector i) s n rest e =
      let (items, shown) = lsm_inspector-some s.shards i n rest e in (_, ap (Option.map _) shown)
  view_items-some (console c) s n rest e = (_, refl)
  view_items-some (topology selected) s n rest e = (_, refl)
  view_items-some dashboard s n rest e = (_, refl)
  view_items-some (lab l) s n rest e = (_, refl)
  view_items-some (explorer x) s n rest e = (_, refl)

module _ (first_file : CodeFile) (other_files : List CodeFile)
    (collate : JsString → JsString → Ordering) where
  -- The action returns, and leads the cluster on.
  abbrev Acts : Surroundings collate → Action → Session → Type 0
  Acts around a s =
      (t : Session) × (act first_file other_files collate around a s ≡ some t)
      × Reach collate s.cluster t.cluster

  act-Acts :
      (around : Surroundings collate) (a : Action) (v : View) (s : ClusterSimulator)
      (clipboard : List JsString)
      → IsWhole s
      → Acts around a (record { view = v; cluster = s; clipboard = clipboard })
  unfolding act
  act-Acts around (set_active_tab tab) v s clipboard w =
      elim (Bool-cases (same_tab (tab_of v) tab)) [
        | inl same ↦ (record { view = v; cluster = s; clipboard = clipboard }, rw same refl, here)
        | inr other ↦ (
          record {
            view = mounted first_file other_files tab s;
            cluster = s;
            clipboard = clipboard;
          },
          rw other refl,
          here,
        )
      ]
  act-Acts around (in_console a) (console c) s clipboard w =
      let (p, e, r) = act_console-Goes collate around.input a c s w in (_, ap (Option.map _) e, r)
  act-Acts around (in_console a) v s clipboard w = (_, refl, here)
  act-Acts around (in_topology a) (topology selected) s clipboard w =
      (_, refl, act_topology-Reach collate a selected s)
  act-Acts around (in_topology a) v s clipboard w = (_, refl, here)
  act-Acts around (in_inspector a) (inspector i) s clipboard w =
      (_, refl, act_inspector-Reach collate a i s)
  act-Acts around (in_inspector a) v s clipboard w = (_, refl, here)
  act-Acts around (in_lab a) (lab l) s clipboard w =
      let (p, e, r) = act_chaos-Goes collate around a l s w in (_, ap (Option.map _) e, r)
  act-Acts around (in_lab a) v s clipboard w = (_, refl, here)
  act-Acts around (in_explorer a) (explorer x) s clipboard w = (_, refl, here)
  act-Acts around (in_explorer a) v s clipboard w = (_, refl, here)

  Move-Reach :
      {s t : Session}
      → Move first_file other_files collate s t
      → IsWhole s.cluster
      → Reach collate s.cluster t.cluster
  Move-Reach {s} {t} (acts around a e) w =
      let (t', e', r) = act-Acts around a s.view s.cluster s.clipboard w in
      let same : t' ≡ t = cc in rw (← same) r
  Move-Reach {s} (event after x e) w = rw e (next here x)

  module _ (boot : BootInput) where
    abbrev opened : Session
    opened = first_session first_file other_files (init_cluster collate boot)

    -- Whatever is clicked, typed and chosen on the page, in any order and with the heartbeat and
    -- other events in between, the cluster under it is one that queries, heartbeats, switches and
    -- subscriptions lead to from the start of the program.
    pub Runs-Reach :
        (s : Session)
        → Runs first_file other_files collate opened s
        → Reach collate (init_cluster collate boot) s.cluster
    Runs-Reach s start = here
    Runs-Reach s (then_ {t} r m) =
        let before = Runs-Reach t r in
        Reach-trans collate before
          (Move-Reach m (Reach-IsWhole collate before (init_cluster-IsWhole collate boot)))

    -- Whatever was done on the page before, the page renders without an exception, whichever tab is
    -- open, and the handler of every action returns without one, the workload's included.
    pub Runs-usable :
        (s : Session)
        → Runs first_file other_files collate opened s
        → (around : Surroundings collate) (a : Action)
        → ((items : List (Item Action)) × (render first_file other_files s ≡ some items))
          × ((t : Session) × (act first_file other_files collate around a s ≡ some t))
    unfolding render init_cluster init_shards create_node
    Runs-usable s r around a =
        let reached = Runs-Reach s r in
        let whole = Reach-IsWhole collate reached (init_cluster-IsWhole collate boot) in
        let (n, rest, first) =
          some_node s.cluster.shards _ _ _ (Reach-members collate _ _ reached) in
        let (items, shown) = view_items-some first_file other_files s.view s.cluster n rest first in
        let (t, e, led) = act-Acts around a s.view s.cluster s.clipboard whole in
        ((_, ap (Option.map _) shown), (t, e))
