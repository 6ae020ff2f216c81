-- ===== src/Views/Session.antt =====
-- The whole page of src/App.tsx: the component of the active tab with its own state, over one cluster.
-- A component is mounted when its tab is opened, and loses its state when it is left. Every operation
-- of the cluster that changes it ends with a call of its listeners, so the page shows the cluster's
-- state of the moment.
pub mod Reached
pub mod Safe
use info_crate.Common.{
  ℕ, ◌≡◌, Bool, true, false, Option, none, some, List, [], ◌∷◌, ◌++◌, map, if◌then◌else◌, Ordering,
}
use mathlib.Core.Option
use info_crate.Text.{JsString}
use info_crate.Cluster.{ShardState, QueryResult, ClusterSimulator}
use info_crate.Cluster.Query.{QueryInput}
use info_crate.Cluster.Reach.{Step, Reach}
use info_crate.Console.{Console}
use info_crate.Chaos.{ChaosLab, OpInput}
use info_crate.App.{Tab}
use info_crate.Views.{Item, shows, button, disabled, field, choice, label}
use info_crate.Views.Header.{same_tab, header}
use info_crate.Views.QueryConsole.{ConsoleAction, first_console, act_console, query_console}
use info_crate.Views.ClusterTopology.{
  TopologyAction, first_selected, act_topology, cluster_topology,
}
use info_crate.Views.LsmInspector.{Inspector, first_inspector, InspectorAction, act_inspector}
use info_crate.Views.LsmInspector.Panels.{lsm_inspector}
use info_crate.Views.MetricsDashboard.{NoAction, metrics_dashboard}
use info_crate.Views.ChaosView.{ChaosAction, first_lab, act_chaos, chaos_view}
use info_crate.Views.CodeExplorer.{
  CodeFile, Explorer, ExplorerAction, act_explorer, first_explorer, code_explorer,
}

-- The component of the active tab.
pub data View : Type 0 where
  console : Console → View
  topology : Option JsString → View
  inspector : Inspector → View
  dashboard : View
  lab : ChaosLab → View
  explorer : Explorer → View

pub record Session : Type 0 where
  pub view : View
  pub cluster : ClusterSimulator
  pub clipboard : List JsString

abbrev pub tab_of : View → Tab
tab_of (console c) = Tab.console
tab_of (topology selected) = Tab.cluster
tab_of (inspector i) = Tab.lsm
tab_of dashboard = Tab.metrics
tab_of (lab l) = Tab.chaos
tab_of (explorer e) = Tab.code

pub data Action : Type 0 where
  set_active_tab : Tab → Action
  in_console : ConsoleAction → Action
  in_topology : TopologyAction → Action
  in_inspector : InspectorAction → Action
  in_lab : ChaosAction → Action
  in_explorer : ExplorerAction → Action

-- An item of a component, among those of the page.
unfoldable pub lift : {A B : Type 0} → (A → B) → Item A → Item B
lift f (shows what) = shows what
lift f (button chosen click what) = button chosen (f click) what
lift f (disabled what) = disabled what
lift f (field value change) = field value (λ v. f (change v))
lift f (choice value options change) = choice value options (λ v. f (change v))

abbrev pub unreachable : NoAction → Action
unreachable = elim [ ]

-- What the page's actions use besides its state: the platform's part of a query and of the
-- workload's operations, and what happens to the cluster while the workload waits.
pub record Surroundings (collate : JsString → JsString → Ordering) : Type 0 where
  pub input : QueryInput
  pub op : ℕ → OpInput
  pub meanwhile : ℕ → ClusterSimulator → ClusterSimulator
  pub events : (i : ℕ) (s : ClusterSimulator) → Reach collate s (meanwhile i s)

module _ (first_file : CodeFile) (other_files : List CodeFile) where
  unfoldable pub mounted : Tab → ClusterSimulator → View
  mounted Tab.console s = console (first_console s.query_history)
  mounted Tab.cluster s = topology (first_selected s.shards)
  mounted Tab.lsm s = inspector first_inspector
  mounted Tab.metrics s = dashboard
  mounted Tab.chaos s = lab first_lab
  mounted Tab.code s = explorer (first_explorer first_file other_files)

  abbrev pub first_session : ClusterSimulator → Session
  first_session s = record {
    view = console (first_console s.query_history);
    cluster = s;
    clipboard = [];
  }

  unfoldable pub view_items : View → ClusterSimulator → Option (List (Item Action))
  view_items (console c) s = some (map (lift in_console) (query_console s.shards s.query_history c))
  view_items (topology selected) s =
      some (map (lift in_topology) (cluster_topology s.shards selected))
  view_items (inspector i) s = Option.map (map (lift in_inspector)) (lsm_inspector s.shards i)
  view_items dashboard s = some (map (lift unreachable) (metrics_dashboard s.metrics s.shards))
  view_items (lab l) s = some (map (lift in_lab) (chaos_view l))
  view_items (explorer e) s = some (map (lift in_explorer) (code_explorer first_file other_files e))

  unfoldable pub footer : List (Item Action)
  footer =
      label "InfoCrate"
      ∷ label "• Distributed Consensus & LSM Database Engine"
      ∷ label "• Strict Linearizability"
      ∷ label "Go 1.21+ • gRPC Proto3 • Prometheus Telemetry"
      ∷ []

  -- The page: `none` where a component throws while it renders.
  unfoldable pub render : Session → Option (List (Item Action))
  render session =
      Option.map
        (λ items.
          map (lift set_active_tab) (header session.cluster.shards (tab_of session.view))
          ++ items
          ++ footer)
        (view_items session.view session.cluster)

  -- A session with what a handler made of its component and of the cluster.
  abbrev pub with_view : {A : Type 0} → (A → View) → List JsString → A × ClusterSimulator → Session
  with_view f clipboard (a, s) = record { view = f a; cluster = s; clipboard = clipboard }

  module _ (collate : JsString → JsString → Ordering) (around : Surroundings collate) where
    -- What an action does: `none` where its handler throws. An action of a component that is not
    -- mounted has no effect.
    unfoldable pub act : Action → Session → Option Session
    act (set_active_tab tab) session = some (
        if same_tab (tab_of session.view) tab
        then session
        else record session { view = mounted tab session.cluster })
    act (in_console a) session = elim session.view [
      | console c ↦
          Option.map (with_view console session.clipboard)
            (act_console collate around.input a c session.cluster)
      | _ ↦ some session
    ]
    act (in_topology a) session = elim session.view [
      | topology selected ↦
          some
            (with_view topology session.clipboard (act_topology collate a selected session.cluster))
      | _ ↦ some session
    ]
    act (in_inspector a) session = elim session.view [
      | inspector i ↦
          some (with_view inspector session.clipboard (act_inspector collate a i session.cluster))
      | _ ↦ some session
    ]
    act (in_lab a) session = elim session.view [
      | lab l ↦
          Option.map (with_view lab session.clipboard)
            (act_chaos collate around.op around.meanwhile a l session.cluster)
      | _ ↦ some session
    ]
    act (in_explorer a) session = elim session.view [
      | explorer e ↦
          let (after, clipboard) = act_explorer a e session.clipboard in
          some (record session { view = explorer after; clipboard = clipboard })
      | _ ↦ some session
    ]

  -- An action of the page, or an event of the cluster.
  pub data Move (collate : JsString → JsString → Ordering) (s : Session) (t : Session)
      : Type 0 where
    acts :
        (around : Surroundings collate) (a : Action)
        → act collate around a s ≡ some t
        → Move collate s t
    event :
        (after : ClusterSimulator)
        → Step collate s.cluster after
        → t ≡ record s { cluster = after }
        → Move collate s t

  pub data Runs (collate : JsString → JsString → Ordering) (s : Session) : Session → Type 0 where
    start : Runs collate s s
    then_ : {t u : Session} → Runs collate s t → Move collate t u → Runs collate s u
