-- ===== src/App.antt =====
-- The state of src/App.tsx and its subscription to the cluster.
pub mod Current
use info_crate.Common.{ℕ, Bool, true, false, ◌||◌, ◌==◌, List, [], ◌∷◌, length, drop, if◌then◌else◌}
use info_crate.Cluster.{
  ShardState, QueryResult, ClusterMetrics, ClusterSimulator, subscribe, unsubscribe,
}

pub data Tab : Type 0 where
  console cluster lsm metrics chaos code : Tab

pub record App : Type 0 where
  pub active_tab : Tab
  pub shards : List ShardState
  pub metrics : ClusterMetrics
  pub query_history : List QueryResult

unfoldable pub first_app : ClusterSimulator → App
first_app s = record {
  active_tab = Tab.console;
  shards = s.shards;
  metrics = s.metrics;
  query_history = s.query_history;
}

-- The listener: it copies what the cluster shows.
unfoldable pub refresh : App → ClusterSimulator → App
refresh app s = record app {
  shards = s.shards;
  metrics = s.metrics;
  query_history = s.query_history;
}

-- The effect, which runs once the views are there, and its clean-up.
unfoldable pub mount : ClusterSimulator → ℕ → ClusterSimulator
mount s listener = subscribe s listener

unfoldable pub unmount : ClusterSimulator → ℕ → ClusterSimulator
unmount s listener = unsubscribe s listener

-- The listener is among these.
abbrev pub includes_listener : ℕ → List ℕ → Bool
includes_listener listener [] = false
includes_listener listener (l ∷ listeners) = l == listener || includes_listener listener listeners

-- The page after an operation: its listener runs if the operation called it, which every operation
-- does last of all.
unfoldable pub heard : ℕ → App → ClusterSimulator → ClusterSimulator → App
heard listener app before after =
    if includes_listener listener (drop (length before.notified) after.notified)
    then refresh app after
    else app
