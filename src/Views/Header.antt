-- ===== src/Views/Header.antt =====
-- The head of the page, src/components/Header.tsx: its counts and the tabs.
use info_crate.Common.{Bool, true, false, List, [], ◌∷◌, length}
use info_crate.Cluster.{ShardState}
use info_crate.Dashboard.{total_nodes, online_nodes, active_leaders}
use info_crate.App.{Tab}
use info_crate.Views.{Item, shows, number, button, str, label}

-- `activeTab === tab`
abbrev pub same_tab : Tab → Tab → Bool
same_tab Tab.console Tab.console = true
same_tab Tab.cluster Tab.cluster = true
same_tab Tab.lsm Tab.lsm = true
same_tab Tab.metrics Tab.metrics = true
same_tab Tab.chaos Tab.chaos = true
same_tab Tab.code Tab.code = true
same_tab a b = false

-- The buttons set the tab.
unfoldable pub header : List ShardState → Tab → List (Item Tab)
header shards active_tab =
    label "InfoCrate"
    ∷ label "v1.21-Go"
    ∷ label "Strict Linearizability"
    ∷ label "Distributed LSM-Tree & Raft Consensus Key-Value Database"
    ∷ label "SHARDS:"
    ∷ shows (number (length shards))
    ∷ label "NODES:"
    ∷ shows (number (online_nodes shards))
    ∷ label "/"
    ∷ shows (number (total_nodes shards))
    ∷ label "LEADERS:"
    ∷ shows (number (active_leaders shards))
    ∷ label "/"
    ∷ shows (number (length shards))
    ∷ button (same_tab active_tab Tab.console) Tab.console (str "1. Query Console" ∷ [])
    ∷ button (same_tab active_tab Tab.cluster) Tab.cluster (str "2. Cluster Topology & Raft" ∷ [])
    ∷ button (same_tab active_tab Tab.lsm) Tab.lsm (str "3. LSM Storage Inspector" ∷ [])
    ∷ button (same_tab active_tab Tab.metrics) Tab.metrics (str "4. Prometheus Telemetry" ∷ [])
    ∷ button (same_tab active_tab Tab.chaos) Tab.chaos (str "5. Chaos & Workloads" ∷ [])
    ∷ button (same_tab active_tab Tab.code) Tab.code (str "6. Go Source & Proto" ∷ [])
    ∷ []
