-- ===== src/Tests/Pages.antt =====
-- Witnesses on the page and its components.
use info_crate.Common.{◌≡◌, refl, true, some, List, []}
use info_crate.Text.{units, unit_compare}
use info_crate.Cluster.Boot.{init_cluster}
use info_crate.Cluster.Control.{toggle_node_health}
use info_crate.Cluster.Election.{heartbeat}
use info_crate.Cluster.Members.{members, Reach-members}
use info_crate.Cluster.Reach.{here, next, health, beat}
use info_crate.App.{Tab, first_app, mount, heard}
use info_crate.App.Current.{IsCurrent, at_mount, stepped, Watched-IsCurrent}
use info_crate.Views.{Item}
use info_crate.Views.ChaosView.{run_workload}
use info_crate.Views.CodeExplorer.{CodeFile, core}
use info_crate.Views.ClusterTopology.{act_topology, switch_health}
use info_crate.Views.Session.{
  Action, Session, Surroundings, set_active_tab, in_topology, in_lab, mounted, first_session, act,
  render, Runs, start, then_, acts,
}
use info_crate.Views.Session.Safe.{Runs-usable}
use info_crate.Tests.Clusters.{boot, asked}

abbrev pub file : CodeFile
file = record {
  name = units "wal.go";
  path = units "pkg/lsm/wal.go";
  language = units "go";
  category = core;
  content = units "package lsm";
}

abbrev around : Surroundings unit_compare
around = record {
  input = asked;
  op = λ i. record { is_read = true; key_number = 3; val_number = 5; now = 92000; query = asked };
  meanwhile = λ i s. heartbeat unit_compare s;
  events = λ i s. next here (beat refl);
}

abbrev pub opened : Session
opened = first_session file [] (init_cluster unit_compare boot)

-- The topology is opened, the first node is killed there, and the inspector is opened.
abbrev visited : Session
visited = record opened { view = mounted file [] Tab.cluster opened.cluster }

abbrev killed : Session
killed = record visited {
  cluster = toggle_node_health unit_compare opened.cluster (units "node-1");
}

killed-Runs : Runs file [] unit_compare opened killed
unfolding act mounted act_topology
killed-Runs =
    then_ (then_ start (acts around (set_active_tab Tab.cluster) refl))
      (acts around (in_topology (switch_health (units "node-1"))) refl)

Runs-usable_example :
    ((items : List (Item Action)) × (render file [] killed ≡ some items))
    × ((t : Session) × (act file [] unit_compare around (in_lab run_workload) killed ≡ some t))
Runs-usable_example =
    Runs-usable file [] unit_compare boot killed killed-Runs around (in_lab run_workload)

Reach-members_example : members killed.cluster.shards ≡ members opened.cluster.shards
Reach-members_example =
    Reach-members unit_compare opened.cluster killed.cluster
      (next here (health (units "node-1") refl))

Watched-IsCurrent_example :
    IsCurrent 7
      (heard 7
        (first_app opened.cluster)
        (mount opened.cluster 7)
        (heartbeat unit_compare (mount opened.cluster 7)))
      (heartbeat unit_compare (mount opened.cluster 7))
Watched-IsCurrent_example =
    Watched-IsCurrent 7 unit_compare opened.cluster
      (heartbeat unit_compare (mount opened.cluster 7))
      (heard 7 (first_app opened.cluster) (mount opened.cluster 7)
        (heartbeat unit_compare (mount opened.cluster 7)))
      (stepped at_mount (beat refl) tt)
