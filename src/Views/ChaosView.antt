-- ===== src/Views/ChaosView.antt =====
-- What src/components/ChaosLab.tsx renders, and what its controls do.
use info_crate.Common.{
  ℕ, true, false, Option, none, some, List, [], ◌∷◌, ◌++◌, if◌then◌else◌, Ordering,
}
use info_crate.Text.{JsString}
use info_crate.Cluster.{ClusterSimulator}
use info_crate.Chaos.{
  ChaosMessage, WorkloadReport, ChaosLab, OpInput, handle_simulate_split_brain,
  handle_heal_partition, handle_kill_leader, handle_recover_all_nodes, handle_run_workload,
}
use info_crate.Views.{Item, shows, number, hundredths, message, button, disabled, str, label, each}

-- The component's state when it is mounted.
abbrev pub first_lab : ChaosLab
first_lab = record {
  is_running_workload = false;
  workload_progress = 0;
  workload_report = none;
  chaos_log = [];
}

pub data ChaosAction : Type 0 where
  simulate_split_brain heal_partition kill_leader recover_all_nodes run_workload clear_log :
      ChaosAction

module _ (collate : JsString → JsString → Ordering) (op : ℕ → OpInput)
    (meanwhile : ℕ → ClusterSimulator → ClusterSimulator) where
  unfoldable pub act_chaos :
      ChaosAction → ChaosLab → ClusterSimulator → Option (ChaosLab × ClusterSimulator)
  act_chaos simulate_split_brain lab s = some (handle_simulate_split_brain collate lab s)
  act_chaos heal_partition lab s = some (handle_heal_partition collate lab s)
  act_chaos kill_leader lab s = some (handle_kill_leader collate lab s)
  act_chaos recover_all_nodes lab s = some (handle_recover_all_nodes collate lab s)
  act_chaos run_workload lab s = handle_run_workload collate op meanwhile lab s
  act_chaos clear_log lab s = some (record lab { chaos_log = [] }, s)

unfoldable pub fault_injection : List (Item ChaosAction)
fault_injection =
    label "Chaos Testing & Distributed Fault Injection Suite"
    ∷ label
        "Verify Raft leader election safety, quorum persistence under network partitions, and strict linearizability."
    ∷ label "JEPSEN-STYLE VERIFICATION"
    ∷ label "Fault Injection Scenarios"
    ∷ label "Simulate distributed network and hardware failure modes"
    ∷ button false simulate_split_brain (
        str "Split-Brain Partition"
        ∷ str "Isolate leader into minority partition. Verify majority elects new leader."
        ∷ [])
    ∷ button false heal_partition (
        str "Heal All Partitions"
        ∷ str "Re-connect network links and verify follower log reconciliation."
        ∷ [])
    ∷ button false kill_leader (
        str "Kill Current Leader"
        ∷ str "Crash leader node abruptly and observe follower election timeout."
        ∷ [])
    ∷ button false recover_all_nodes (
        str "Recover All Nodes"
        ∷ str "Restart crashed nodes and replay WAL binary logs from disk."
        ∷ [])
    ∷ []

-- The button is disabled while a workload runs.
unfoldable pub workload_button : ChaosLab → Item ChaosAction
workload_button lab =
    if lab.is_running_workload
    then disabled (str "Executing Workload (" ∷ number lab.workload_progress ∷ str "%)..." ∷ [])
    else button true run_workload (str "Run 100-Op Distributed Workload" ∷ [])

abbrev pub report_panel : Option WorkloadReport → List (Item ChaosAction)
report_panel none = []
report_panel (some r) =
    label (
      if r.is_linearizable
      then "100% Strict Linearizability"
      else "Quorum rejected during partition")
    ∷ label "Avg Latency: "
    ∷ shows (hundredths r.avg_latency)
    ∷ label "ms"
    ∷ label "Writes: "
    ∷ shows (number r.successful_writes)
    ∷ label "Reads: "
    ∷ shows (number r.successful_reads)
    ∷ label "Failed/Rejected: "
    ∷ shows (number r.failed_ops)
    ∷ []

abbrev pub log_lines : List ChaosMessage → List (Item ChaosAction)
log_lines [] =
    label "No fault events triggered yet. Click a scenario above to test cluster resilience." ∷ []
log_lines (m ∷ chaos_log) = each (λ l. shows (message l) ∷ []) (m ∷ chaos_log)

unfoldable pub chaos_view : ChaosLab → List (Item ChaosAction)
chaos_view lab =
    fault_injection
    ++ label "Automated Workload Generator"
      ∷ label "Concurrent stress test"
      ∷ label "100 Ops Concurrent"
      ∷ workload_button lab
      ∷ report_panel lab.workload_report
    ++ label "Cluster Event Stream"
      ∷ button false clear_log (str "Clear Log" ∷ [])
      ∷ log_lines lab.chaos_log
