-- ===== src/Chaos.antt =====
-- The chaos lab, src/components/ChaosLab.tsx: its handlers, on the lab's own state and the cluster.
-- A line of the log is the value of its text, without the time in front.
pub mod Workload
pub mod Switches
pub mod Healed
use info_crate.Common.{
  ℕ, ◌+◌, ◌-◌, ◌*◌, ◌/◌, ◌%◌, Bool, true, false, ◌&&◌, not, Option, none, some, List, [], ◌∷◌, ◌++◌,
  take, find, get_elem?, ◌==◌, if◌then◌else◌, Ordering,
}
use info_crate.Text.{JsString, units, str_eq}
use info_crate.Text.Format.{to_string}
use info_crate.Cluster.{Command, put, get, NodeState, ShardState, QueryResult, ClusterSimulator}
use info_crate.Cluster.Control.{toggle_node_health, toggle_node_partition}
use info_crate.Cluster.Query.{QueryInput}
use info_crate.Cluster.Query.Apply.{execute_query}
use info_crate.Dashboard.{all_nodes}

pub data ChaosMessage : Type 0 where
  isolating isolated majority_elects healing healed election_triggered recovering recovered
        starting_workload :
      ChaosMessage
  killing : JsString → ChaosMessage
  workload_complete : ℕ → ℕ → ChaosMessage

-- `avg_latency` is in hundredths of a millisecond, rounded to the nearest.
pub record WorkloadReport : Type 0 where
  pub total_ops : ℕ
  pub successful_reads : ℕ
  pub successful_writes : ℕ
  pub failed_ops : ℕ
  pub avg_latency : ℕ
  pub is_linearizable : Bool

pub record ChaosLab : Type 0 where
  pub is_running_workload : Bool
  pub workload_progress : ℕ
  pub workload_report : Option WorkloadReport
  pub chaos_log : List ChaosMessage

unfoldable pub add_chaos_log : ChaosMessage → ChaosLab → ChaosLab
add_chaos_log msg lab = record lab { chaos_log = msg ∷ take 40 lab.chaos_log }

-- `shards[0]`, and its leader if it names one.
abbrev pub first_leader : Option ShardState → Option JsString
first_leader none = none
first_leader (some shard) = elim shard.leader_id [
  | none ↦ none
  | some id ↦ elim id [ [] ↦ none | c ∷ cs ↦ some (c ∷ cs) ]
]

module _ (collate : JsString → JsString → Ordering) where
  unfoldable pub handle_simulate_split_brain :
      ChaosLab → ClusterSimulator → ChaosLab × ClusterSimulator
  handle_simulate_split_brain lab s = (
    add_chaos_log majority_elects (add_chaos_log isolated (add_chaos_log isolating lab)),
    toggle_node_partition collate s (units "node-1"),
  )

  -- The loop over the nodes: a node of the list is the cluster's own, so its switch is read from the
  -- state of the moment, where it is the node with its id.
  unfoldable pub switch_nodes :
      (NodeState → Bool)
      → (ClusterSimulator → JsString → ClusterSimulator)
      → List NodeState
      → ClusterSimulator
      → ClusterSimulator
  switch_nodes is_down toggle [] s = s
  switch_nodes is_down toggle (node ∷ nodes) s =
      switch_nodes is_down toggle nodes
        (elim (find (λ n. str_eq n.id node.id) (all_nodes s.shards)) [
          | none ↦ s
          | some n ↦ if is_down n then toggle s node.id else s
        ])

  unfoldable pub handle_heal_partition : ChaosLab → ClusterSimulator → ChaosLab × ClusterSimulator
  handle_heal_partition lab s = (
    add_chaos_log healed (add_chaos_log healing lab),
    switch_nodes (λ n. n.is_partitioned) (toggle_node_partition collate) (all_nodes s.shards) s,
  )

  unfoldable pub handle_kill_leader : ChaosLab → ClusterSimulator → ChaosLab × ClusterSimulator
  handle_kill_leader lab s = elim (first_leader (get_elem? s.shards 0)) [
    | none ↦ (lab, s)
    | some leader_id ↦ (
      add_chaos_log election_triggered (add_chaos_log (killing leader_id) lab),
      toggle_node_health collate s leader_id,
    )
  ]

  unfoldable pub handle_recover_all_nodes :
      ChaosLab → ClusterSimulator → ChaosLab × ClusterSimulator
  handle_recover_all_nodes lab s = (
    add_chaos_log recovered (add_chaos_log recovering lab),
    switch_nodes (λ n. not n.is_healthy) (toggle_node_health collate) (all_nodes s.shards) s,
  )

-- One operation's random choices and time, and the platform's part of its query.
pub record OpInput : Type 0 where
  pub is_read : Bool
  pub key_number : ℕ
  pub val_number : ℕ
  pub now : ℕ
  pub query : QueryInput

pub record Tally : Type 0 where
  pub successful_writes : ℕ
  pub successful_reads : ℕ
  pub failed_ops : ℕ
  pub total_latency : ℕ
  pub progress : ℕ

abbrev pub zero_tally : Tally
zero_tally = record {
  successful_writes = 0;
  successful_reads = 0;
  failed_ops = 0;
  total_latency = 0;
  progress = 0;
}

abbrev pub bench_key : OpInput → JsString
bench_key op = units "bench:key_" ++ to_string 10 op.key_number

abbrev pub bench_val : OpInput → JsString
bench_val op =
    units "{\"val\": "
    ++ (to_string 10 op.val_number ++ (units ", \"ts\": " ++ (to_string 10 op.now ++ units "}")))

abbrev pub count_op : Bool → Bool → ℕ → Tally → Tally
count_op true true latency t = record t {
  successful_reads = t.successful_reads + 1;
  total_latency = t.total_latency + latency;
}
count_op true false latency t = record t {
  successful_writes = t.successful_writes + 1;
  total_latency = t.total_latency + latency;
}
count_op false is_read latency t = record t {
  failed_ops = t.failed_ops + 1;
  total_latency = t.total_latency + latency;
}

-- `Math.round(((i + 1) / total) * 100)` after every tenth operation and the last one.
abbrev pub show_progress : ℕ → ℕ → Tally → Tally
show_progress total i t =
    if i % 10 == 0
    then record t { progress = (200 * (i + 1) + 100) / 200 }
    else if i == total - 1
    then record t { progress = (200 * (i + 1) + 100) / 200 }
    else t

-- The loop awaits a timer after every tenth operation: `meanwhile` is what the program's other
-- events do to the cluster then.
module _ (collate : JsString → JsString → Ordering) (op : ℕ → OpInput)
    (meanwhile : ℕ → ClusterSimulator → ClusterSimulator) where
  unfoldable pub run_op : OpInput → ClusterSimulator → Option (QueryResult × ClusterSimulator)
  run_op o s =
      if o.is_read
      then execute_query collate o.query s get (bench_key o) none
      else execute_query collate o.query s put (bench_key o) (some (bench_val o))

  unfoldable pub awaited : ℕ → ℕ → ClusterSimulator → ClusterSimulator
  awaited total i s =
      if i % 10 == 0 then meanwhile i s else if i == total - 1 then meanwhile i s else s

  -- `left` operations of `total` are to be run.
  unfoldable pub workload_loop :
      ℕ → ℕ → Tally → ClusterSimulator → Option (Tally × ClusterSimulator)
  workload_loop total ℕ.zero t s = some (t, s)
  workload_loop total (ℕ.suc left) t s =
      let i = total - ℕ.suc left in
      elim (run_op (op i) s) [
        | none ↦ none
        | some (res, after) ↦
            workload_loop total left
              (show_progress total i (count_op res.success (op i).is_read res.latency t))
              (awaited total i after)
      ]

  abbrev pub report_of : ℕ → Tally → WorkloadReport
  report_of total t = record {
    total_ops = total;
    successful_reads = t.successful_reads;
    successful_writes = t.successful_writes;
    failed_ops = t.failed_ops;
    avg_latency = (2 * t.total_latency + 100) / 200;
    is_linearizable = t.failed_ops == 0;
  }

  -- The lab after the loop: the report is shown, and the run is over.
  unfoldable pub finished : ChaosLab → Tally → ChaosLab
  finished lab t =
      add_chaos_log (workload_complete t.successful_writes t.successful_reads)
        (record (add_chaos_log starting_workload lab) {
          is_running_workload = false;
          workload_progress = t.progress;
          workload_report = some (report_of 100 t);
        })

  unfoldable pub handle_run_workload :
      ChaosLab → ClusterSimulator → Option (ChaosLab × ClusterSimulator)
  handle_run_workload lab s = elim (workload_loop 100 100 zero_tally s) [
    | none ↦ none
    | some (t, after) ↦ some (finished lab t, after)
  ]
