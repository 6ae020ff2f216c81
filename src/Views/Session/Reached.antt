-- ===== src/Views/Session/Reached.antt =====
-- What the actions of the page do to the cluster under it, step by step.
use info_crate.Common.{
  ℕ, zero, suc, ◌-◌, ◌%◌, ◌==◌, ◌≡◌, refl, Bool, inl, inr, Option, none, some, List, [], ◌∷◌, find,
  get_elem?, if◌then◌else◌, Ordering, Bool-cases, Option-cases,
}
use info_crate.Text.{JsString, str_eq, trim}
use info_crate.Cluster.{get, put, NodeState, ClusterSimulator}
use info_crate.Cluster.Query.{QueryInput}
use info_crate.Cluster.Query.Keeps.{IsWhole}
use info_crate.Cluster.Query.Total.{execute_query-Returns}
use info_crate.Cluster.Reach.{
  Reach, here, next, query, health, partition, compaction, flush, Reach-IsWhole,
}
use info_crate.Console.{Console, submit, handle_execute, sent_value}
use info_crate.Chaos.{
  count_op, show_progress, zero_tally, finished, ChaosLab, OpInput, Tally, bench_key, bench_val,
  run_op, awaited, workload_loop, handle_run_workload, switch_nodes, first_leader,
  handle_heal_partition, handle_recover_all_nodes, handle_kill_leader, handle_simulate_split_brain,
}
use info_crate.Dashboard.{all_nodes}
use info_crate.Views.Session.{Surroundings}
use info_crate.Views.QueryConsole.{ConsoleAction, act_console}
use info_crate.Views.QueryConsole
use info_crate.Views.ClusterTopology
use info_crate.Views.ClusterTopology.{TopologyAction, act_topology}
use info_crate.Views.LsmInspector
use info_crate.Views.LsmInspector.{Inspector, InspectorAction, act_inspector}
use info_crate.Views.ChaosView
use info_crate.Views.ChaosView.{ChaosAction, act_chaos}

module _ (collate : JsString → JsString → Ordering) where
  pub Reach-trans :
      {s t u : ClusterSimulator} → Reach collate s t → Reach collate t u → Reach collate s u
  Reach-trans r here = r
  Reach-trans r (next q x) = next (Reach-trans r q) x

  -- A handler that returns, and leads the cluster on.
  abbrev Goes : {A : Type 0} → ClusterSimulator → Option (A × ClusterSimulator) → Type 0
  Goes {A} s o = (p : A × ClusterSimulator) × (o ≡ some p) × Reach collate s p.1

  pub act_console-Goes :
      (input : QueryInput) (a : ConsoleAction) (c : Console) (s : ClusterSimulator)
      → IsWhole s
      → Goes s (act_console collate input a c s)
  unfolding act_console handle_execute submit
  act_console-Goes input (QueryConsole.set_command command) c s w = (_, refl, here)
  act_console-Goes input (QueryConsole.set_key key) c s w = (_, refl, here)
  act_console-Goes input (QueryConsole.set_value value) c s w = (_, refl, here)
  act_console-Goes input QueryConsole.execute c s w = sent (trim c.key)
    where
      sent : (key : JsString) → Goes s (submit collate input c s key)
      sent [] = (_, refl, here)
      sent (k ∷ key) =
          let (r, t, e, v) =
            execute_query-Returns collate input s c.command (k ∷ key) (sent_value c.command c.value)
              w in
          (
            (record c { active_result = some r }, t),
            rw (e, submit),
            next here (query input c.command (k ∷ key) (sent_value c.command c.value) r e),
          )
  act_console-Goes input (QueryConsole.load command key sample) c s w = (_, refl, here)
  act_console-Goes input (QueryConsole.set_active_result q) c s w = (_, refl, here)

  pub act_topology-Reach :
      (a : TopologyAction) (selected : Option JsString) (s : ClusterSimulator)
      → Reach collate s (act_topology collate a selected s).1
  unfolding act_topology
  act_topology-Reach (ClusterTopology.set_selected_node id) selected s = here
  act_topology-Reach (ClusterTopology.switch_health id) selected s = next here (health id refl)
  act_topology-Reach (ClusterTopology.switch_partition id) selected s =
      next here (partition id refl)
  act_topology-Reach (ClusterTopology.flush id) selected s = next here (flush id refl)
  act_topology-Reach (ClusterTopology.compact id) selected s = next here (compaction id refl)

  pub act_inspector-Reach :
      (a : InspectorAction) (i : Inspector) (s : ClusterSimulator)
      → Reach collate s (act_inspector collate a i s).1
  unfolding act_inspector
  act_inspector-Reach (LsmInspector.set_selected_node_id id) i s = here
  act_inspector-Reach (LsmInspector.set_lsm_sub_tab tab) i s = here
  act_inspector-Reach (LsmInspector.set_bloom_test_key key) i s = here
  act_inspector-Reach (LsmInspector.flush_node id) i s = next here (flush id refl)
  act_inspector-Reach (LsmInspector.compact_node id) i s = next here (compaction id refl)

  switch_nodes-Reach :
      (is_down : NodeState → Bool) (toggle : ClusterSimulator → JsString → ClusterSimulator)
      → ((s : ClusterSimulator) (id : JsString) → Reach collate s (toggle s id))
      → (nodes : List NodeState) (s : ClusterSimulator)
      → Reach collate s (switch_nodes collate is_down toggle nodes s)
  unfolding switch_nodes
  switch_nodes-Reach is_down toggle toggles [] s = here
  switch_nodes-Reach is_down toggle toggles (n ∷ nodes) s =
      Reach-trans turned (switch_nodes-Reach is_down toggle toggles nodes _)
    where
      turned : Reach collate s (elim (find (λ m. str_eq m.id n.id) (all_nodes s.shards)) [
        | none ↦ s
        | some m ↦ if is_down m then toggle s n.id else s
      ])
      turned = elim (Option-cases (find (λ m. str_eq m.id n.id) (all_nodes s.shards))) [
        | inl missing ↦ rw missing here
        | inr (m, found) ↦ rw found (elim (Bool-cases (is_down m)) [
          | inl down ↦ rw down (toggles s n.id)
          | inr up ↦ rw up here
        ])
      ]

  handle_kill_leader-Reach :
      (l : ChaosLab) (s : ClusterSimulator) → Reach collate s (handle_kill_leader collate l s).1
  unfolding handle_kill_leader
  handle_kill_leader-Reach l s = elim (Option-cases (first_leader (get_elem? s.shards 0))) [
    | inl leaderless ↦ rw (leaderless, handle_kill_leader) here
    | inr (id, led) ↦ rw (led, handle_kill_leader) (next here (health id refl))
  ]

  module _ (around : Surroundings collate) where
    run_op-Goes :
        (o : OpInput) (s : ClusterSimulator)
        → IsWhole s
        → Goes s (run_op collate around.op around.meanwhile o s)
    unfolding run_op
    run_op-Goes o s w = elim (Bool-cases o.is_read) [
      | inl read ↦
          let (r, t, e, v) = execute_query-Returns collate o.query s get (bench_key o) none w in
          ((r, t), rw read e, next here (query o.query get (bench_key o) none r e))
      | inr write ↦
          let (r, t, e, v) =
            execute_query-Returns collate o.query s put (bench_key o) (some (bench_val o)) w in
          ((r, t), rw write e, next here (query o.query put (bench_key o) (some (bench_val o)) r e))
    ]

    awaited-Reach :
        (total i : ℕ) (s : ClusterSimulator)
        → Reach collate s (awaited collate around.op around.meanwhile total i s)
    unfolding awaited
    awaited-Reach total i s = elim (Bool-cases (i % 10 == 0)) [
      | inl tenth ↦ rw tenth (around.events i s)
      | inr other ↦ rw other (elim (Bool-cases (i == total - 1)) [
        | inl last ↦ rw last (around.events i s)
        | inr more ↦ rw more here
      ])
    ]

    workload_loop-Goes :
        (total left : ℕ) (t : Tally) (s : ClusterSimulator)
        → IsWhole s
        → Goes s (workload_loop collate around.op around.meanwhile total left t s)
    unfolding workload_loop
    workload_loop-Goes total zero t s w = (_, refl, here)
    workload_loop-Goes total (suc left) t s w =
        let i = total - suc left in
        let ((r, after), ran, one) = run_op-Goes (around.op i) s w in
        let led = Reach-trans one (awaited-Reach total i after) in
        let (p, e, rest) =
          workload_loop-Goes total left
            (show_progress total i (count_op r.success (around.op i).is_read r.latency t))
            (awaited collate around.op around.meanwhile total i after)
            (Reach-IsWhole collate led w) in
        (p, rw (ran, workload_loop) e, Reach-trans led rest)

    handle_run_workload-Goes :
        (l : ChaosLab) (s : ClusterSimulator)
        → IsWhole s
        → Goes s (handle_run_workload collate around.op around.meanwhile l s)
    unfolding handle_run_workload
    handle_run_workload-Goes l s w =
        let ((t, after), e, r) = workload_loop-Goes 100 100 zero_tally s w in
        (
          (finished collate around.op around.meanwhile l t, after),
          rw (e, handle_run_workload) refl,
          r,
        )

    pub act_chaos-Goes :
        (a : ChaosAction) (l : ChaosLab) (s : ClusterSimulator)
        → IsWhole s
        → Goes s (act_chaos collate around.op around.meanwhile a l s)
    unfolding act_chaos handle_simulate_split_brain handle_heal_partition handle_recover_all_nodes
    act_chaos-Goes ChaosView.simulate_split_brain l s w = (_, refl, next here (partition _ refl))
    act_chaos-Goes ChaosView.heal_partition l s w =
        (_, refl, switch_nodes-Reach _ _ (λ t id. next here (partition id refl)) _ s)
    act_chaos-Goes ChaosView.kill_leader l s w = (_, refl, handle_kill_leader-Reach l s)
    act_chaos-Goes ChaosView.recover_all_nodes l s w =
        (_, refl, switch_nodes-Reach _ _ (λ t id. next here (health id refl)) _ s)
    act_chaos-Goes ChaosView.run_workload l s w = handle_run_workload-Goes l s w
    act_chaos-Goes ChaosView.clear_log l s w = (_, refl, here)
