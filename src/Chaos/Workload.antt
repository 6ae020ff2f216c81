-- ===== src/Chaos/Workload.antt =====
-- The benchmark of src/components/ChaosLab.tsx, as a whole.
use info_crate.Common.{
  ℕ, zero, suc, ◌↔◌, ==_iff, ◌+◌, ◌-◌, ◌%◌, ◌==◌, ◌≡◌, refl, arith, Bool, true, false, inl, inr,
  Option, none, some, Ordering, Bool-cases,
}
use info_crate.Text.{JsString}
use info_crate.Cluster.{ClusterSimulator, get, put}
use info_crate.Cluster.Query.Keeps.{IsWhole, Returns}
use info_crate.Cluster.Query.Total.{execute_query-Returns}
use info_crate.Chaos.{
  ChaosLab, OpInput, Tally, WorkloadReport, count_op, show_progress, bench_key, bench_val, run_op,
  awaited, workload_loop, handle_run_workload, report_of, add_chaos_log, finished, zero_tally,
}

abbrev counted : Tally → ℕ
counted t = t.successful_writes + t.successful_reads + t.failed_ops

module _ (collate : JsString → JsString → Ordering) (op : ℕ → OpInput)
    (meanwhile : ℕ → ClusterSimulator → ClusterSimulator)
    (keeps : (i : ℕ) (s : ClusterSimulator) → IsWhole s → IsWhole (meanwhile i s)) where
  counted_one :
      (total i latency : ℕ) (ok is_read : Bool) (t : Tally)
      → counted (show_progress total i (count_op ok is_read latency t)) ≡ counted t + 1
  counted_one total i latency ok is_read t = ground arith

  run_op-Returns :
      (o : OpInput) (s : ClusterSimulator) → IsWhole s → Returns (run_op collate op meanwhile o s)
  unfolding run_op
  run_op-Returns o s w = elim (Bool-cases o.is_read) [
    | inl read ↦ rw read (execute_query-Returns collate o.query s get (bench_key o) none w)
    | inr write ↦
        rw write (execute_query-Returns collate o.query s put (bench_key o) (some (bench_val o)) w)
  ]

  awaited-IsWhole :
      (total i : ℕ) (s : ClusterSimulator)
      → IsWhole s
      → IsWhole (awaited collate op meanwhile total i s)
  unfolding awaited
  awaited-IsWhole total i s w = elim (Bool-cases (i % 10 == 0)) [
    | inl tenth ↦ rw tenth (keeps i s w)
    | inr other ↦ rw other (elim (Bool-cases (i == total - 1)) [
      | inl last ↦ rw last (keeps i s w)
      | inr more ↦ rw more w
    ])
  ]

  abbrev Ends : ℕ → Option (Tally × ClusterSimulator) → Type 0
  Ends n o = (t : Tally) × (s : ClusterSimulator) × (o ≡ some (t, s)) × (counted t ≡ n) × IsWhole s

  workload_loop-Ends :
      (total left : ℕ) (t : Tally) (s : ClusterSimulator)
      → IsWhole s
      → Ends (counted t + left) (workload_loop collate op meanwhile total left t s)
  unfolding workload_loop
  workload_loop-Ends total zero t s w = (t, s, refl, omega arith, w)
  workload_loop-Ends total (suc left) t s w =
      let i = total - suc left in
      let (r, s', ran, w') = run_op-Returns (op i) s w in
      let next = show_progress total i (count_op r.success (op i).is_read r.latency t) in
      let (t₂, s₂, e, n, w₂) =
        workload_loop-Ends total left next (awaited collate op meanwhile total i s')
          (awaited-IsWhole total i s' w') in
      (
        t₂,
        s₂,
        rw (ran, workload_loop) e,
        omega (arith, n, counted_one total i r.latency r.success (op i).is_read t),
        w₂,
      )

  -- The lab after its run: a report whose successes and failures add up to the 100 operations.
  pub record IsReported (o : Option (ChaosLab × ClusterSimulator)) : Type 0 where
    pub after : ChaosLab
    pub state : ClusterSimulator
    pub report : WorkloadReport
    pub returned : o ≡ some (after, state)
    pub reported : after.workload_report ≡ some report
    pub stopped : after.is_running_workload ≡ false
    pub all_counted : report.successful_reads + report.successful_writes + report.failed_ops ≡ 100
    pub linear : (report.is_linearizable ≡ true) ↔ (report.failed_ops ≡ 0)
    pub whole : IsWhole state

  -- From a coherent cluster of at least one shard, and if what happens between the operations keeps
  -- it so, the workload runs to its end without an exception: its report is shown, the run is over,
  -- the successful reads, the successful writes and the failures are 100 in all, strict
  -- linearizability is claimed exactly if none failed, and the cluster is still coherent.
  pub handle_run_workload-IsReported :
      (lab : ChaosLab) (s : ClusterSimulator)
      → IsWhole s
      → IsReported (handle_run_workload collate op meanwhile lab s)
  unfolding handle_run_workload finished add_chaos_log
  handle_run_workload-IsReported lab s w =
      let (t, after, ran, n, whole) = workload_loop-Ends 100 100 zero_tally s w in
      record {
        after = finished collate op meanwhile lab t;
        state = after;
        report = report_of collate op meanwhile 100 t;
        returned = rw (ran, handle_run_workload);
        reported = refl;
        stopped = refl;
        all_counted = omega (arith, n);
        linear = ==_iff t.failed_ops 0;
        whole = whole;
      }
