-- ===== src/Views/MetricsDashboard.antt =====
-- What src/components/MetricsDashboard.tsx renders. It has no controls.
use info_crate.Common.{ℕ, ◌+◌, List, [], ◌∷◌, ◌++◌}
use Prim.Native.String.{String}
use info_crate.Cluster.{ShardState, ClusterMetrics}
use info_crate.Dashboard.{
  total_nodes, total_log_entries, total_memtable_keys, total_ss_tables, bloom_fp_rate,
}
use info_crate.Views.{Item, shows, number, hundredths, seconds, rate, label}

-- No action: the component offers none.
pub data NoAction : Type 0 where

unfoldable pub stats_cards : ClusterMetrics → List (Item NoAction)
stats_cards metrics =
    label "Total Writes (PUT/DEL)"
    ∷ shows (number (metrics.total_writes + metrics.total_deletes))
    ∷ label "ops"
    ∷ label "PUT: "
    ∷ shows (number metrics.total_writes)
    ∷ label " • DEL: "
    ∷ shows (number metrics.total_deletes)
    ∷ label "Total Reads (GET)"
    ∷ shows (number metrics.total_reads)
    ∷ label "queries"
    ∷ label "LSM Hit Rate: 100%"
    ∷ label "Commit Latency (P99)"
    ∷ shows (hundredths metrics.p99_latency)
    ∷ label "ms"
    ∷ label "Avg: "
    ∷ shows (hundredths metrics.avg_latency)
    ∷ label " ms"
    ∷ label "Bloom Avoided Seeks"
    ∷ shows (number metrics.bloom_checks)
    ∷ label "checks"
    ∷ label "Hits: "
    ∷ shows (number metrics.bloom_hits)
    ∷ label " • FP Rate: "
    ∷ shows (rate (bloom_fp_rate metrics))
    ∷ label "%"
    ∷ []

-- A row of the table: the metric's name and type, its value and its description.
abbrev pub metric_row : String → String → List (Item NoAction) → String → List (Item NoAction)
metric_row name type value description = label name ∷ label type ∷ value ++ label description ∷ []

abbrev pub one : ℕ → List (Item NoAction)
one n = shows (number n) ∷ []

unfoldable pub metrics_table : ClusterMetrics → List ShardState → List (Item NoAction)
metrics_table metrics shards =
    metric_row "infocrate_writes_total" "Counter"
      (one (metrics.total_writes + metrics.total_deletes))
      "Total PUT & DELETE operations replicated."
    ++ metric_row "infocrate_reads_total" "Counter" (one metrics.total_reads)
        "Total GET requests processed."
    ++ metric_row "infocrate_write_latency_seconds" "Histogram"
        (shows (seconds metrics.avg_latency) ∷ label "s" ∷ [])
        "Write latency from proposal to WAL fsync."
    ++ metric_row "infocrate_raft_commit_index" "Gauge" (one (total_log_entries shards))
        "Highest committed Raft log entry across nodes."
    ++ metric_row "infocrate_lsm_memtable_entries" "Gauge" (one (total_memtable_keys shards))
        "Items active in Skip List memtables."
    ++ metric_row "infocrate_lsm_sstable_count" "GaugeVec" (one (total_ss_tables shards))
        "Active SSTable files across Level 0 and Level 1."
    ++ metric_row "infocrate_bloom_filter_checks_total" "Counter" (one metrics.bloom_checks)
        "Total Bloom filter evaluations."
    ++ metric_row "infocrate_compaction_duration_seconds" "Histogram"
        (shows (number metrics.compactions) ∷ label " runs" ∷ [])
        "Runtime count of completed L0 → L1 compactions."

unfoldable pub metrics_dashboard : ClusterMetrics → List ShardState → List (Item NoAction)
metrics_dashboard metrics shards =
    label "Prometheus Telemetry & Observability"
      ∷ label "Real-time metrics scraped from HTTP :9091-:9096 /metrics endpoints across all "
      ∷ shows (number (total_nodes shards))
      ∷ label " Raft nodes."
      ∷ label "SCRAPE INTERVAL: 1.0s"
      ∷ stats_cards metrics
    ++ label "Prometheus Metric Collectors Registry"
      ∷ label "Format: OpenMetrics / Prometheus Text 0.0.4"
      ∷ label "Metric Name"
      ∷ label "Type"
      ∷ label "Current Value"
      ∷ label "Description"
      ∷ metrics_table metrics shards
