-- ===== src/Dashboard.antt =====
-- What the views compute from the cluster's state before they render it: the counts of
-- src/components/Header.tsx and src/components/MetricsDashboard.tsx, the quorum of
-- src/components/ClusterTopology.tsx, and the Bloom test of src/components/LsmInspector.tsx.
pub mod Agrees
pub mod Available
use info_crate.Common.{
  ℕ, ◌+◌, ◌-◌, ◌*◌, ◌/◌, ◌%◌, Bool, true, false, Option, none, some, List, [], ◌∷◌, map, length,
  select, find, ltb, leb, if◌then◌else◌, ◌++◌,
}
use info_crate.Text.{JsString, str_eq}
use info_crate.Hash.{fnv1a64, murmur3_64}
use info_crate.Cluster.{NodeState, ShardState, ClusterMetrics, available_nodes}

-- `list.reduce((acc, x) => acc + f(x), 0)`
abbrev pub sum_of {ℓ} : {A : Type ℓ} → (A → ℕ) → ℕ → List A → ℕ
sum_of f acc [] = acc
sum_of f acc (x ∷ xs) = sum_of f (acc + f x) xs

unfoldable pub total_nodes : List ShardState → ℕ
total_nodes shards = sum_of (λ s. length s.nodes) 0 shards

unfoldable pub online_nodes : List ShardState → ℕ
online_nodes shards = sum_of (λ s. length (available_nodes s.nodes)) 0 shards

abbrev pub has_leader_id : ShardState → Bool
has_leader_id shard = elim shard.leader_id [ none ↦ false | some id ↦ true ]

unfoldable pub active_leaders : List ShardState → ℕ
active_leaders shards = length (select has_leader_id shards)

unfoldable pub total_log_entries : List ShardState → ℕ
total_log_entries shards = sum_of (λ s. sum_of (λ n. length n.log) 0 s.nodes) 0 shards

unfoldable pub total_memtable_keys : List ShardState → ℕ
total_memtable_keys shards = sum_of (λ s. sum_of (λ n. length n.memtable) 0 s.nodes) 0 shards

unfoldable pub total_ss_tables : List ShardState → ℕ
total_ss_tables shards =
    sum_of (λ s. sum_of (λ n. length n.sstables_l0 + length n.sstables_l1) 0 s.nodes) 0 shards

-- A number of tenths of a percent with its sign, rounded to the nearest.
pub data Rate : Type 0 where
  tenths minus_tenths : ℕ → Rate

abbrev pub nearest : ℕ → ℕ → ℕ
nearest part ℕ.zero = 0
nearest part (ℕ.suc whole) = (2000 * part + ℕ.suc whole) / (2 * ℕ.suc whole)

unfoldable pub bloom_fp_rate : ClusterMetrics → Rate
bloom_fp_rate m =
    if ltb 0 m.bloom_checks
    then if leb m.bloom_hits m.bloom_checks
      then tenths (nearest (m.bloom_checks - m.bloom_hits) m.bloom_checks)
      else minus_tenths (nearest (m.bloom_hits - m.bloom_checks) m.bloom_checks)
    else tenths 0

unfoldable pub quorum_met : ShardState → Bool
quorum_met shard =
    let healthy_count = length (available_nodes shard.nodes) in
    leb (length shard.nodes / 2 + 1) healthy_count

unfoldable pub all_nodes : List ShardState → List NodeState
all_nodes [] = []
all_nodes (shard ∷ shards) = shard.nodes ++ all_nodes shards

-- The selected node, or the first of all.
unfoldable pub active_node : List ShardState → JsString → Option NodeState
active_node shards selected_node_id =
    elim (find (λ n. str_eq n.id selected_node_id) (all_nodes shards)) [
      | some n ↦ some n
      | none ↦ elim (all_nodes shards) [ [] ↦ none | n ∷ nodes ↦ some n ]
    ]

unfoldable pub bloom_bit_indices : JsString → List ℕ
bloom_bit_indices bloom_test_key =
    let bloom_h1 = fnv1a64 bloom_test_key % 64 in
    let bloom_h2 = murmur3_64 bloom_test_key % 64 in
    map (λ i. (bloom_h1 + i * bloom_h2) % 64) (0 ∷ 1 ∷ 2 ∷ 3 ∷ [])
