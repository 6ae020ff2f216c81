-- ===== src/Dashboard/Agrees.antt =====
-- What the views show next to what the engine computes: the quorum and the bits of the Bloom test.
use info_crate.Common.{
  ℕ, ◌≡◌, Bool, true, false, Option, some, List, [], ◌∷◌, get_elem?, get_or, if◌then◌else◌,
  Ordering, sym, ◌∙◌, length,
}
use info_crate.Text.{JsString}
use info_crate.SsTable.{SsTableView, bloom_bit, check_bits, check_bloom_filter}
use info_crate.Cluster.{
  Command, get, NodeState, ShardState, QueryResult, ClusterSimulator, find_leader,
  get_shard_for_key, available_nodes,
}
use info_crate.Cluster.Coherence.{UniqueIds}
use info_crate.Cluster.Query.Branch.{
  Branch, lost, reads, few, done, is_write, execute_query-Branch_at,
}
use info_crate.Cluster.Query.{QueryInput, acks_of, quorum_of}
use info_crate.Cluster.Query.Answer.{acks-available}
use info_crate.Cluster.Query.Apply.{execute_query}
use info_crate.Dashboard.{quorum_met, bloom_bit_indices}

-- Every position of the list is a set bit.
abbrev pub all_set : List Bool → List ℕ → Bool
all_set bits [] = true
all_set bits (i ∷ is) = if get_or bits i false then all_set bits is else false

-- A PUT or DELETE whose shard has an available leader and no id twice, if it returns, succeeds
-- exactly if the topology view shows that the shard has its quorum.
pub success-quorum_met :
    (collate : JsString → JsString → Ordering) (input : QueryInput) (s : ClusterSimulator)
    (command : Command) (key : JsString) (value : Option JsString) (shard : ShardState)
    (l : NodeState) (r : QueryResult) (t : ClusterSimulator)
    → is_write command ≡ true
    → get_elem? s.shards (get_shard_for_key s key) ≡ some shard
    → find_leader shard ≡ some l
    → UniqueIds shard.nodes
    → execute_query collate input s command key value ≡ some (r, t)
    → r.success ≡ quorum_met shard
unfolding quorum_met quorum_of
success-quorum_met collate input s command key value shard l r t w here led unique e =
    by_branch (execute_query-Branch_at collate input s command key value r t shard here e)
  where
    acks : acks_of l shard.nodes ≡ length (available_nodes shard.nodes)
    acks = acks-available l shard.nodes shard.leader_id (unfold find_leader in led) unique

    by_branch :
        Branch collate input s command key value (get_shard_for_key s key) shard r t
        → r.success ≡ quorum_met shard
    by_branch (lost steps missing re te) = cc
    by_branch (reads steps l' lsm c led' own re te) =
        let bad : is_write get ≡ true = rw c at w in cc
    by_branch (few steps l' w' led' q re te) =
        let same : l' ≡ l = cc in
        let refused : r.success ≡ false = rw re in refused ∙ sym (rw (same, acks) at q)
    by_branch (done steps l' engines w' led' q applied re te) =
        let same : l' ≡ l = cc in
        let accepted : r.success ≡ true = rw re in accepted ∙ sym (rw (same, acks) at q)

-- On a table of 64 Bloom bits and four hashes, a lookup passes the filter exactly if all the bits
-- are set that the inspector shows for the key.
pub check_bloom_filter-bloom_bit_indices :
    (table : SsTableView) (key : JsString)
    → table.bloom_num_bits ≡ 64
    → table.bloom_num_hash ≡ 4
    → check_bloom_filter table key ≡ all_set table.bloom_bit_array (bloom_bit_indices key)
unfolding check_bloom_filter check_bits bloom_bit_indices bloom_bit
check_bloom_filter-bloom_bit_indices table key bits hashes = rw (bits, hashes)
