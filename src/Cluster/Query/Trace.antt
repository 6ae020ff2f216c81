-- ===== src/Cluster/Query/Trace.antt =====
-- The shape of the result of a query, and of the trace of its steps.
use info_crate.Common.{
  ℕ, ◌≡◌, refl, Bool, true, false, ◌&&◌, not, Option, none, some, List, [], ◌∷◌, map, map-append,
  ◌∙◌, Ordering,
}
use info_crate.Text.{JsString}
use info_crate.Cluster.{
  Command, get, put, delete, ShardState, QueryError, cluster_unavailable, raft_quorum_failure,
  QueryResult, ClusterSimulator, get_shard_for_key,
}
use info_crate.Cluster.Query.{QueryInput, refuse, read_from}
use info_crate.Cluster.Query.Apply.{execute_query}
use info_crate.Cluster.Query.Branch.{Branch, lost, reads, few, done, is_write, execute_query-Branch}

abbrev pub is_given : {A : Type 0} → Option A → Bool
is_given none = false
is_given (some x) = true

-- The numbers of the steps of a query that ends in the way that its error tells.
abbrev pub stages : Command → Option QueryError → List ℕ
stages command (some cluster_unavailable) = 1 ∷ 2 ∷ []
stages command (some raft_quorum_failure) = 1 ∷ 2 ∷ 3 ∷ 4 ∷ []
stages get none = 1 ∷ 2 ∷ 3 ∷ []
stages put none = 1 ∷ 2 ∷ 3 ∷ 4 ∷ 5 ∷ []
stages delete none = 1 ∷ 2 ∷ 3 ∷ 4 ∷ 5 ∷ []

-- The steps are numbered from 1 without a gap: two where the shard has no leader, three for a GET,
-- four for a write without quorum, five for one that is applied. An error is given exactly if the
-- query did not succeed, and `found` exactly for a GET that did. A write without quorum is a write.
pub record IsWellFormed (index : ℕ) (command : Command) (key : JsString) (r : QueryResult)
    : Type 0 where
  pub numbered : map (λ x. x.step_number) r.steps ≡ stages command r.error
  pub failed : is_given r.error ≡ not r.success
  pub told : is_given r.found ≡ r.success && not (is_write command)
  pub same_command : r.command ≡ command
  pub same_key : r.key ≡ key
  pub same_shard : r.shard_index ≡ index
  pub led : r.target_node_id ≡ r.leader_id

-- Every query that returns has a well-formed result: its steps are numbered from 1 without a gap, as
-- many as its outcome has; it has an error exactly if it does not succeed; it tells whether the key
-- was found exactly if it is a GET that succeeds; and it names the query's command and key and the
-- shard of the key.
pub execute_query-IsWellFormed :
    (collate : JsString → JsString → Ordering) (input : QueryInput) (s : ClusterSimulator)
    (command : Command) (key : JsString) (value : Option JsString) (r : QueryResult)
    (t : ClusterSimulator)
    → execute_query collate input s command key value ≡ some (r, t)
    → IsWellFormed (get_shard_for_key s key) command key r
unfolding refuse read_from
execute_query-IsWellFormed collate input s command key value r t e =
    let (shard, there, branch) = execute_query-Branch collate input s command key value r t e in
    by_branch (get_shard_for_key s key) shard branch
  where
    writes : (c : Command) → is_write c ≡ true → (1 ∷ 2 ∷ 3 ∷ 4 ∷ 5 ∷ []) ≡ stages c none
    writes get w = cc
    writes put w = refl
    writes delete w = refl

    by_branch :
        (index : ℕ) (shard : ShardState)
        → Branch collate input s command key value index shard r t
        → IsWellFormed index command key r
    by_branch index shard (lost steps missing re te) = rw re (record {
      numbered = map-append _ steps.list _ ∙ rw steps.numbered;
      failed = refl;
      told = refl;
      same_command = refl;
      same_key = refl;
      same_shard = refl;
      led = refl;
    })
    by_branch index shard (reads steps l lsm c led own re te) =
        rw (re, c)
          (record {
            numbered = map-append _ steps.list _ ∙ rw steps.numbered;
            failed = refl;
            told = refl;
            same_command = refl;
            same_key = refl;
            same_shard = refl;
            led = refl;
          })
    by_branch index shard (few steps l w led q re te) = rw re (record {
      numbered = steps.numbered;
      failed = refl;
      told = refl;
      same_command = refl;
      same_key = refl;
      same_shard = refl;
      led = refl;
    })
    by_branch index shard (done steps l engines w led q applied re te) = rw re (record {
      numbered = steps.numbered ∙ writes command w;
      failed = refl;
      told = rw w;
      same_command = refl;
      same_key = refl;
      same_shard = refl;
      led = refl;
    })
