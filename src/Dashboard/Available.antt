-- ===== src/Dashboard/Available.antt =====
-- Writes on a shard that the topology view shows with its quorum, and the reads after them, in a
-- running program.
use info_crate.Common.{ℕ, ◌≡◌, ◌≤◌, refl, ◌∙◌, true, none, some, ◌∷◌, get_elem?, Ordering}
use info_crate.Text.{JsString}
use info_crate.Dict
use info_crate.Lsm.{SimulatedLsmEngine}
use info_crate.Lsm.Newest.{l1_entry}
use info_crate.Lsm.Range.{Collation}
use info_crate.Lsm.Timed.{IsTimed}
use info_crate.Cluster.{
  put, get, NodeState, ShardState, QueryResult, ClusterSimulator, find_leader, get_shard_for_key,
}
use info_crate.Cluster.Boot.{BootInput, init_cluster}
use info_crate.Cluster.Coherence.{IsCoherent}
use info_crate.Cluster.EachEngine.{Reach-IsValid}
use info_crate.Cluster.Query.{QueryInput}
use info_crate.Cluster.Query.Apply.{execute_query}
use info_crate.Cluster.Query.Keeps.{All-get_elem?}
use info_crate.Cluster.Query.ReadBack.{get-put}
use info_crate.Cluster.Query.Total.{execute_query-Returns}
use info_crate.Cluster.Reach.{Reach, Reach-IsWhole, init_cluster-IsWhole}
use info_crate.Dashboard.{quorum_met}
use info_crate.Dashboard.Agrees.{success-quorum_met}

-- The PUT of the value returns and succeeds, and a GET right after it returns and finds the value.
pub record ReadsBack (collate : JsString → JsString → Ordering) (input later : QueryInput)
    (s : ClusterSimulator) (key value : JsString) : Type 0 where
  pub result : QueryResult
  pub after : ClusterSimulator
  pub put_returns : execute_query collate input s put key (some value) ≡ some (result, after)
  pub put_succeeds : result.success ≡ true
  pub answer : QueryResult
  pub last : ClusterSimulator
  pub get_returns : execute_query collate later after get key none ≡ some (answer, last)
  pub get_finds : (answer.success ≡ true) × (answer.found ≡ some true) × (answer.value ≡ some value)

-- In every state that a run leads to from the start of the program: on a shard that has a leader and
-- that the topology view shows with its quorum, the PUT of a value that is not empty returns with
-- success, and a GET of the key right after it returns and finds the value. It is shown where, on the
-- leader's engine, time does not run backwards, the collation sorts the stored keys as `<` does, and
-- no table of level 1 has the key.
pub Reach-ReadsBack :
    (c : Collation) (boot : BootInput) (s : ClusterSimulator) (input later : QueryInput)
    (key : JsString) (first : ℕ) (rest : JsString) (shard : ShardState) (l : NodeState)
    (lsm : SimulatedLsmEngine) (last : ℕ)
    → Reach c.locale_compare (init_cluster c.locale_compare boot) s
    → get_elem? s.shards (get_shard_for_key s key) ≡ some shard
    → find_leader shard ≡ some l
    → quorum_met shard ≡ true
    → Dict.get l.id s.lsm_engines ≡ some lsm
    → last ≤ input.write_ts l.id
    → c.IsPlain key
    → IsTimed c last lsm
    → l1_entry lsm.l1_tables key ≡ none
    → ReadsBack c.locale_compare input later s key (first ∷ rest)
Reach-ReadsBack c boot s input later key first rest shard l lsm last reached here led quorum own up
      plain timed fresh =
    let whole =
      Reach-IsWhole c.locale_compare reached (init_cluster-IsWhole c.locale_compare boot) in
    let own_shard = All-get_elem? (IsCoherent s.lsm_engines) s.shards _ shard here whole.coherent in
    let (r, t, put_e, after_whole) =
      execute_query-Returns c.locale_compare input s put key (some (first ∷ rest)) whole in
    let (got, u, get_e, still_whole) =
      execute_query-Returns c.locale_compare later t get key none after_whole in
    let ok =
      success-quorum_met c.locale_compare input s put key (some (first ∷ rest)) shard l r t refl
        here led own_shard.unique put_e
      ∙ quorum in
    record {
      result = r;
      after = t;
      put_returns = put_e;
      put_succeeds = ok;
      answer = got;
      last = u;
      get_returns = get_e;
      get_finds =
          get-put c input later s t u key first rest shard l lsm last r got here led
            own_shard.unique own up plain
            (Reach-IsValid c.locale_compare boot s reached l.id lsm own).0 timed fresh put_e ok
            get_e;
    }
