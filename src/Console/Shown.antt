-- ===== src/Console/Shown.antt =====
-- The handler of the form of src/components/QueryConsole.tsx, as a whole.
use info_crate.Common.{
  ℕ, zero, suc, ◌≡◌, ◌<◌, ◌%◌, refl, arith, Option, some, ◌∷◌, length, Ordering,
}
use info_crate.Text.{JsString, trim}
use info_crate.Hash.{fnv1a64}
use info_crate.Cluster.{QueryResult, ClusterSimulator, get_shard_for_key}
use info_crate.Cluster.Query.{QueryInput}
use info_crate.Cluster.Query.Trace.{IsWellFormed, execute_query-IsWellFormed}
use info_crate.Cluster.Query.Keeps.{IsWhole}
use info_crate.Cluster.Query.Total.{execute_query-Returns}
use info_crate.Console.{
  Console, hash_val, target_shard, sent_value, submit, handle_execute, length_or_one,
}

module _ (collate : JsString → JsString → Ordering) (input : QueryInput) where
  -- The form was sent: the console shows a result for the trimmed key, of the shard that its route
  -- showed.
  pub record IsShown (console : Console) (s : ClusterSimulator)
      (o : Option (Console × ClusterSimulator)) : Type 0 where
    pub after : Console
    pub state : ClusterSimulator
    pub res : QueryResult
    pub returned : o ≡ some (after, state)
    pub active : after.active_result ≡ some res
    pub well_formed :
        IsWellFormed (target_shard s.shards console.key) console.command (trim console.key) res
    pub whole : IsWhole state

  routes :
      (s : ClusterSimulator) (c : ℕ) (key : JsString)
      → 0 < length s.shards
      → get_shard_for_key s (c ∷ key) ≡ hash_val (c ∷ key) % length_or_one (length s.shards)
  unfolding get_shard_for_key hash_val
  routes s c key some_shards = positive (length s.shards) some_shards
    where
      positive : (n : ℕ) → 0 < n → fnv1a64 (c ∷ key) % n ≡ fnv1a64 (c ∷ key) % length_or_one n
      positive zero h = absurd (omega arith)
      positive (suc n) h = refl

  -- On a coherent cluster of at least one shard, sending the form with a key that is not blank
  -- returns, and the result it shows is that of the command, of the trimmed key and of the shard
  -- that the route showed, with an error exactly if it failed and its steps numbered without a gap;
  -- the cluster stays coherent.
  pub handle_execute-IsShown :
      (console : Console) (s : ClusterSimulator) (c : ℕ) (key : JsString)
      → IsWhole s
      → trim console.key ≡ c ∷ key
      → IsShown console s (handle_execute collate input console s)
  unfolding handle_execute submit target_shard
  handle_execute-IsShown console s c key w e =
      let (r, t, ran, whole) =
        execute_query-Returns collate input s console.command (c ∷ key)
          (sent_value console.command console.value) w in
      let answered =
        execute_query-IsWellFormed collate input s console.command (c ∷ key)
          (sent_value console.command console.value) r t ran in
      record {
        after = record console { active_result = some r };
        state = t;
        res = r;
        returned = rw (e, ran, submit);
        active = refl;
        well_formed = rw (e, ← routes s c key w.some_shards) answered;
        whole = whole;
      }
