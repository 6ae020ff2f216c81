-- ===== src/Cluster/Query/ReadBack.antt =====
-- A PUT and then a GET of the same key, on the cluster.
use info_crate.Common.{
  ℕ, zero, suc, ◌%◌, ◌≡◌, ◌≤◌, refl, sym, ap, subst, ◌∙◌, arith, Bool, true, false, ◌&&◌, ◌||◌, inl,
  inr, Option, none, some, List, [], ◌∷◌, map, length-map, get_elem?, find, find-map, Ordering,
  Bool-cases,
}
use info_crate.Text.{JsString, str_eq}
use info_crate.Text.Laws.{str_eq_refl}
use info_crate.Dict
use info_crate.Hash.{fnv1a64}
use info_crate.Lsm.{SimulatedLsmEngine}
use info_crate.Lsm.Lookup
use info_crate.Lsm.Counts.{Call, puts, step, IsValid}
use info_crate.Lsm.Newest.{outcome, l1_entry}
use info_crate.Lsm.Range.{Collation}
use info_crate.Lsm.Refinement.{get-step}
use info_crate.Lsm.Timed.{IsTimed}
use info_crate.Cluster.{
  Command, put, get, NodeState, ShardState, QueryResult, ClusterSimulator, is_available, names,
  find_leader, get_shard_for_key, notify, sync_node, sync_shard, sync_state,
}
use info_crate.Cluster.Election.Leads.{leads, sync_node_id, find_leader-sync_shard}
use info_crate.Cluster.Coherence.{UniqueIds}
use info_crate.Cluster.Query.{QueryInput, refuse, read_from, append_entry, commit_node, set_nodes}
use info_crate.Cluster.Query.Apply.{commit_write, execute_query}
use info_crate.Cluster.Query.Branch.{
  Branch, lost, reads, few, done, is_write, raft_entry, committed, execute_query-Branch_at,
}
use info_crate.Cluster.Query.Keeps.{
  append_entry_id, append_entry-available, commit_node_id, commit_node-available, length-set_nodes,
}
use info_crate.Cluster.Query.Replicated.{is_replica, execute_query_replicates}

get_elem?-set_nodes :
    (shards : List ShardState) (i : ℕ) (shard : ShardState) (nodes : List NodeState)
    → get_elem? shards i ≡ some shard
    → get_elem? (set_nodes shards i nodes) i ≡ some (record shard { nodes = nodes })
unfolding set_nodes
get_elem?-set_nodes [] i shard nodes e = cc
get_elem?-set_nodes (s ∷ shards) zero shard nodes e = let same : s ≡ shard = cc in rw same
get_elem?-set_nodes (s ∷ shards) (suc i) shard nodes e = get_elem?-set_nodes shards i shard nodes e

get_elem?-map :
    (f : ShardState → ShardState) (shards : List ShardState) (i : ℕ) (shard : ShardState)
    → get_elem? shards i ≡ some shard
    → get_elem? (map f shards) i ≡ some (f shard)
get_elem?-map f [] i shard e = cc
get_elem?-map f (s ∷ shards) zero shard e = let same : s ≡ shard = cc in rw same
get_elem?-map f (s ∷ shards) (suc i) shard e = get_elem?-map f shards i shard e

-- The leader that is found is an available node of the shard.
leader-is_replica :
    (o : Option JsString) (nodes : List NodeState) (l : NodeState)
    → find (leads o) nodes ≡ some l
    → is_replica nodes l.id ≡ true
leader-is_replica o [] l e = cc
leader-is_replica o (n ∷ nodes) l e = elim (Bool-cases (leads o n)) [
  | inl hit ↦ at_head (some_eq (rw hit at e)) (up_of (names o n.id) (is_available n) hit)
  | inr miss ↦
      later (is_available n) (str_eq n.id l.id) (leader-is_replica o nodes l (rw miss at e))
]
  where
    some_eq : some n ≡ some l → n ≡ l
    some_eq h = cc

    up_of : (a b : Bool) → (a && b) ≡ true → b ≡ true
    up_of a b h = ground arith

    at_head : n ≡ l → is_available n ≡ true → is_replica (n ∷ nodes) l.id ≡ true
    at_head same up = rw (← same) (rw (up, str_eq_refl n.id))

    later : (a b : Bool) → is_replica nodes l.id ≡ true → ((a && b) || is_replica nodes l.id) ≡ true
    later a b h = ground arith

module _ (collate : JsString → JsString → Ordering) (input : QueryInput) (s : ClusterSimulator)
    (command : Command) (key : JsString) (value : Option JsString) (shard : ShardState)
    (l : NodeState) where
  -- The node of the leader after the write.
  leader_after : NodeState
  leader_after =
      commit_node l (raft_entry collate input s command key value l).index
        (append_entry l (raft_entry collate input s command key value l) l)

  find_leader-committed :
      find_leader shard ≡ some l
      → find_leader (record shard { nodes = committed collate input s command key value shard l })
        ≡ some leader_after
  unfolding find_leader leader_after
  find_leader-committed led =
      find-map (leads shard.leader_id) (leads shard.leader_id) (commit_node l _)
        (λ n. simp (commit_node_id l _ n, commit_node-available l _ n)) _ _
        (find-map (leads shard.leader_id) (leads shard.leader_id) (append_entry l _)
          (λ n. simp (append_entry_id l _ n, append_entry-available l _ n)) shard.nodes l led)

  leader_after_id : leader_after.id ≡ l.id
  unfolding leader_after
  leader_after_id = commit_node_id l _ _ ∙ append_entry_id l _ l

  -- The shard of the key keeps its leader through a write that succeeds.
  pub record Follows (t : ClusterSimulator) : Type 0 where
    pub same_index : get_shard_for_key t key ≡ get_shard_for_key s key
    pub shard_after : ShardState
    pub there : get_elem? t.shards (get_shard_for_key s key) ≡ some shard_after
    pub led_by : NodeState
    pub led : find_leader shard_after ≡ some led_by
    pub same_leader : led_by.id ≡ l.id

  module _ (r : QueryResult) (t : ClusterSimulator) (w : is_write command ≡ true)
      (here : get_elem? s.shards (get_shard_for_key s key) ≡ some shard)
      (led : find_leader shard ≡ some l) (ok : r.success ≡ true) where
    follows :
        Branch collate input s command key value (get_shard_for_key s key) shard r t → Follows t
    unfolding refuse commit_write notify sync_state get_shard_for_key
    follows (lost steps none_found re te) = let bad : r.success ≡ false = rw re in cc
    follows (reads steps l' lsm c led' own re te) = let bad : is_write get ≡ true = rw c at w in cc
    follows (few steps l' w' led' q re te) = let bad : r.success ≡ false = rw re in cc
    follows (done steps l' engines w' led' q applied re te) =
        let same : l' ≡ l = cc in
        rw (te, same)
          (record {
            same_index = ap (λ (n : ℕ). fnv1a64 key % n) (length-map _ _ ∙ length-set_nodes _ _ _);
            shard_after =
                sync_shard collate engines
                  (record shard { nodes = committed collate input s command key value shard l });
            there =
                get_elem?-map (sync_shard collate engines)
                  (set_nodes s.shards (get_shard_for_key s key)
                    (committed collate input s command key value shard l))
                  (get_shard_for_key s key) _
                  (get_elem?-set_nodes s.shards (get_shard_for_key s key) shard _ here);
            led_by = sync_node collate engines leader_after;
            led = find_leader-sync_shard collate engines _ leader_after (find_leader-committed led);
            same_leader = sync_node_id collate engines leader_after ∙ leader_after_id;
          })

get_answer :
    (collate : JsString → JsString → Ordering) (later : QueryInput) (t u : ClusterSimulator)
    (key value : JsString) (index : ℕ) (shard : ShardState) (l : NodeState)
    (lsm : SimulatedLsmEngine) (got : QueryResult)
    → find_leader shard ≡ some l
    → Dict.get l.id t.lsm_engines ≡ some lsm
    → outcome (Lookup.get lsm key) ≡ (true, some value)
    → Branch collate later t get key none index shard got u
    → (got.success ≡ true) × (got.found ≡ some true) × (got.value ≡ some value)
unfolding read_from
get_answer collate later t u key value index shard l lsm got led own answered
      (lost steps none_found re te) =
    cc
get_answer collate later t u key value index shard l lsm got led own answered
      (few steps l' w led' q re te) =
    cc
get_answer collate later t u key value index shard l lsm got led own answered
      (done steps l' engines w led' q applied re te) =
    cc
get_answer collate later t u key value index shard l lsm got led own answered
      (reads steps l' lsm' c led' own' re te) =
    let same : l' ≡ l = cc in
    let same_engine : lsm' ≡ lsm = some_eq (sym own' ∙ rw same own) in
    rw (re, same_engine)
      (
        refl,
        ap (λ (p : Bool × Option JsString). some p.0) answered,
        ap (λ (p : Bool × Option JsString). p.1) answered,
      )
  where
    some_eq : some lsm' ≡ some lsm → lsm' ≡ lsm
    some_eq h = cc

-- A PUT of a value that is not empty, when it succeeds, and then a GET of the key: the GET is
-- answered, and finds the value that was put. It is shown on a shard that has a leader and no id
-- twice, where the leader's engine is valid, its time does not run backwards, its collation sorts the
-- stored keys as `<` does, and no table of its level 1 has the key.
pub get-put :
    (c : Collation) (input later : QueryInput) (s t u : ClusterSimulator) (key : JsString)
    (first : ℕ) (rest : JsString) (shard : ShardState) (l : NodeState) (lsm : SimulatedLsmEngine)
    (last : ℕ) (r got : QueryResult)
    → get_elem? s.shards (get_shard_for_key s key) ≡ some shard
    → find_leader shard ≡ some l
    → UniqueIds shard.nodes
    → Dict.get l.id s.lsm_engines ≡ some lsm
    → last ≤ input.write_ts l.id
    → c.IsPlain key
    → IsValid lsm
    → IsTimed c last lsm
    → l1_entry lsm.l1_tables key ≡ none
    → execute_query c.locale_compare input s put key (some (first ∷ rest)) ≡ some (r, t)
    → r.success ≡ true
    → execute_query c.locale_compare later t get key none ≡ some (got, u)
    → (got.success ≡ true) × (got.found ≡ some true) × (got.value ≡ some (first ∷ rest))
get-put c input later s t u key first rest shard l lsm last r got here led unique own up plain valid
      timed fresh put_e ok get_e =
    let branch =
      execute_query-Branch_at c.locale_compare input s put key (some (first ∷ rest)) r t shard here
        put_e in
    let f =
      follows c.locale_compare input s put key (some (first ∷ rest)) shard l r t refl here led ok
        branch in
    let replica : is_replica shard.nodes l.id ≡ true =
      leader-is_replica shard.leader_id shard.nodes l (unfold find_leader in led) in
    let stored : Dict.get l.id t.lsm_engines ≡ some (step c.locale_compare lsm call) =
      rw (replica, own) at
        (execute_query_replicates c.locale_compare input s put key (some (first ∷ rest)) shard r t
          refl here unique put_e ok l.id) in
    let answered : outcome (Lookup.get (step c.locale_compare lsm call) key)
        ≡ (true, some (first ∷ rest)) =
      rw (str_eq_refl key) at (get-step c key last lsm call up plain valid timed fresh) in
    get_answer c.locale_compare later t u key (first ∷ rest) (get_shard_for_key s key) f.shard_after
      f.led_by _ got f.led (rw f.same_leader stored) answered
      (subst (λ (i : ℕ). Branch c.locale_compare later t get key none i f.shard_after got u)
        f.same_index
        (execute_query-Branch_at c.locale_compare later t get key none got u f.shard_after
          (rw f.same_index f.there) get_e))
  where
    call : Call
    call = puts (input.write_ts l.id) (input.flips l.id) key (first ∷ rest)
