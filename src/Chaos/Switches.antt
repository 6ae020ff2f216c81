-- ===== src/Chaos/Switches.antt =====
-- One switch of the nodes, looked up by id, before and after a toggle of
-- src/engine/clusterSimulator.ts.
use info_crate.Common.{
  ◌≡◌, refl, ap, arith, Bool, true, false, not, inl, inr, Option, none, some, List, [], ◌∷◌, ◌++◌,
  map, find, if◌then◌else◌, Ordering, Bool-cases, Option-cases,
}
use info_crate.Text.{JsString, str_eq}
use info_crate.Text.Laws.{str_eq_iff}
use info_crate.SsTable.{or_else}
use info_crate.Cluster.{NodeState, ShardState, sync_node, sync_shard}
use info_crate.Cluster.Election.Leads.{sync_node_id}
use info_crate.Cluster.Coherence.{Engines}
use info_crate.Cluster.Control.{change_node, toggle_in}
use info_crate.Dashboard.{all_nodes}

abbrev pub node_with : JsString → List NodeState → Option NodeState
node_with id nodes = find (λ n. str_eq n.id id) nodes

unfoldable pub flipped : Bool → Option Bool → Option Bool
flipped b none = none
flipped b (some x) = some (if b then not x else x)

pub flipped-false : (o : Option Bool) → o ≡ flipped false o
unfolding flipped
flipped-false none = refl
flipped-false (some x) = refl

flipped-or_else_later :
    (b : Bool) (o p q : Option Bool)
    → (b ≡ true → o ≡ none)
    → p ≡ flipped b q
    → or_else o p ≡ flipped b (or_else o q)
unfolding flipped
flipped-or_else_later b none p q h e = e
flipped-or_else_later false (some x) p q h e = refl
flipped-or_else_later true (some x) p q h e = let gone : some x ≡ none = h refl in cc

flipped-or_else_here :
    (b : Bool) (o q : Option Bool)
    → (b ≡ true → (x : Bool) × (o ≡ some x))
    → or_else (flipped b o) q ≡ flipped b (or_else o q)
unfolding flipped
flipped-or_else_here b (some x) q h = refl
flipped-or_else_here false none q h = flipped-false q
flipped-or_else_here true none q h = let (x, e) = h refl in cc

-- A switch that is read by `down` and turned by `change`.
module _ (down : NodeState → Bool) where
  abbrev pub seek : JsString → List NodeState → Option Bool
  seek k [] = none
  seek k (n ∷ nodes) = if str_eq n.id k then some (down n) else seek k nodes

  pub seek-node_with :
      (k : JsString) (nodes : List NodeState) (n : NodeState)
      → node_with k nodes ≡ some n
      → seek k nodes ≡ some (down n)
  seek-node_with k [] n e = cc
  seek-node_with k (m ∷ nodes) n e = elim (Bool-cases (str_eq m.id k)) [
    | inl hit ↦ rw hit (ap (λ (x : NodeState). some (down x)) (some_eq (rw hit at e)))
    | inr miss ↦ rw miss (seek-node_with k nodes n (rw miss at e))
  ]
    where
      some_eq : some m ≡ some n → m ≡ n
      some_eq h = cc

  pub seek-absent :
      (k : JsString) (nodes : List NodeState) → node_with k nodes ≡ none → seek k nodes ≡ none
  seek-absent k [] e = refl
  seek-absent k (m ∷ nodes) e = elim (Bool-cases (str_eq m.id k)) [
    | inl hit ↦ gone (rw hit at e)
    | inr miss ↦ rw miss (seek-absent k nodes (rw miss at e))
  ]
    where
      gone : some m ≡ none → seek k (m ∷ nodes) ≡ none
      gone h = cc

  seek-append :
      (k : JsString) (xs ys : List NodeState) → seek k (xs ++ ys) ≡ or_else (seek k xs) (seek k ys)
  seek-append k [] ys = refl
  seek-append k (x ∷ xs) ys = ground (arith, seek-append k xs ys)

  module _ (change : NodeState → NodeState) (keep : (n : NodeState) → (change n).id ≡ n.id)
      (turn : (n : NodeState) → down (change n) ≡ not (down n)) (id : JsString) where
    seek-change_node :
        (k : JsString) (nodes : List NodeState)
        → seek k (change_node change id nodes) ≡ flipped (str_eq id k) (seek k nodes)
    unfolding change_node flipped
    seek-change_node k [] = refl
    seek-change_node k (n ∷ nodes) = ground (
      arith,
      seek-change_node k nodes,
      keep n,
      turn n,
      str_eq_iff id k,
      str_eq_iff n.id id,
      str_eq_iff n.id k,
    )

    pub seek-toggle_in :
        (k : JsString) (shards : List ShardState)
        → seek k (all_nodes (toggle_in change down id shards))
          ≡ flipped (str_eq id k) (seek k (all_nodes shards))
    unfolding toggle_in all_nodes
    seek-toggle_in k [] = unfold flipped in refl
    seek-toggle_in k (shard ∷ shards) = elim (Option-cases (node_with id shard.nodes)) [
      | inl missing ↦
          rw (missing, toggle_in)
            (rw (seek-append, seek-append)
              (flipped-or_else_later (str_eq id k) _ _ _
                (λ same. rw (← (str_eq_iff id k).0 same) (seek-absent id shard.nodes missing))
                (seek-toggle_in k shards)))
      | inr (n, here) ↦
          rw (here, toggle_in)
            (rw (seek-append, seek-append, seek-change_node)
              (flipped-or_else_here (str_eq id k) _ _ (λ same.
                (down n, rw (← (str_eq_iff id k).0 same) (seek-node_with id shard.nodes n here)))))
    ]

  seek-sync :
      (collate : JsString → JsString → Ordering)
      → ((engines : Engines) (n : NodeState) → down (sync_node collate engines n) ≡ down n)
      → (engines : Engines) (k : JsString) (nodes : List NodeState)
      → seek k (map (sync_node collate engines) nodes) ≡ seek k nodes
  seek-sync collate same engines k [] = refl
  seek-sync collate same engines k (n ∷ nodes) = ground (
    arith,
    seek-sync collate same engines k nodes,
    same engines n,
    sync_node_id collate engines n,
  )

  pub seek-sync_state :
      (collate : JsString → JsString → Ordering)
      → ((engines : Engines) (n : NodeState) → down (sync_node collate engines n) ≡ down n)
      → (engines : Engines) (k : JsString) (shards : List ShardState)
      → seek k (all_nodes (map (sync_shard collate engines) shards)) ≡ seek k (all_nodes shards)
  unfolding sync_shard all_nodes
  seek-sync_state collate same engines k [] = refl
  seek-sync_state collate same engines k (shard ∷ shards) = rw (
    seek-append,
    seek-append,
    seek-sync collate same engines k shard.nodes,
    seek-sync_state collate same engines k shards,
  )
