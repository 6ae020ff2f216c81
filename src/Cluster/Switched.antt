-- ===== src/Cluster/Switched.antt =====
-- The switches of src/engine/clusterSimulator.ts on a coherent cluster.
use info_crate.Common.{
  ◌≡◌, refl, ap, arith, Bool, true, false, ◌&&◌, inl, inr, Option, some, List, [], ◌∷◌, find, All,
  Bool-cases, Option-cases,
}
use info_crate.Text.{JsString, str_eq}
use info_crate.Text.Laws.{str_eq_iff}
use info_crate.Cluster.{NodeState, ShardState, is_available, names, find_leader}
use info_crate.Cluster.Election.Leads.{leads}
use info_crate.Cluster.Control.{change_node, depose, toggle_in}
use info_crate.Cluster.Coherence.{Engines, HasEngine, UniqueIds, IsLed, IsCoherent}

-- A switch of one node: an available node goes down.
module _ (change : NodeState → NodeState) (down : NodeState → Bool)
    (keep : (n : NodeState) → (change n).id ≡ n.id)
    (falls : (n : NodeState) → is_available n ≡ true → down (change n) ≡ true) (id : JsString) where
  change_node-engines :
      (engines : Engines) (nodes : List NodeState)
      → All (HasEngine engines) nodes
      → All (HasEngine engines) (change_node change id nodes)
  unfolding change_node
  change_node-engines engines [] h = tt
  change_node-engines engines (n ∷ nodes) h = elim (Bool-cases (str_eq n.id id)) [
    | inl same ↦ rw same ((h.0.0, rw (keep n) h.0.1), h.1)
    | inr other ↦ rw other (h.0, change_node-engines engines nodes h.1)
  ]

  change_node-ids :
      (k : JsString) (nodes : List NodeState)
      → All (λ m. str_eq m.id k ≡ false) nodes
      → All (λ m. str_eq m.id k ≡ false) (change_node change id nodes)
  unfolding change_node
  change_node-ids k [] h = tt
  change_node-ids k (n ∷ nodes) h = elim (Bool-cases (str_eq n.id id)) [
    | inl same ↦ rw same (rw (keep n) h.0, h.1)
    | inr other ↦ rw other (h.0, change_node-ids k nodes h.1)
  ]

  change_node-UniqueIds :
      (nodes : List NodeState) → UniqueIds nodes → UniqueIds (change_node change id nodes)
  unfolding change_node
  change_node-UniqueIds [] h = tt
  change_node-UniqueIds (n ∷ nodes) h = elim (Bool-cases (str_eq n.id id)) [
    | inl same ↦ rw same (rw (keep n) h.0, h.1)
    | inr other ↦ rw other (change_node-ids n.id nodes h.0, change_node-UniqueIds nodes h.1)
  ]

  not_led :
      (o : Option JsString) (n : NodeState)
      → str_eq n.id id ≡ true
      → (down (change n) && names o id) ≡ false
      → leads o n ≡ false
  not_led o n same d =
      let here : n.id ≡ id = (str_eq_iff n.id id).0 same in
      ground (arith, falls n, ap (names o) here)

  still_led :
      (o : Option JsString) (nodes : List NodeState) (node l : NodeState)
      → find (λ n. str_eq n.id id) nodes ≡ some node
      → (down (change node) && names o id) ≡ false
      → find (leads o) nodes ≡ some l
      → (k : NodeState) × (find (leads o) (change_node change id nodes) ≡ some k)
  unfolding change_node
  still_led o [] node l f d h = cc
  still_led o (n ∷ nodes) node l f d h = elim (Bool-cases (str_eq n.id id)) [
    | inl same ↦ rw same (first same (rw same at f))
    | inr other ↦ rw other (later (still_led o nodes node l (rw other at f) d))
  ]
    where
      first :
          str_eq n.id id ≡ true
          → some n ≡ some node
          → (k : NodeState) × (find (leads o) (change n ∷ nodes) ≡ some k)
      first same e =
          let it : node ≡ n = cc in
          let down_n : (down (change n) && names o id) ≡ false = rw it at d in
          elim (Bool-cases (leads o (change n))) [
            | inl hit ↦ (change n, rw hit)
            | inr miss ↦ (l, rw miss (rw (not_led o n same down_n) at h))
          ]

      later :
          (find (leads o) nodes ≡ some l
            → (k : NodeState) × (find (leads o) (change_node change id nodes) ≡ some k))
          → (k : NodeState) × (find (leads o) (n ∷ change_node change id nodes) ≡ some k)
      later rest = elim (Bool-cases (leads o n)) [
        | inl hit ↦ (n, rw hit)
        | inr miss ↦ let (k, e) = rest (rw miss at h) in (k, rw miss e)
      ]

  switched : ShardState → NodeState → ShardState
  switched shard node = record shard {
    nodes = change_node change id shard.nodes;
    leader_id = depose (down (change node)) id shard.leader_id;
  }

  switched-IsLed :
      (shard : ShardState) (node : NodeState)
      → find (λ n. str_eq n.id id) shard.nodes ≡ some node
      → IsLed shard
      → IsLed (switched shard node)
  unfolding switched depose
  switched-IsLed shard node f led =
      elim (Bool-cases (down (change node) && names shard.leader_id id)) [
        | inl deposed ↦ rw deposed (inl refl)
        | inr stays ↦ rw stays (same_leader stays led)
      ]
    where
      same_leader :
          (down (change node) && names shard.leader_id id) ≡ false
          → IsLed shard
          → IsLed (record shard { nodes = change_node change id shard.nodes })
      same_leader d (inl nobody) = inl nobody
      same_leader d (inr (l, e)) =
          inr (unfold find_leader in still_led shard.leader_id shard.nodes node l f d e)

  pub toggle_in-IsCoherent :
      (engines : Engines) (shards : List ShardState)
      → All (IsCoherent engines) shards
      → All (IsCoherent engines) (toggle_in change down id shards)
  unfolding toggle_in
  toggle_in-IsCoherent engines [] h = tt
  toggle_in-IsCoherent engines (shard ∷ shards) h =
      elim (Option-cases (find (λ n. str_eq n.id id) shard.nodes)) [
        | inl missing ↦ rw (missing, toggle_in) (h.0, toggle_in-IsCoherent engines shards h.1)
        | inr (node, f) ↦
            rw (f, toggle_in)
              (
                record {
                  engines_there = change_node-engines engines shard.nodes h.0.engines_there;
                  unique = change_node-UniqueIds shard.nodes h.0.unique;
                  led = unfold switched in switched-IsLed shard node f h.0.led;
                },
                h.1,
              )
      ]
