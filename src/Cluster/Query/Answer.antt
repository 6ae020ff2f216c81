-- ===== src/Cluster/Query/Answer.antt =====
-- The result and the state that a query returns, and the acknowledgements that it counts.
use info_crate.Common.{
  ◌+◌, ◌≡◌, refl, sym, arith, Bool, true, false, ◌&&◌, inl, inr, Option, none, some, List, [], ◌∷◌,
  length, select, find, All, Bool-cases,
}
use info_crate.Text.{JsString, str_eq}
use info_crate.Text.Laws.{str_eq_refl, str_eq_iff}
use info_crate.Cluster.{
  NodeState, QueryResult, ClusterSimulator, is_available, names, available_nodes,
}
use info_crate.Cluster.Election.Leads.{leads}
use info_crate.Cluster.Coherence.{UniqueIds}
use info_crate.Cluster.Query.{is_peer, acks_of}

abbrev pub Out : Type 0
Out = Option (QueryResult × ClusterSimulator)

-- The result and the state, if the query returns.
abbrev pub Yields : (QueryResult → ClusterSimulator → Type 0) → Out → Type 0
Yields P none = Unit
Yields P (some (r, t)) = P r t

pub Yields-out :
    (P : QueryResult → ClusterSimulator → Type 0) (o : Out) (r : QueryResult) (t : ClusterSimulator)
    → o ≡ some (r, t)
    → Yields P o
    → P r t
Yields-out P o r t e y = rw e at y

-- With the leader at hand and no id twice, the acknowledgements are the available nodes.
peers_none :
    (l : NodeState) (nodes : List NodeState)
    → All (λ m. str_eq m.id l.id ≡ false) nodes
    → length (select (is_peer l) nodes) ≡ length (available_nodes nodes)
peers_none l [] h = refl
peers_none l (n ∷ nodes) h = ground (arith, peers_none l nodes h.1, h.0)

leader_first :
    (l : NodeState) (nodes : List NodeState)
    → is_available l ≡ true
    → All (λ m. str_eq m.id l.id ≡ false) nodes
    → 1 + length (select (is_peer l) (l ∷ nodes)) ≡ length (available_nodes (l ∷ nodes))
leader_first l nodes up h = rw (str_eq_refl l.id, up) (omega (arith, peers_none l nodes h))

other_id :
    (n l : NodeState) (nodes : List NodeState) (o : Option JsString)
    → find (leads o) nodes ≡ some l
    → All (λ m. str_eq m.id n.id ≡ false) nodes
    → str_eq l.id n.id ≡ false
other_id n l [] o e h = cc
other_id n l (m ∷ nodes) o e h = elim (Bool-cases (leads o m)) [
  | inl hit ↦ let same : m ≡ l = some_eq (rw hit at e) in rw (← same) h.0
  | inr miss ↦ other_id n l nodes o (rw miss at e) h.1
]
  where
    some_eq : some m ≡ some l → m ≡ l
    some_eq k = cc

pub acks-available :
    (l : NodeState) (nodes : List NodeState) (o : Option JsString)
    → find (leads o) nodes ≡ some l
    → UniqueIds nodes
    → acks_of l nodes ≡ length (available_nodes nodes)
unfolding acks_of
acks-available l [] o e u = cc
acks-available l (n ∷ nodes) o e u = elim (Bool-cases (leads o n)) [
  | inl hit ↦ first hit (rw hit at e)
  | inr miss ↦ later (rw miss at e) (acks-available l nodes o (rw miss at e) u.1)
]
  where
    up_of : (a b : Bool) → (a && b) ≡ true → b ≡ true
    up_of a b h = ground arith

    first :
        leads o n ≡ true
        → some n ≡ some l
        → 1 + length (select (is_peer l) (n ∷ nodes)) ≡ length (available_nodes (n ∷ nodes))
    first hit k =
        let same : n ≡ l = cc in
        let up : is_available n ≡ true = up_of (names o n.id) (is_available n) hit in
        rw same (leader_first l nodes (rw same at up) (rw same at u.0))

    apart : str_eq l.id n.id ≡ false → str_eq n.id l.id ≡ false
    apart h = elim (Bool-cases (str_eq n.id l.id)) [
      | inl same ↦
          let e : l.id ≡ n.id = sym ((str_eq_iff n.id l.id).0 same) in
          let a : str_eq l.id n.id ≡ true = (str_eq_iff l.id n.id).1 e in cc
      | inr other ↦ other
    ]

    later :
        find (leads o) nodes ≡ some l
        → 1 + length (select (is_peer l) nodes) ≡ length (available_nodes nodes)
        → 1 + length (select (is_peer l) (n ∷ nodes)) ≡ length (available_nodes (n ∷ nodes))
    later k rest =
        let other : str_eq n.id l.id ≡ false = apart (other_id n l nodes o k u.0) in ground arith
