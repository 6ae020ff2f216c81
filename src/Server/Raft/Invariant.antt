-- ===== src/Server/Raft/Invariant.antt =====
-- The invariant of a node of go/pkg/raft/node.go, and lists of entries.
use info_crate.Common.{
  ℕ, zero, suc, ◌+◌, ◌^◌, ◌≤◌, ◌<◌, ◌≡◌, refl, arith, true, some, List, [], ◌∷◌, ◌++◌, length,
  get_elem?, All, All-append,
}
use info_crate.Sort.Sorted.{IsSortedBy}
use info_crate.Server.Raft.Log.{LogEntry, last_index, get_entry}
use info_crate.Server.Raft.{Node, is_leader_role}

-- The entries from index `i` on have the indices of their places.
abbrev pub IsIndexed : ℕ → List LogEntry → Type 0
IsIndexed i [] = Unit
IsIndexed i (e ∷ log) = (e.index ≡ i) × IsIndexed (suc i) log

abbrev pub TermLe : LogEntry → LogEntry → Type 0
TermLe a b = a.term ≤ b.term

-- The log has the entry at its index.
abbrev pub InLog : List LogEntry → LogEntry → Type 0
InLog log e = get_entry e.index log ≡ some e

-- The log has the entry, and the commit index has reached it.
abbrev pub IsCommitted : List LogEntry → ℕ → LogEntry → Type 0
IsCommitted log commit e = InLog log e × (e.index ≤ commit)

pub record IsSound (n : Node) : Type 0 where
  pub some_entry : 0 < length n.log
  pub indexed : IsIndexed 0 n.log
  pub terms_ascend : IsSortedBy TermLe n.log
  pub terms_reached : All (λ e. e.term ≤ n.current_term) n.log
  pub committing_logged : All (InLog n.log) n.committing
  pub queue_committed : All (IsCommitted n.log n.commit_index) n.apply_ch
  pub stored_committed : All (IsCommitted n.log n.commit_index) n.stored
  pub commit_logged : n.commit_index < length n.log
  pub applied_committed : n.last_applied ≤ n.commit_index
  pub leads_itself : is_leader_role n.role ≡ true → n.leader_id ≡ n.node_id

pub IsIndexed-snoc :
    (i : ℕ) (log : List LogEntry) (e : LogEntry)
    → IsIndexed i log
    → e.index ≡ i + length log
    → IsIndexed i (log ++ e ∷ [])
IsIndexed-snoc i [] e h at = (omega (arith, at), tt)
IsIndexed-snoc i (x ∷ log) e h at = (h.0, IsIndexed-snoc (suc i) log e h.1 (omega (arith, at)))

pub IsSortedBy-snoc :
    (log : List LogEntry) (e : LogEntry)
    → All (λ x. x.term ≤ e.term) log
    → IsSortedBy TermLe log
    → IsSortedBy TermLe (log ++ e ∷ [])
IsSortedBy-snoc [] e h o = (tt, tt)
IsSortedBy-snoc (x ∷ log) e h o =
    (All-append (TermLe x) log (e ∷ []) o.0 (h.0, tt), IsSortedBy-snoc log e h.1 o.1)

pub get_elem?-more :
    (log : List LogEntry) (i : ℕ) (x e : LogEntry)
    → get_elem? log i ≡ some e
    → get_elem? (log ++ x ∷ []) i ≡ some e
get_elem?-more [] i x e h = cc
get_elem?-more (y ∷ log) zero x e h = h
get_elem?-more (y ∷ log) (suc i) x e h = get_elem?-more log i x e h

pub get_elem?-last :
    (log : List LogEntry) (x : LogEntry) → get_elem? (log ++ x ∷ []) (length log) ≡ some x
get_elem?-last [] x = refl
get_elem?-last (y ∷ log) x = get_elem?-last log x

pub get_elem?-inside :
    (log : List LogEntry) (i : ℕ) (e : LogEntry) → get_elem? log i ≡ some e → i < length log
get_elem?-inside [] i e h = cc
get_elem?-inside (y ∷ log) zero e h = omega arith
get_elem?-inside (y ∷ log) (suc i) e h = omega (arith, get_elem?-inside log i e h)

pub All-weaken :
    (P Q : LogEntry → Type 0)
    → ((e : LogEntry) → P e → Q e)
    → (es : List LogEntry) → All P es
    → All Q es
All-weaken P Q weaker [] h = tt
All-weaken P Q weaker (e ∷ es) h = (weaker e h.0, All-weaken P Q weaker es h.1)

pub last_index_lem :
    (log : List LogEntry) → 0 < length log → length log < 2 ^ 64 → last_index log + 1 ≡ length log
unfolding last_index
last_index_lem log h size = omega arith
