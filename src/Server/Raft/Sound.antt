-- ===== src/Server/Raft/Sound.antt =====
-- What holds of a node of go/pkg/raft/node.go whatever its timers and goroutines do.
use info_crate.Common.{
  ℕ, zero, suc, ◌+◌, ◌^◌, ◌≤◌, ◌<◌, refl, ap, ◌∙◌, arith, ◌||◌, List, [], ◌∷◌, ◌++◌, length,
  get_elem?, All, All-append, length-append, ltb, Bool-cases, inl, inr, if◌then◌else◌,
}
use info_crate.Text.{units, str_eq}
use info_crate.Server.Raft.Log.{LogEntry, new_replicated_log, append, last_index, get_entry}
use info_crate.Server.Raft.{
  Node, new_raft_node, is_leader_role, on_timeout, on_vote, on_propose, commit_entry, commit_at,
  on_commit, store_entry, apply_from, on_apply,
}
use info_crate.Server.Raft.Invariant.{
  InLog, IsCommitted, IsSound, IsIndexed-snoc, IsSortedBy-snoc, get_elem?-more, get_elem?-last,
  get_elem?-inside, All-weaken, last_index_lem,
}
use info_crate.Server.Raft.Elections.{on_timeout-IsSound, vote_at-IsSound}

-- What the timers and goroutines of a node do to it, in any order.
pub data Reach (node_id : List ℕ) (others : List (List ℕ)) : Node → Type 0 where
  started : Reach node_id others (new_raft_node node_id others)
  times_out : {n : Node} → Reach node_id others n → Reach node_id others (on_timeout n)
  gets_vote : {n : Node} (i : ℕ) → Reach node_id others n → Reach node_id others (on_vote i n)
  proposes :
      {n : Node} (command_type key value : List ℕ)
      → length n.log < 2 ^ 64
      → Reach node_id others n
      → Reach node_id others (on_propose command_type key value n).0
  commits : {n : Node} (i : ℕ) → Reach node_id others n → Reach node_id others (on_commit i n)
  applies : {n : Node} → Reach node_id others n → Reach node_id others (on_apply n)

on_propose-IsSound :
    (command_type key value : List ℕ) (n : Node)
    → length n.log < 2 ^ 64
    → IsSound n
    → IsSound (on_propose command_type key value n).0
unfolding on_propose append
on_propose-IsSound command_type key value n size s = elim (Bool-cases (is_leader_role n.role)) [
  | inr refused ↦ rw refused s
  | inl leads ↦
      let entry : LogEntry = record {
        term = n.current_term;
        index = last_index n.log + 1;
        command_type = command_type;
        key = key;
        value = value;
      } in
      let at = last_index_lem n.log s.some_entry size in
      let later : (e : LogEntry) → InLog n.log e → InLog (n.log ++ entry ∷ []) e =
        λ e h. unfold get_entry in get_elem?-more n.log e.index entry e h in
      let here : InLog (n.log ++ entry ∷ []) entry =
        unfold get_entry in ap (get_elem? (n.log ++ entry ∷ [])) at ∙ get_elem?-last n.log entry in
      rw leads (record {
        some_entry = omega (arith, length-append n.log (entry ∷ []));
        indexed = IsIndexed-snoc 0 n.log entry s.indexed (omega (arith, at));
        terms_ascend = IsSortedBy-snoc n.log entry s.terms_reached s.terms_ascend;
        terms_reached =
            All-append (λ e. e.term ≤ n.current_term) n.log (entry ∷ []) s.terms_reached
              (omega arith, tt);
        committing_logged =
            All-append (InLog (n.log ++ entry ∷ [])) n.committing (entry ∷ [])
              (All-weaken (InLog n.log) (InLog (n.log ++ entry ∷ [])) later n.committing
                s.committing_logged)
              (here, tt);
        queue_committed =
            All-weaken (IsCommitted n.log n.commit_index)
              (IsCommitted (n.log ++ entry ∷ []) n.commit_index) (λ e h. (later e h.0, h.1))
              n.apply_ch s.queue_committed;
        stored_committed =
            All-weaken (IsCommitted n.log n.commit_index)
              (IsCommitted (n.log ++ entry ∷ []) n.commit_index) (λ e h. (later e h.0, h.1))
              n.stored s.stored_committed;
        commit_logged = omega (arith, s.commit_logged, length-append n.log (entry ∷ []));
        applied_committed = s.applied_committed;
        leads_itself = s.leads_itself;
      })
]

commit_at-IsSound :
    (i : ℕ) (seen rest : List LogEntry) (n : Node)
    → All (InLog n.log) seen
    → All (InLog n.log) rest
    → IsSound n
    → IsSound (commit_at i seen rest n)
unfolding commit_at commit_entry
commit_at-IsSound i seen [] n before after s = s
commit_at-IsSound (suc i) seen (entry ∷ rest) n before after s =
    commit_at-IsSound i (seen ++ entry ∷ []) rest n
      (All-append (InLog n.log) seen (entry ∷ []) before (after.0, tt)) after.1 s
commit_at-IsSound zero seen (entry ∷ rest) n before after s =
    let commit = if ltb n.commit_index entry.index then entry.index else n.commit_index in
    let above : n.commit_index ≤ commit = ground arith in
    let reached : entry.index ≤ commit = ground arith in
    let inside : entry.index < length n.log =
      get_elem?-inside n.log entry.index entry (unfold get_entry in after.0) in
    let weaker : (e : LogEntry) → IsCommitted n.log n.commit_index e → IsCommitted n.log commit e =
      λ e h. (h.0, omega (arith, h.1, above)) in
    record {
      some_entry = s.some_entry;
      indexed = s.indexed;
      terms_ascend = s.terms_ascend;
      terms_reached = s.terms_reached;
      committing_logged = All-append (InLog n.log) seen rest before after.1;
      queue_committed =
          All-append (IsCommitted n.log commit) n.apply_ch (entry ∷ [])
            (All-weaken (IsCommitted n.log n.commit_index) (IsCommitted n.log commit) weaker
              n.apply_ch s.queue_committed)
            ((after.0, reached), tt);
      stored_committed =
          All-weaken (IsCommitted n.log n.commit_index) (IsCommitted n.log commit) weaker n.stored
            s.stored_committed;
      commit_logged = ground (arith, inside, s.commit_logged);
      applied_committed = omega (arith, s.applied_committed, above);
      leads_itself = s.leads_itself;
    }

store_entry-All :
    (P : LogEntry → Type 0) (e : LogEntry) (stored : List LogEntry)
    → P e
    → All P stored
    → All P (store_entry e stored)
unfolding store_entry
store_entry-All P e stored p h =
    elim (Bool-cases
      (str_eq e.command_type (units "PUT") || str_eq e.command_type (units "DELETE"))) [
        | inl command ↦ rw command (All-append P stored (e ∷ []) h (p, tt))
        | inr other ↦ rw other h
      ]

apply_from-IsSound :
    (queue : List LogEntry) (n : Node)
    → All (IsCommitted n.log n.commit_index) queue
    → IsSound n
    → IsSound (apply_from queue n)
unfolding apply_from
apply_from-IsSound [] n q s = s
apply_from-IsSound (entry ∷ rest) n q s = record {
  some_entry = s.some_entry;
  indexed = s.indexed;
  terms_ascend = s.terms_ascend;
  terms_reached = s.terms_reached;
  committing_logged = s.committing_logged;
  queue_committed = q.1;
  stored_committed =
      store_entry-All (IsCommitted n.log n.commit_index) entry n.stored q.0 s.stored_committed;
  commit_logged = s.commit_logged;
  applied_committed = q.0.1;
  leads_itself = s.leads_itself;
}

on_vote-IsSound : (i : ℕ) (n : Node) → IsSound n → IsSound (on_vote i n)
unfolding on_vote
on_vote-IsSound i n s = vote_at-IsSound i [] n.ballots n s

on_commit-IsSound : (i : ℕ) (n : Node) → IsSound n → IsSound (on_commit i n)
unfolding on_commit
on_commit-IsSound i n s = commit_at-IsSound i [] n.committing n tt s.committing_logged s

on_apply-IsSound : (n : Node) → IsSound n → IsSound (on_apply n)
unfolding on_apply
on_apply-IsSound n s = apply_from-IsSound n.apply_ch n s.queue_committed s

new_raft_node-IsSound :
    (node_id : List ℕ) (others : List (List ℕ)) → IsSound (new_raft_node node_id others)
unfolding new_raft_node new_replicated_log
new_raft_node-IsSound node_id others = record {
  some_entry = omega arith;
  indexed = (refl, tt);
  terms_ascend = (tt, tt);
  terms_reached = (omega arith, tt);
  committing_logged = tt;
  queue_committed = tt;
  stored_committed = tt;
  commit_logged = omega arith;
  applied_committed = omega arith;
  leads_itself = λ h. cc;
}

-- Whatever elections, votes, proposals, commits and rounds of the worker come, in any order and with
-- a log of less than 2 ^ 64 entries at each proposal: every entry of the log has the index of its
-- place, and the terms do not go back nor beyond the current one; every entry that is to be committed
-- or applied or was given to the storage is the entry of the log at its index; the commit index is
-- within the log and has reached all that was queued or stored and the index applied last; and a
-- leader names itself.
pub Reach-IsSound :
    (node_id : List ℕ) (others : List (List ℕ)) {n : Node} → Reach node_id others n → IsSound n
Reach-IsSound node_id others started = new_raft_node-IsSound node_id others
Reach-IsSound node_id others (times_out r) = on_timeout-IsSound _ (Reach-IsSound node_id others r)
Reach-IsSound node_id others (gets_vote i r) = on_vote-IsSound i _ (Reach-IsSound node_id others r)
Reach-IsSound node_id others (proposes command_type key value size r) =
    on_propose-IsSound command_type key value _ size (Reach-IsSound node_id others r)
Reach-IsSound node_id others (commits i r) = on_commit-IsSound i _ (Reach-IsSound node_id others r)
Reach-IsSound node_id others (applies r) = on_apply-IsSound _ (Reach-IsSound node_id others r)
