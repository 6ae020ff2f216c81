-- ===== src/Server/Raft/Elections.antt =====
-- Elections of a node of go/pkg/raft/node.go keep its invariant.
use info_crate.Common.{
  ℕ, zero, suc, ◌+◌, ◌≤◌, ◌≡◌, refl, arith, true, List, [], ◌∷◌, ◌++◌, leb, ◌==◌, Bool-cases, inl,
  inr,
}
use info_crate.Server.Raft.{
  Role, RaftPeer, Ballot, Node, is_leader_role, raft_quorum, become_leader, start_election,
  on_timeout, count_vote, vote_at,
}
use info_crate.Server.Raft.Invariant.{IsSound, All-weaken}

-- An election touches neither the log nor what is committed.
module _ (n : Node) (s : IsSound n) where
  elected-IsSound :
      (role : Role) (term : ℕ) (voted_for leader_id : List ℕ) (peers : List RaftPeer)
      (ballots : List Ballot)
      → n.current_term ≤ term
      → (is_leader_role role ≡ true → leader_id ≡ n.node_id)
      → IsSound (record n {
        role = role;
        current_term = term;
        voted_for = voted_for;
        leader_id = leader_id;
        peers = peers;
        ballots = ballots;
      })
  elected-IsSound role term voted_for leader_id peers ballots later leads = record {
    some_entry = s.some_entry;
    indexed = s.indexed;
    terms_ascend = s.terms_ascend;
    terms_reached =
        All-weaken (λ e. e.term ≤ n.current_term) (λ e. e.term ≤ term)
          (λ e h. omega (arith, h, later)) n.log s.terms_reached;
    committing_logged = s.committing_logged;
    queue_committed = s.queue_committed;
    stored_committed = s.stored_committed;
    commit_logged = s.commit_logged;
    applied_committed = s.applied_committed;
    leads_itself = leads;
  }

  ballots-IsSound : (ballots : List Ballot) → IsSound (record n { ballots = ballots })
  ballots-IsSound ballots =
      elected-IsSound n.role n.current_term n.voted_for n.leader_id n.peers ballots (omega arith)
        s.leads_itself

  become_leader-IsSound : IsSound (become_leader n)
  unfolding become_leader
  become_leader-IsSound =
      elected-IsSound Role.role_leader n.current_term n.voted_for n.node_id _ n.ballots
        (omega arith) (λ h. refl)

  candidate-IsSound : IsSound (record n {
    role = Role.role_candidate;
    current_term = n.current_term + 1;
    voted_for = n.node_id;
    leader_id = [];
  })
  candidate-IsSound =
      elected-IsSound Role.role_candidate (n.current_term + 1) n.node_id [] n.peers n.ballots
        (omega arith) (λ h. cc)

start_election-IsSound : (n : Node) → IsSound n → IsSound (start_election n)
unfolding start_election
start_election-IsSound n s = elim (Bool-cases (leb (raft_quorum n) 1)) [
  | inl alone ↦ rw alone (become_leader-IsSound _ (candidate-IsSound n s))
  | inr others ↦ rw others (ballots-IsSound _ (candidate-IsSound n s) _)
]

pub on_timeout-IsSound : (n : Node) → IsSound n → IsSound (on_timeout n)
unfolding on_timeout
on_timeout-IsSound n s = ground (arith, start_election-IsSound n s)

count_vote-IsSound : (b : Ballot) (n : Node) → IsSound n → IsSound (count_vote b n).0
unfolding count_vote
count_vote-IsSound b n s = ground (arith, become_leader-IsSound n s)

pub vote_at-IsSound :
    (i : ℕ) (seen rest : List Ballot) (n : Node) → IsSound n → IsSound (vote_at i seen rest n)
unfolding vote_at
vote_at-IsSound i seen [] n s = s
vote_at-IsSound zero seen (b ∷ rest) n s = elim (Bool-cases (b.coming == 0)) [
  | inl all_came ↦ rw all_came s
  | inr coming ↦ rw coming (ballots-IsSound _ (count_vote-IsSound b n s) _)
]
vote_at-IsSound (suc i) seen (b ∷ rest) n s = vote_at-IsSound i (seen ++ b ∷ []) rest n s
