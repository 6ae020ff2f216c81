-- ===== src/Server/Raft.antt =====
-- The log of go/pkg/raft/log.go and the node of go/pkg/raft/node.go, whose calls to its peers return
-- true at once. The parts under the lock are the steps; a goroutine that has not come to its part yet
-- stands in a list. Timers only choose the step, and the storage is the sequence of calls on it.
pub mod Log
pub mod Invariant
pub mod Elections
pub mod Sound
use info_crate.Common.{
  ℕ, zero, suc, ◌+◌, ◌-◌, ◌/◌, Bool, true, false, ◌&&◌, ◌||◌, Option, none, some, List, [], ◌∷◌,
  ◌++◌, map, length, ltb, leb, ◌==◌, if◌then◌else◌,
}
use info_crate.Text.{units, str_eq}
use info_crate.Server.Raft.Log.{LogEntry, new_replicated_log, append, last_index}

pub data Role : Type 0 where
  role_follower role_candidate role_leader : Role

pub record RaftPeer : Type 0 where
  pub id : List ℕ
  pub next_index : ℕ
  pub match_index : ℕ

-- The votes of an election, in the variable that its goroutines share, and how many have not come.
pub record Ballot : Type 0 where
  pub term : ℕ
  pub votes_granted : ℕ
  pub coming : ℕ

pub record Node : Type 0 where
  pub node_id : List ℕ
  pub role : Role
  pub current_term : ℕ
  pub voted_for : List ℕ
  pub leader_id : List ℕ
  pub log : List LogEntry
  pub commit_index : ℕ
  pub last_applied : ℕ
  pub peers : List RaftPeer
  pub is_paused : Bool
  pub ballots : List Ballot
  pub committing : List LogEntry
  pub apply_ch : List LogEntry
  pub stored : List LogEntry

unfoldable pub new_peer : List ℕ → RaftPeer
new_peer id = record { id = id; next_index = 1; match_index = 0 }

-- `NewNode`, with the other nodes of the group.
unfoldable pub new_raft_node : List ℕ → List (List ℕ) → Node
unfolding new_peer
new_raft_node node_id others = record {
  node_id = node_id;
  role = role_follower;
  current_term = 0;
  voted_for = [];
  leader_id = [];
  log = new_replicated_log;
  commit_index = 0;
  last_applied = 0;
  peers = map new_peer others;
  is_paused = false;
  ballots = [];
  committing = [];
  apply_ch = [];
  stored = [];
}

abbrev pub is_leader_role : Role → Bool
is_leader_role role_leader = true
is_leader_role r = false

abbrev pub is_candidate_role : Role → Bool
is_candidate_role role_candidate = true
is_candidate_role r = false

abbrev pub raft_quorum : Node → ℕ
raft_quorum n = (length n.peers + 1) / 2 + 1

-- `becomeLeader`; the heartbeats change nothing.
unfoldable pub become_leader : Node → Node
become_leader n = record n {
  role = role_leader;
  leader_id = n.node_id;
  peers =
      map (λ (p : RaftPeer). record p { next_index = last_index n.log + 1; match_index = 0 })
        n.peers;
}

-- `startElection`
unfoldable pub start_election : Node → Node
unfolding become_leader
start_election n =
    let asked = record n {
      role = role_candidate;
      current_term = n.current_term + 1;
      voted_for = n.node_id;
      leader_id = [];
    } in
    if leb (raft_quorum n) 1 then become_leader asked else record asked {
      ballots =
          n.ballots
          ++ record { term = n.current_term + 1; votes_granted = 1; coming = length n.peers } ∷ [];
    }

-- The election timer.
unfoldable pub on_timeout : Node → Node
unfolding start_election
on_timeout n = if is_leader_role n.role then n else if n.is_paused then n else start_election n

-- A vote that was granted, under the lock: the node and the votes.
unfoldable pub count_vote : Ballot → Node → Node × ℕ
unfolding become_leader
count_vote b n =
    let votes = b.votes_granted + 1 in
    if is_candidate_role n.role && n.current_term == b.term
    then (if leb (raft_quorum n) votes then become_leader n else n, votes)
    else (n, b.votes_granted)

-- One of the goroutines of the first ballot of `rest` gets its vote; `seen` are the ballots before.
unfoldable pub vote_at : ℕ → List Ballot → List Ballot → Node → Node
unfolding count_vote
vote_at i seen [] n = n
vote_at zero seen (b ∷ rest) n =
    let counted = count_vote b n in
    let after = record b { votes_granted = counted.1; coming = b.coming - 1 } in
    if b.coming == 0 then n else record counted.0 { ballots = seen ++ after ∷ rest }
vote_at (suc i) seen (b ∷ rest) n = vote_at i (seen ++ b ∷ []) rest n

unfoldable pub on_vote : ℕ → Node → Node
unfolding vote_at
on_vote i n = vote_at i [] n.ballots n

-- A proposal: the node, and whether it was taken.
unfoldable pub on_propose : List ℕ → List ℕ → List ℕ → Node → Node × Bool
unfolding append
on_propose command_type key value n =
    let entry : LogEntry = record {
      term = n.current_term;
      index = last_index n.log + 1;
      command_type = command_type;
      key = key;
      value = value;
    } in
    if is_leader_role n.role
    then (record n { log = append n.log entry; committing = n.committing ++ entry ∷ [] }, true)
    else (n, false)

-- `commitEntry`
unfoldable pub commit_entry : LogEntry → Node → Node
commit_entry entry n = record n {
  commit_index = if ltb n.commit_index entry.index then entry.index else n.commit_index;
  apply_ch = n.apply_ch ++ entry ∷ [];
}

-- The end of `replicateAndCommit` in one of the goroutines, whose acknowledgements have all come.
unfoldable pub commit_at : ℕ → List LogEntry → List LogEntry → Node → Node
unfolding commit_entry
commit_at i seen [] n = n
commit_at zero seen (entry ∷ rest) n = record (commit_entry entry n) { committing = seen ++ rest }
commit_at (suc i) seen (entry ∷ rest) n = commit_at i (seen ++ entry ∷ []) rest n

unfoldable pub on_commit : ℕ → Node → Node
unfolding commit_at
on_commit i n = commit_at i [] n.committing n

-- The storage is called for two types of commands.
unfoldable pub store_entry : LogEntry → List LogEntry → List LogEntry
store_entry entry stored =
    if str_eq entry.command_type (units "PUT") || str_eq entry.command_type (units "DELETE")
    then stored ++ entry ∷ []
    else stored

-- A round of `applyWorker`.
unfoldable pub apply_from : List LogEntry → Node → Node
unfolding store_entry
apply_from [] n = n
apply_from (entry ∷ rest) n = record n {
  apply_ch = rest;
  stored = store_entry entry n.stored;
  last_applied = entry.index;
}

unfoldable pub on_apply : Node → Node
unfolding apply_from
on_apply n = apply_from n.apply_ch n
