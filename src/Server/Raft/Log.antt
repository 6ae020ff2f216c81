-- ===== src/Server/Raft/Log.antt =====
-- The replicated log of go/pkg/raft/log.go.
use info_crate.Common.{
  ℕ, ◌+◌, ◌-◌, ◌^◌, ◌%◌, Option, List, [], ◌∷◌, ◌++◌, length, take, drop, get_elem?, ltb, leb,
  if◌then◌else◌,
}

pub record LogEntry : Type 0 where
  pub term : ℕ
  pub index : ℕ
  pub command_type : List ℕ
  pub key : List ℕ
  pub value : List ℕ

-- `NewReplicatedLog`: an entry of index 0, which is no command.
unfoldable pub new_replicated_log : List LogEntry
new_replicated_log = record { term = 0; index = 0; command_type = []; key = []; value = [] } ∷ []

-- `Append`
unfoldable pub append : List LogEntry → LogEntry → List LogEntry
append log entry = log ++ entry ∷ []

-- `TruncateFrom`
unfoldable pub truncate_from : ℕ → List LogEntry → List LogEntry
truncate_from index log = if ltb index (length log) then take index log else log

-- `GetEntry`
unfoldable pub get_entry : ℕ → List LogEntry → Option LogEntry
get_entry index log = get_elem? log index

-- `GetEntriesFrom`
unfoldable pub get_entries_from : ℕ → List LogEntry → List LogEntry
get_entries_from index log = if leb (length log) index then [] else drop index log

-- `LastIndex`, in 64 bits.
unfoldable pub last_index : List LogEntry → ℕ
last_index log = (length log + (2 ^ 64 - 1)) % 2 ^ 64
