-- ===== src/Views/QueryConsole.antt =====
-- What src/components/QueryConsole.tsx renders, and what its controls do.
use info_crate.Common.{
  ℕ, ◌+◌, Bool, true, false, Option, none, some, List, [], ◌∷◌, ◌++◌, length, map, take, leb,
  get_elem?, if◌then◌else◌, Ordering,
}
use info_crate.Text.{JsString, units, trim, encode, str_eq}
use info_crate.Text.Format.{to_string}
use info_crate.Cluster.{
  Command, put, get, delete, ShardState, ExecutionStep, QueryResult, ClusterSimulator,
}
use info_crate.Cluster.Query.{QueryInput}
use info_crate.Console.{
  Console, hash_val, target_shard, current_leader, handle_execute, load_sample,
}
use info_crate.Views.{
  Item, shows, text, number, hundredths, step_text, button, field, str, label, each, only,
}

-- The component's state when it is mounted.
unfoldable pub first_console : List QueryResult → Console
first_console query_history = record {
  command = put;
  key = units "user:1005";
  value =
      units
        "{\n  \"name\": \"Eve Developer\",\n  \"team\": \"Distributed Systems\",\n  \"status\": \"Active\"\n}";
  active_result = get_elem? query_history 0;
}

pub data ConsoleAction : Type 0 where
  set_command : Command → ConsoleAction
  set_key : JsString → ConsoleAction
  set_value : JsString → ConsoleAction
  execute : ConsoleAction
  load : Command → JsString → Option JsString → ConsoleAction
  set_active_result : QueryResult → ConsoleAction

-- What a control does to the component's state and to the cluster.
module _ (collate : JsString → JsString → Ordering) (input : QueryInput) where
  unfoldable pub act_console :
      ConsoleAction → Console → ClusterSimulator → Option (Console × ClusterSimulator)
  act_console (set_command c) console s = some (record console { command = c }, s)
  act_console (set_key key) console s = some (record console { key = key }, s)
  act_console (set_value value) console s = some (record console { value = value }, s)
  act_console execute console s = handle_execute collate input console s
  act_console (load cmd key sample) console s = some (load_sample console cmd key sample, s)
  act_console (set_active_result q) console s = some (record console { active_result = some q }, s)

-- `n.toString(16)`, in small letters.
abbrev pub small_letter : ℕ → ℕ
small_letter c = if leb 65 c then c + 32 else c

abbrev pub hash_prefix : JsString → JsString
hash_prefix key = take 10 (map small_letter (to_string 16 (hash_val (trim key))))

abbrev pub is_command : Command → Command → Bool
is_command put put = true
is_command get get = true
is_command delete delete = true
is_command a b = false

abbrev pub command_name : Command → JsString
command_name put = units "PUT"
command_name get = units "GET"
command_name delete = units "DELETE"

unfoldable pub route_preview : List ShardState → Console → List (Item ConsoleAction)
route_preview shards console =
    label "gRPC Client"
    ∷ label "/"
    ∷ label "Cluster Request Router"
    ∷ label
        "Deterministic 64-bit hashing routes requests directly to the authoritative Raft shard leader."
    ∷ label "FNV-1a:"
    ∷ shows (text (hash_prefix console.key))
    ∷ label "..."
    ∷ label "Target:"
    ∷ label "Shard "
    ∷ shows (number (target_shard shards console.key))
    ∷ label "Leader:"
    ∷ shows (text (current_leader shards console.key))
    ∷ []

unfoldable pub request_form : Console → List (Item ConsoleAction)
request_form console =
    label "Execute Request"
      ∷ label "Proto3 gRPC Service"
      ∷ label "Command Method"
      ∷ button (is_command console.command put) (set_command put) (str "PUT(key, value)" ∷ [])
      ∷ button (is_command console.command get) (set_command get) (str "GET(key)" ∷ [])
      ∷ button (is_command console.command delete) (set_command delete) (str "DELETE(key)" ∷ [])
      ∷ label "Key Identifier"
      ∷ field console.key set_key
      ∷ only (is_command console.command put) (
          label "Value Payload (JSON / Binary Bytes)"
          ∷ shows (number (length (encode console.value)))
          ∷ label " bytes"
          ∷ field console.value set_value
          ∷ [])
    ++ button true execute
        (str "Send gRPC " ∷ text (command_name console.command) ∷ str " Request" ∷ [])
      ∷ []

unfoldable pub sample_records : List (Item ConsoleAction)
sample_records =
    label "Sample Test Records"
    ∷ button false
        (load put (units "user:1001")
          (some (units "{\"name\":\"Alice\",\"role\":\"Admin\",\"tier\":\"Enterprise\"}")))
        (str "PUT user:1001 (S0)" ∷ [])
    ∷ button false
        (load put (units "user:1002")
          (some (units "{\"name\":\"Bob\",\"role\":\"Architect\",\"tier\":\"Enterprise\"}")))
        (str "PUT user:1002 (S1)" ∷ [])
    ∷ button false (load get (units "user:1001") none) (str "GET user:1001" ∷ [])
    ∷ button false (load delete (units "user:1003") none) (str "DELETE user:1003" ∷ [])
    ∷ []

-- `activeResult?.id === q.id`
abbrev pub is_active : Option QueryResult → QueryResult → Bool
is_active none q = false
is_active (some r) q = str_eq r.id q.id

abbrev pub history_row : Option QueryResult → QueryResult → List (Item ConsoleAction)
history_row active_result q =
    button (is_active active_result q) (set_active_result q) (
      text (command_name q.command)
      ∷ text q.key
      ∷ str "(S"
      ∷ number q.shard_index
      ∷ str " → "
      ∷ text q.target_node_id
      ∷ str ")"
      ∷ hundredths q.latency
      ∷ str "ms"
      ∷ [])
    ∷ []

-- The rows, or a line that says that there are none.
abbrev pub history_rows : Option QueryResult → List QueryResult → List (Item ConsoleAction)
history_rows active_result [] = label "No queries executed yet." ∷ []
history_rows active_result (q ∷ history) = each (history_row active_result) (q ∷ history)

unfoldable pub history_log : List QueryResult → Option QueryResult → List (Item ConsoleAction)
history_log query_history active_result =
    label "Execution History"
    ∷ shows (number (length query_history))
    ∷ label " requests"
    ∷ history_rows active_result query_history

abbrev pub found_text : Option Bool → List (Item ConsoleAction)
found_text none = []
found_text (some true) = label "(Key Found)" ∷ []
found_text (some false) = label "(Key Not Found / 404)" ∷ []

-- `activeResult.value && …`
abbrev pub value_payload : Option JsString → List (Item ConsoleAction)
value_payload none = []
value_payload (some []) = []
value_payload (some (c ∷ value)) = label "Response Data Payload:" ∷ shows (text (c ∷ value)) ∷ []

abbrev pub step_row : ExecutionStep → List (Item ConsoleAction)
step_row step = shows (number step.step_number) ∷ shows (step_text step.text) ∷ []

unfoldable pub trace_of : QueryResult → List (Item ConsoleAction)
trace_of r =
    label (if r.success then "Status: 200 OK" else "Status: RPC Error") ∷ found_text r.found
    ++ label "Shard "
      ∷ shows (number r.shard_index)
      ∷ label " • Leader "
      ∷ shows (text r.leader_id)
      ∷ value_payload r.value
    ++ label "Protocol Stages" ∷ each step_row r.steps

abbrev pub latency_badge : Option QueryResult → List (Item ConsoleAction)
latency_badge none = []
latency_badge (some r) = shows (hundredths r.latency) ∷ label " ms" ∷ []

abbrev pub trace : Option QueryResult → List (Item ConsoleAction)
trace none =
    label "No Query Selected"
    ∷ label "Execute a PUT or GET request above to inspect the linearizable consensus trace."
    ∷ []
trace (some r) = trace_of r

unfoldable pub execution_trace : Option QueryResult → List (Item ConsoleAction)
execution_trace active_result =
    label "Linearizable Execution Trace"
      ∷ label "Consensus replication & LSM storage engine lifecycle"
      ∷ latency_badge active_result
    ++ trace active_result

unfoldable pub query_console :
    List ShardState → List QueryResult → Console → List (Item ConsoleAction)
query_console shards query_history console =
    route_preview shards console
    ++ request_form console
    ++ sample_records
    ++ history_log query_history console.active_result
    ++ execution_trace console.active_result
