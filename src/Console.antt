-- ===== src/Console.antt =====
-- The query console, src/components/QueryConsole.tsx: the route that it shows for the key in its
-- field, and the handlers of its form.
pub mod Shown
use info_crate.Common.{ℕ, ◌%◌, Bool, Option, none, some, List, [], ◌∷◌, length, get_elem?, Ordering}
use info_crate.Text.{JsString, units, trim}
use info_crate.Hash.{fnv1a64}
use info_crate.Cluster.{Command, put, get, delete, ShardState, QueryResult, ClusterSimulator}
use info_crate.Cluster.Query.{QueryInput}
use info_crate.Cluster.Query.Apply.{execute_query}

pub record Console : Type 0 where
  pub command : Command
  pub key : JsString
  pub value : JsString
  pub active_result : Option QueryResult

-- `key.trim() ? fnv1a64(key.trim()) : 0n`
unfoldable pub hash_val : JsString → ℕ
hash_val [] = 0
hash_val (c ∷ key) = fnv1a64 (c ∷ key)

-- `shards.length || 1`
abbrev pub length_or_one : ℕ → ℕ
length_or_one ℕ.zero = 1
length_or_one (ℕ.suc n) = ℕ.suc n

unfoldable pub target_shard : List ShardState → JsString → ℕ
target_shard shards key = hash_val (trim key) % length_or_one (length shards)

abbrev pub leader_or : Option JsString → JsString
leader_or none = units "None (No Quorum)"
leader_or (some []) = units "None (No Quorum)"
leader_or (some (c ∷ id)) = c ∷ id

unfoldable pub current_leader : List ShardState → JsString → JsString
current_leader shards key = elim (get_elem? shards (target_shard shards key)) [
  | none ↦ units "None (No Quorum)"
  | some shard ↦ leader_or shard.leader_id
]

-- `command === 'PUT' ? value.trim() : null`
abbrev pub sent_value : Command → JsString → Option JsString
sent_value put value = some (trim value)
sent_value get value = none
sent_value delete value = none

module _ (collate : JsString → JsString → Ordering) (input : QueryInput) where
  -- The form with the trimmed key: nothing happens for a blank one.
  unfoldable pub submit :
      Console → ClusterSimulator → JsString → Option (Console × ClusterSimulator)
  submit console s [] = some (console, s)
  submit console s (c ∷ key) =
      elim (execute_query collate input s console.command (c ∷ key)
        (sent_value console.command console.value)) [
          | none ↦ none
          | some (res, after) ↦ some (record console { active_result = some res }, after)
        ]

  unfoldable pub handle_execute : Console → ClusterSimulator → Option (Console × ClusterSimulator)
  handle_execute console s = submit console s (trim console.key)

-- `if (sampleVal) setValue(sampleVal)`
abbrev pub sample_or : JsString → Option JsString → JsString
sample_or value none = value
sample_or value (some []) = value
sample_or value (some (c ∷ sample)) = c ∷ sample

unfoldable pub load_sample : Console → Command → JsString → Option JsString → Console
load_sample console command key sample = record console {
  command = command;
  key = key;
  value = sample_or console.value sample;
}
