-- ===== src/Server/Router.antt =====
-- The router of go/pkg/shard/router.go. The shards stand in a list by their index, which is the key
-- of the source's map. `Sum64` of `fnv.New64a`, of the package hash/fnv, is an argument.
pub mod Agrees
use info_crate.Common.{
  ℕ, zero, suc, ◌%◌, Option, none, some, List, [], ◌∷◌, ◌++◌, get_elem?, set, ◌==◌, if◌then◌else◌,
}
use info_crate.Text.{JsString, units}
use info_crate.Text.Format.{to_string}

pub record ShardInfo : Type 0 where
  pub shard_id : List ℕ
  pub leader_id : List ℕ
  pub nodes : List (List ℕ)

pub record Router : Type 0 where
  pub total_shards : ℕ
  pub shards : List ShardInfo

-- The shards from `i` on, `n` of them.
unfoldable pub shards_from : ℕ → ℕ → List ShardInfo
shards_from zero i = []
shards_from (suc n) i =
    record { shard_id = units "shard-" ++ to_string 10 i; leader_id = []; nodes = [] }
    ∷ shards_from n (suc i)

-- `NewRouter`; a number that is not positive stands for 1.
unfoldable pub new_router : ℕ → Router
unfolding shards_from
new_router total_shards =
    let n = if total_shards == 0 then 1 else total_shards in
    record { total_shards = n; shards = shards_from n 0 }

-- `GetShardIDForKey`, on the bytes of the key.
unfoldable pub get_shard_id_for_key : (List ℕ → ℕ) → Router → List ℕ → ℕ
get_shard_id_for_key sum64 r key = sum64 key % r.total_shards

-- `UpdateLeader`
unfoldable pub update_leader : ℕ → List ℕ → Router → Router
update_leader shard_idx leader_id r = elim (get_elem? r.shards shard_idx) [
  | none ↦ r
  | some s ↦ record r { shards = set r.shards shard_idx (record s { leader_id = leader_id }) }
]

-- `RegisterNode`
unfoldable pub register_node : ℕ → List ℕ → Router → Router
register_node shard_idx node_id r = elim (get_elem? r.shards shard_idx) [
  | none ↦ r
  | some s ↦ record r {
    shards = set r.shards shard_idx (record s { nodes = s.nodes ++ node_id ∷ [] });
  }
]

-- `GetShard`
unfoldable pub get_shard : ℕ → Router → Option ShardInfo
get_shard shard_idx r = get_elem? r.shards shard_idx
