-- ===== src/Server/Router/Agrees.antt =====
-- The routes of go/pkg/shard/router.go next to those of the simulator (src/engine/clusterSimulator.ts).
use info_crate.Common.{
  ℕ, zero, suc, ◌%◌, ◌<◌, ◌≡◌, refl, ap, ◌∙◌, arith, false, Option, none, some, List, [], ◌∷◌, ◌++◌,
  ◌^◌, ◌*◌, bit_xor, sym, append-nil, append_assoc, length, get_elem?, set, All, length-set, ◌==◌,
}
use info_crate.Text.{JsString, encode, utf8_unit, utf8_point}
use info_crate.Hash.{fnv_step, fnv_loop, fnv1a64}
use info_crate.Cluster.{ClusterSimulator, get_shard_for_key}
use info_crate.Server.Router.{
  ShardInfo, Router, shards_from, new_router, get_shard_id_for_key, update_leader, register_node,
  get_shard,
}

-- FNV-1a of 64 bits as hash/fnv documents it: the offset basis for no bytes, and for each byte an
-- exclusive or and a product with the prime.
pub record IsFnv1a (sum64 : List ℕ → ℕ) : Type 0 where
  pub basis : sum64 [] ≡ 14695981039346656037
  pub byte :
      (bytes : List ℕ) (b : ℕ)
      → sum64 (bytes ++ b ∷ []) ≡ bit_xor (sum64 bytes) b * 1099511628211 % 2 ^ 64

-- The loop of the simulator goes on from any bytes.
fnv_loop_lem :
    (sum64 : List ℕ → ℕ) (fnv : IsFnv1a sum64) (before bytes : List ℕ)
    → fnv_loop (sum64 before) bytes ≡ sum64 (before ++ bytes)
unfolding fnv_loop fnv_step
fnv_loop_lem sum64 fnv before [] = ap sum64 (sym (append-nil before))
fnv_loop_lem sum64 fnv before (b ∷ bytes) =
    ap (λ (hash : ℕ). fnv_loop hash bytes) (sym (fnv.byte before b))
    ∙ fnv_loop_lem sum64 fnv (before ++ b ∷ []) bytes
    ∙ ap sum64 (append_assoc before (b ∷ []) bytes)

fnv1a64_lem : (sum64 : List ℕ → ℕ) → IsFnv1a sum64 → (bytes : List ℕ) → sum64 bytes ≡ fnv1a64 bytes
unfolding fnv1a64
fnv1a64_lem sum64 fnv bytes =
    sym (fnv_loop_lem sum64 fnv [] bytes) ∙ ap (λ (hash : ℕ). fnv_loop hash bytes) fnv.basis

-- A key of plain ASCII is its own encoding.
encode-ascii : (key : JsString) → All (λ c. c < 128) key → encode key ≡ key
unfolding encode utf8_unit utf8_point
encode-ascii [] h = refl
encode-ascii (c ∷ []) h = ground (arith, h.0)
encode-ascii (c ∷ d ∷ key) h = ground (arith, h.0, encode-ascii (d ∷ key) h.1)

pub data RouterCall : Type 0 where
  call_leader : ℕ → List ℕ → RouterCall
  call_node : ℕ → List ℕ → RouterCall

unfoldable pub run : List RouterCall → Router → Router
run [] r = r
run (call_leader i leader_id ∷ calls) r = run calls (update_leader i leader_id r)
run (call_node i node_id ∷ calls) r = run calls (register_node i node_id r)

-- There is a shard for each index below the number of shards.
pub record IsWhole (n : ℕ) (r : Router) : Type 0 where
  pub total : r.total_shards ≡ n
  pub listed : length r.shards ≡ n

update_leader-IsWhole :
    (n i : ℕ) (leader_id : List ℕ) (r : Router)
    → IsWhole n r
    → IsWhole n (update_leader i leader_id r)
unfolding update_leader
update_leader-IsWhole n i leader_id r w = changed (get_elem? r.shards i)
  where
    changed :
        (o : Option ShardInfo)
        → IsWhole n (elim o [
          | none ↦ r
          | some s ↦ record r { shards = set r.shards i (record s { leader_id = leader_id }) }
        ])
    changed none = w
    changed (some s) = record {
      total = w.total;
      listed = length-set r.shards i (record s { leader_id = leader_id }) ∙ w.listed;
    }

register_node-IsWhole :
    (n i : ℕ) (node_id : List ℕ) (r : Router) → IsWhole n r → IsWhole n (register_node i node_id r)
unfolding register_node
register_node-IsWhole n i node_id r w = changed (get_elem? r.shards i)
  where
    changed :
        (o : Option ShardInfo)
        → IsWhole n (elim o [
          | none ↦ r
          | some s ↦ record r {
            shards = set r.shards i (record s { nodes = s.nodes ++ node_id ∷ [] });
          }
        ])
    changed none = w
    changed (some s) = record {
      total = w.total;
      listed = length-set r.shards i (record s { nodes = s.nodes ++ node_id ∷ [] }) ∙ w.listed;
    }

run-IsWhole : (n : ℕ) (calls : List RouterCall) (r : Router) → IsWhole n r → IsWhole n (run calls r)
unfolding run
run-IsWhole n [] r w = w
run-IsWhole n (call_leader i leader_id ∷ calls) r w =
    run-IsWhole n calls _ (update_leader-IsWhole n i leader_id r w)
run-IsWhole n (call_node i node_id ∷ calls) r w =
    run-IsWhole n calls _ (register_node-IsWhole n i node_id r w)

length-shards_from : (n i : ℕ) → length (shards_from n i) ≡ n
unfolding shards_from
length-shards_from zero i = refl
length-shards_from (suc n) i = ap suc (length-shards_from n (suc i))

new_router-IsWhole : (n : ℕ) → 0 < n → IsWhole n (new_router n)
unfolding new_router
new_router-IsWhole n h =
    let some_shards : (n == 0) ≡ false = ground arith in
    rw some_shards (record { total = refl; listed = length-shards_from n 0 })

get_elem?-lt :
    (shards : List ShardInfo) (i : ℕ)
    → i < length shards
    → (s : ShardInfo) × (get_elem? shards i ≡ some s)
get_elem?-lt [] i h = elim h [ ]
get_elem?-lt (s ∷ shards) zero h = (s, refl)
get_elem?-lt (s ∷ shards) (suc i) h = get_elem?-lt shards i (omega arith)

-- Where hash/fnv computes the FNV-1a that it documents, a router with as many shards as the
-- simulated cluster, one at least, whatever leaders and nodes it was told of: a key of ASCII
-- characters goes to the shard of the same number in both, and the router has that shard.
pub get_shard_id_for_key-agrees :
    (sum64 : List ℕ → ℕ) (calls : List RouterCall) (s : ClusterSimulator) (key : JsString)
    → IsFnv1a sum64
    → 0 < length s.shards
    → All (λ c. c < 128) key
    → (get_shard_id_for_key sum64 (run calls (new_router (length s.shards))) (encode key)
        ≡ get_shard_for_key s key)
      × (info : ShardInfo) × (get_shard
            (get_shard_for_key s key)
            (run calls (new_router (length s.shards)))
          ≡ some info)
get_shard_id_for_key-agrees sum64 calls s key fnv some_shards ascii =
    let w =
      run-IsWhole (length s.shards) calls _ (new_router-IsWhole (length s.shards) some_shards) in
    let found =
      get_elem?-lt (run calls (new_router (length s.shards))).shards (fnv1a64 key % length s.shards)
        (omega (arith, w.listed)) in
    unfold get_shard_id_for_key get_shard_for_key get_shard in
    (rw (w.total, encode-ascii key ascii, fnv1a64_lem sum64 fnv key) refl, found.0, found.1)
