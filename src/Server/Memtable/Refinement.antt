-- ===== src/Server/Memtable/Refinement.antt =====
-- The skip list of go/pkg/lsm/skiplist.go is a map.
use info_crate.Common.{
  ◌≢◌, ℕ, ◌≡◌, refl, ap, ◌∙◌, sym, arith, Bool, true, false, Option, none, some, List, [], ◌∷◌, map,
  if◌then◌else◌,
}
use info_crate.Text.{str_eq}
use info_crate.Server.Memtable.{SkipListNode, Memtable, new_memtable, get, entry_of, entries_from}
use info_crate.Server.Memtable.Search.{IsChain}
use info_crate.Server.Memtable.Place.{place, view, view-place, answer-seek}
use info_crate.Server.Memtable.Valid.{
  IsValid, MemOp, apply, node_of, find_place_lem, apply_lem, new_memtable-IsValid,
}

pub get-view : (q : List ℕ) (m : Memtable) → IsValid m → get q m ≡ view q m.nodes
unfolding get
get-view q m v = rw (find_place_lem q m v) (answer-seek q m.nodes v.chain)

-- On a valid memtable `AllEntries` copies every node, in the order of the keys.
pub entries_from_lem :
    (chain : List SkipListNode) → IsChain chain → entries_from chain ≡ map entry_of chain
unfolding entries_from
entries_from_lem [] c = refl
entries_from_lem (n ∷ chain) c = ground (arith, entries_from_lem chain c.2, c.0)

-- One call, seen through `Get`.
pub get-apply :
    (q : List ℕ) (op : MemOp) (m : Memtable)
    → IsValid m
    → get q (apply op m) ≡ (
        if str_eq (node_of op).key q
        then some (if (node_of op).is_tombstone then ([], true) else ((node_of op).value, false))
        else get q m)
get-apply q op m v =
    let step = apply_lem op m v in
    get-view q (apply op m) step.0
    ∙ ap (view q) step.1
    ∙ view-place q (node_of op) m.nodes
    ∙ ap
        (λ (o : Option (List ℕ × Bool)).
          if str_eq (node_of op).key q
          then some (if (node_of op).is_tombstone then ([], true) else ((node_of op).value, false))
          else o)
        (sym (get-view q m v))

pub get-new_memtable : (q : List ℕ) → get q new_memtable ≡ none
get-new_memtable q = get-view q new_memtable new_memtable-IsValid ∙ unfold view new_memtable in refl

place-full : (n : SkipListNode) (nodes : List SkipListNode) → place n nodes ≢ []
unfolding place
place-full n [] = λ h. cc
place-full n (x ∷ xs) = λ h. ground arith

-- A call leaves a node.
pub apply-full : (op : MemOp) (m : Memtable) → IsValid m → (apply op m).nodes ≢ []
apply-full op m v = λ h. place-full (node_of op) m.nodes (sym (apply_lem op m v).1 ∙ h)
