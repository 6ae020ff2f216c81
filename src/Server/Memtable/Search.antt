-- ===== src/Server/Memtable/Search.antt =====
-- The descent through the levels of go/pkg/lsm/skiplist.go ends where a walk along level 0 ends.
use info_crate.Common.{
  ℕ, zero, suc, ◌-◌, ◌<◌, ◌≡◌, refl, ap, ◌∙◌, sym, arith, true, List, [], ◌∷◌, ◌++◌, length, take,
  All, take-append, length-append, append_assoc, subst, if◌then◌else◌,
}
use info_crate.Text.{str_lt}
use info_crate.Text.Laws.{str_lt_trans}
use info_crate.Server.Memtable.{SkipListNode, forward, advance, descend, before}

abbrev pub KeyLt : SkipListNode → SkipListNode → Type 0
KeyLt a b = str_lt a.key b.key ≡ true

-- Keys ascend along level 0, and every node is on level 0.
abbrev pub IsChain : List SkipListNode → Type 0
IsChain [] = Unit
IsChain (n ∷ chain) = (0 < n.height) × All (KeyLt n) chain × IsChain chain

-- The walk along level 0: the nodes that are not below `key`, and those that are.
unfoldable pub seek : List ℕ → List SkipListNode → List SkipListNode
seek key [] = []
seek key (n ∷ chain) = if str_lt n.key key then seek key chain else n ∷ chain

unfoldable pub lower : List ℕ → List SkipListNode → List SkipListNode
lower key [] = []
lower key (n ∷ chain) = if str_lt n.key key then n ∷ lower key chain else []

All-middle :
    (P : SkipListNode → Type 0) (pre : List SkipListNode) (n : SkipListNode)
    (chain : List SkipListNode)
    → All P (pre ++ n ∷ chain)
    → P n
All-middle P [] n chain h = h.0
All-middle P (x ∷ pre) n chain h = All-middle P pre n chain h.1

seek-past :
    (key : List ℕ) (pre : List SkipListNode) (n : SkipListNode) (chain : List SkipListNode)
    → IsChain (pre ++ n ∷ chain)
    → str_lt n.key key ≡ true
    → seek key (pre ++ n ∷ chain) ≡ seek key chain
unfolding seek
seek-past key [] n chain c less = rw less refl
seek-past key (x ∷ pre) n chain c less =
    rw (str_lt_trans x.key n.key key (All-middle (KeyLt x) pre n chain c.1) less)
      (seek-past key pre n chain c.2 less)

-- On any level a walk stops nowhere behind the place that the walk on level 0 finds.
module _ (i : ℕ) (key : List ℕ) where
  seek-advance :
      (pre chain ahead : List SkipListNode)
      → pre ++ ahead ≡ chain
      → IsChain chain
      → IsChain ahead
      → seek key (advance i key chain ahead) ≡ seek key chain
  unfolding advance
  seek-advance pre chain [] e c d = refl
  seek-advance pre chain (n ∷ ahead) e c d =
      let past : str_lt n.key key ≡ true → seek key ahead ≡ seek key chain =
        λ less. sym (seek-past key pre n ahead (subst IsChain (sym e) c) less) ∙ ap (seek key) e in
      ground (
        arith,
        past,
        seek-advance [] ahead ahead refl d.2 d.2,
        seek-advance (pre ++ n ∷ []) chain ahead (append_assoc pre (n ∷ []) ahead ∙ e) c d.2,
      )

  advance-IsChain :
      (chain ahead : List SkipListNode)
      → IsChain chain
      → IsChain ahead
      → IsChain (advance i key chain ahead)
  unfolding advance
  advance-IsChain chain [] c d = c
  advance-IsChain chain (n ∷ ahead) c d =
      ground (arith, advance-IsChain ahead ahead d.2 d.2, advance-IsChain chain ahead c d.2)

advance-bottom :
    (key : List ℕ) (chain : List SkipListNode)
    → IsChain chain
    → advance 0 key chain chain ≡ seek key chain
unfolding advance seek
advance-bottom key [] c = refl
advance-bottom key (n ∷ chain) c = ground (arith, advance-bottom key chain c.2, c.0)

-- From a level above 0 the descent ends at the node of the key or where it belongs.
pub descend-seek :
    (l : ℕ) (key : List ℕ) (chain : List SkipListNode)
    → IsChain chain
    → descend (suc l) key chain ≡ seek key chain
unfolding descend
descend-seek zero key chain c = advance-bottom key chain c
descend-seek (suc l) key chain c =
    descend-seek l key (advance (suc l) key chain chain)
      (advance-IsChain (suc l) key chain chain c c)
    ∙ seek-advance (suc l) key [] chain chain refl c c

seek-IsChain : (key : List ℕ) (chain : List SkipListNode) → IsChain chain → IsChain (seek key chain)
unfolding seek
seek-IsChain key [] c = tt
seek-IsChain key (n ∷ chain) c = ground (arith, seek-IsChain key chain c.2, c)

pub forward-bottom : (chain : List SkipListNode) → IsChain chain → forward 0 chain ≡ chain
unfolding forward
forward-bottom [] c = refl
forward-bottom (n ∷ chain) c = ground (arith, c.0)

pub lower-append-seek :
    (key : List ℕ) (chain : List SkipListNode) → lower key chain ++ seek key chain ≡ chain
unfolding lower seek
lower-append-seek key [] = refl
lower-append-seek key (n ∷ chain) = ground (arith, lower-append-seek key chain)

pub place_lem :
    (l : ℕ) (key : List ℕ) (chain : List SkipListNode)
    → 0 < l
    → IsChain chain
    → forward 0 (descend l key chain) ≡ seek key chain
place_lem zero key chain h c = absurd (omega arith)
place_lem (suc l) key chain h c =
    ap (forward 0) (descend-seek l key chain c)
    ∙ forward-bottom (seek key chain) (seek-IsChain key chain c)

pub before-seek :
    (key : List ℕ) (nodes : List SkipListNode) → before nodes (seek key nodes) ≡ lower key nodes
unfolding before
before-seek key nodes =
    let split = lower-append-seek key nodes in
    let len : length nodes - length (seek key nodes) ≡ length (lower key nodes) = omega (
      arith,
      ap (length {A = SkipListNode}) split,
      length-append (lower key nodes) (seek key nodes),
    ) in
    ap (λ (k : ℕ). take k nodes) len
    ∙ ap (take (length (lower key nodes))) (sym split)
    ∙ take-append (lower key nodes) (seek key nodes)
