-- ===== src/Lsm/Recent.antt =====
-- Entries of which the later ones stand first, and sorting, appending and setting such entries.
use info_crate.Common.{
  ℕ, ◌≤◌, ◌≡◌, ◌≢◌, refl, ◌∙◌, arith, true, none, List, [], ◌∷◌, ◌++◌, map, All, All-append,
  Bool-cases, inl, inr, Ordering,
}
use info_crate.Text.{JsString, str_eq}
use info_crate.Text.Laws.{str_eq_iff}
use info_crate.Sort.{insert_by, sort_by}
use info_crate.Dict
use info_crate.Dict.{Dict}
use info_crate.Dict.Laws.{Distinct}
use info_crate.SsTable.{Entry, find_entry}
use info_crate.Lsm.{MemEntry, mem_entry}
use info_crate.Lsm.Sorted.{IsRecent, find_entry-insert_by}
use info_crate.Sort.Sorted.{insert_by_gt, insert_by_le, gt-or-ne}

-- No key twice.
abbrev NoTwice : List Entry → Type 0
NoTwice [] = Unit
NoTwice (x ∷ xs) = (find_entry x.key xs ≡ none) × NoTwice xs

absent :
    (q : JsString) (m : Dict MemEntry) → Dict.get q m ≡ none → find_entry q (map mem_entry m) ≡ none
unfolding Dict.get
absent q [] h = refl
absent q ((k, e) ∷ m) h = ground (arith, absent q m)

pub NoTwice-map : (m : Dict MemEntry) → Distinct m → NoTwice (map mem_entry m)
NoTwice-map [] d = tt
NoTwice-map ((j, e) ∷ m) d = (absent j m d.0, NoTwice-map m d.1)

absent-All :
    (x : Entry) (P : Entry → Type 0) (ys : List Entry)
    → find_entry x.key ys ≡ none
    → All (λ y. str_eq y.key x.key ≡ true → P y) ys
absent-All x P [] h = tt
absent-All x P (y ∷ ys) h = (λ same. ground arith, absent-All x P ys (ground arith))

insert_by-NoTwice :
    (cmp : Entry → Entry → Ordering) (x : Entry) (ys : List Entry)
    → find_entry x.key ys ≡ none
    → NoTwice ys
    → NoTwice (insert_by cmp x ys)
insert_by-NoTwice cmp x [] absent h = unfold insert_by in (refl, tt)
insert_by-NoTwice cmp x (y ∷ ys) absent h = elim (gt-or-ne (cmp x y)) [
  | inl after ↦ rw (insert_by_gt cmp x y ys after) (
    find_entry-insert_by cmp y.key x ys
          (absent-All x (λ z. cmp x z ≢ Ordering.gt) ys (ground arith))
        ∙ ground (arith, str_eq_iff x.key y.key, str_eq_iff y.key x.key, h.0),
    insert_by-NoTwice cmp x ys (ground arith) h.1,
  )
  | inr before ↦ rw (insert_by_le cmp x y ys before) (absent, h)
]

find_entry-sort_by-none :
    (cmp : Entry → Entry → Ordering) (q : JsString) (xs : List Entry)
    → NoTwice xs
    → find_entry q xs ≡ none
    → find_entry q (sort_by cmp xs) ≡ none
unfolding sort_by
find_entry-sort_by-none cmp q [] h k = refl
find_entry-sort_by-none cmp q (x ∷ xs) h k =
    find_entry-insert_by cmp q x (sort_by cmp xs) (
      absent-All x (λ z. cmp x z ≢ Ordering.gt) (sort_by cmp xs)
        (find_entry-sort_by-none cmp x.key xs h.1 h.0))
    ∙ ground (arith, find_entry-sort_by-none cmp q xs h.1)

pub sort_by-NoTwice :
    (cmp : Entry → Entry → Ordering) (xs : List Entry) → NoTwice xs → NoTwice (sort_by cmp xs)
unfolding sort_by
sort_by-NoTwice cmp [] h = tt
sort_by-NoTwice cmp (x ∷ xs) h =
    insert_by-NoTwice cmp x (sort_by cmp xs) (find_entry-sort_by-none cmp x.key xs h.1 h.0)
      (sort_by-NoTwice cmp xs h.1)

-- Every entry of `ys` is at most as late as `x`.
abbrev pub IsAfter : List Entry → Entry → Type 0
IsAfter ys x = All (λ y. y.timestamp ≤ x.timestamp) ys

weaken :
    (x : Entry) (ys : List Entry)
    → IsAfter ys x
    → All (λ y. str_eq y.key x.key ≡ true → y.timestamp ≤ x.timestamp) ys
weaken x [] h = tt
weaken x (y ∷ ys) h = (λ _. h.0, weaken x ys h.1)

pub NoTwice-IsRecent-append :
    (xs ys : List Entry) → NoTwice xs → All (IsAfter ys) xs → IsRecent ys → IsRecent (xs ++ ys)
NoTwice-IsRecent-append [] ys n later r = r
NoTwice-IsRecent-append (x ∷ xs) ys n later r = (
  All-append _ xs ys (absent-All x (λ y. y.timestamp ≤ x.timestamp) xs n.0) (weaken x ys later.0),
  NoTwice-IsRecent-append xs ys n.1 later.1 r,
)

pub All-le_mono :
    (a b : ℕ) (es : List Entry)
    → a ≤ b
    → All (λ e. e.timestamp ≤ a) es
    → All (λ e. e.timestamp ≤ b) es
All-le_mono a b [] h k = tt
All-le_mono a b (e ∷ es) h k = (omega arith, All-le_mono a b es h k.1)

pub All-set :
    (P : Entry → Type 0) (key : JsString) (e : MemEntry) (m : Dict MemEntry)
    → P (mem_entry (key, e))
    → All P (map mem_entry m)
    → All P (map mem_entry (Dict.set key e m))
unfolding Dict.set
All-set P key e [] p h = (p, tt)
All-set P key e ((j, d) ∷ m) p h = elim (Bool-cases (str_eq j key)) [
  | inl same ↦ rw same (rw ((str_eq_iff j key).0 same) p, h.1)
  | inr other ↦ rw other (h.0, All-set P key e m p h.1)
]
