-- ===== src/Lsm/Sorted.antt =====
-- Searching after sorting and after the removal of shadowed entries.
use info_crate.Common.{
  ◌≤◌, ◌≡◌, ◌≢◌, refl, ap, ◌∙◌, arith, true, Option, none, some, List, [], ◌∷◌, map, All,
  if◌then◌else◌, Ordering,
}
use info_crate.Text.{JsString, str_eq}
use info_crate.Text.Laws.{str_eq_iff}
use info_crate.Sort.{insert_by, sort_by}
use info_crate.Sort.Laws.{All-sort_by}
use info_crate.Dict
use info_crate.Dict.{Dict}
use info_crate.Dict.Laws.{Distinct}
use info_crate.SsTable.{Entry, find_entry}
use info_crate.Lsm.{MemEntry, mem_entry, deduplicate, compare_entries}

-- `x` may stand before any entry of its key.
abbrev pub StandsFirst : (Entry → Entry → Ordering) → Entry → List Entry → Type 0
StandsFirst cmp x = All (λ y. str_eq y.key x.key ≡ true → cmp x y ≢ Ordering.gt)

-- The comparator does not swap two entries of one key.
abbrev pub KeepsKeys : (Entry → Entry → Ordering) → List Entry → Type 0
KeepsKeys cmp [] = Unit
KeepsKeys cmp (x ∷ xs) = StandsFirst cmp x xs × KeepsKeys cmp xs

module _ (cmp : Entry → Entry → Ordering) (q : JsString) where
  pub find_entry-insert_by :
      (x : Entry) (ys : List Entry)
      → StandsFirst cmp x ys
      → find_entry q (insert_by cmp x ys) ≡ (if str_eq x.key q then some x else find_entry q ys)
  unfolding insert_by
  find_entry-insert_by x [] h = refl
  find_entry-insert_by x (y ∷ ys) h = ground (
    arith,
    find_entry-insert_by x ys h.1,
    h.0,
    str_eq_iff x.key q,
    str_eq_iff y.key q,
    str_eq_iff y.key x.key,
  )

  -- The first entry of each key is the same after sorting.
  pub find_entry-sort_by :
      (xs : List Entry) → KeepsKeys cmp xs → find_entry q (sort_by cmp xs) ≡ find_entry q xs
  unfolding sort_by
  find_entry-sort_by [] h = refl
  find_entry-sort_by (x ∷ xs) h =
      find_entry-insert_by x (sort_by cmp xs) (All-sort_by cmp _ xs h.0)
      ∙ ap (λ (o : Option Entry). if str_eq x.key q then some x else o) (find_entry-sort_by xs h.1)

-- Where no key stands twice, any comparator will do.
absent-StandsFirst :
    (cmp : Entry → Entry → Ordering) (x : Entry) (m : Dict MemEntry)
    → Dict.get x.key m ≡ none
    → StandsFirst cmp x (map mem_entry m)
unfolding Dict.get
absent-StandsFirst cmp x [] h = tt
absent-StandsFirst cmp x ((j, e) ∷ m) h =
    (λ same. ground arith, absent-StandsFirst cmp x m (ground arith))

pub Distinct-KeepsKeys :
    (cmp : Entry → Entry → Ordering) (m : Dict MemEntry)
    → Distinct m
    → KeepsKeys cmp (map mem_entry m)
Distinct-KeepsKeys cmp [] d = tt
Distinct-KeepsKeys cmp ((j, e) ∷ m) d =
    (absent-StandsFirst cmp (mem_entry (j, e)) m d.0, Distinct-KeepsKeys cmp m d.1)

-- Of two entries of one key the earlier in the list is no older.
abbrev pub IsRecent : List Entry → Type 0
IsRecent [] = Unit
IsRecent (x ∷ xs) =
    All (λ y. str_eq y.key x.key ≡ true → y.timestamp ≤ x.timestamp) xs × IsRecent xs

recent-StandsFirst :
    (collate : JsString → JsString → Ordering) (x : Entry) (ys : List Entry)
    → All (λ y. str_eq y.key x.key ≡ true → y.timestamp ≤ x.timestamp) ys
    → StandsFirst (compare_entries collate) x ys
unfolding compare_entries
recent-StandsFirst collate x [] h = tt
recent-StandsFirst collate x (y ∷ ys) h = (
  λ same bad. ground (arith, h.0, str_eq_iff x.key y.key, str_eq_iff y.key x.key),
  recent-StandsFirst collate x ys h.1,
)

pub IsRecent-KeepsKeys :
    (collate : JsString → JsString → Ordering) (xs : List Entry)
    → IsRecent xs
    → KeepsKeys (compare_entries collate) xs
IsRecent-KeepsKeys collate [] h = tt
IsRecent-KeepsKeys collate (x ∷ xs) h =
    (recent-StandsFirst collate x xs h.0, IsRecent-KeepsKeys collate xs h.1)

-- An entry, unless it is a tombstone.
abbrev pub live : Option Entry → Option Entry
live none = none
live (some e) = if e.is_tombstone then none else some e

pub find_entry-deduplicate :
    (q : JsString) (seen : List JsString) (es : List Entry)
    → find_entry q (deduplicate seen es)
      ≡ (if Dict.has q seen then none else live (find_entry q es))
unfolding deduplicate Dict.has
find_entry-deduplicate q seen [] = ground arith
find_entry-deduplicate q seen (e ∷ es) = ground (
  arith,
  find_entry-deduplicate q seen es,
  find_entry-deduplicate q (e.key ∷ seen) es,
  str_eq_iff e.key q,
)
