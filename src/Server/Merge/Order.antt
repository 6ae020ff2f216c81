-- ===== src/Server/Merge/Order.antt =====
-- The order of go/pkg/lsm/compaction.go: by key, then from the newest to the oldest.
use info_crate.Common.{
  ℕ, ◌≤◌, ◌≡◌, ◌≢◌, refl, ap, ◌∙◌, sym, arith, true, false, ◌⊎◌, Option-cases, Option, none, some,
  List, [], ◌∷◌, All, ltb, Bool-cases, inl, inr, if◌then◌else◌, Ordering,
}
use info_crate.Text.{str_eq, str_lt}
use info_crate.Text.Laws.{str_eq_iff, str_eq_refl, str_lt_trans, str_lt_irrefl, str_lt_total}
use info_crate.Sort.{insert_by, sort_by}
use info_crate.Sort.Sorted.{IsSortedBy, insert_by_gt, insert_by_le, sort_by-IsSortedBy}
use info_crate.Server.Memtable.{Entry}
use info_crate.Server.Merge.{less_compare, slice_stable, entry_less}

-- The first entry of a key, and the newest one; of two with one time the first.
unfoldable pub find_entry : List ℕ → List Entry → Option Entry
find_entry q [] = none
find_entry q (e ∷ entries) = if str_eq e.key q then some e else find_entry q entries

abbrev pub newer : Entry → Option Entry → Option Entry
newer e none = some e
newer e (some other) = if ltb e.timestamp other.timestamp then some other else some e

unfoldable pub newest : List ℕ → List Entry → Option Entry
newest q [] = none
newest q (e ∷ entries) = if str_eq e.key q then newer e (newest q entries) else newest q entries

-- `b` does not stand before `a`.
abbrev pub EntryLe : Entry → Entry → Type 0
EntryLe a b = entry_less b a ≡ false

EntryLe-after : (x y : Entry) → less_compare entry_less x y ≡ Ordering.gt → EntryLe y x
unfolding entry_less
EntryLe-after x y h = ground (
  arith,
  str_eq_iff x.key y.key,
  str_eq_iff y.key x.key,
  str_lt_trans x.key y.key x.key,
  str_lt_irrefl x.key,
)

EntryLe-before : (x y : Entry) → less_compare entry_less x y ≢ Ordering.gt → EntryLe x y
EntryLe-before x y h = ground arith

pub EntryLe-cases :
    (x y : Entry)
    → EntryLe x y
    → ((x.key ≡ y.key) × (y.timestamp ≤ x.timestamp)) ⊎ (str_lt x.key y.key ≡ true)
unfolding entry_less
EntryLe-cases x y h = elim (Bool-cases (str_eq y.key x.key)) [
  | inl same ↦ inl (sym ((str_eq_iff y.key x.key).0 same), ground arith)
  | inr other ↦ inr (str_lt_total y.key x.key (ground arith) other)
]

EntryLe-same : (x y : Entry) → x.key ≡ y.key → y.timestamp ≤ x.timestamp → EntryLe x y
unfolding entry_less
EntryLe-same x y same h = rw (same, str_eq_refl y.key) (ground arith)

EntryLe-lt : (x y : Entry) → str_lt x.key y.key ≡ true → EntryLe x y
unfolding entry_less
EntryLe-lt x y h =
    ground (arith, str_eq_iff y.key x.key, str_lt_trans x.key y.key x.key, str_lt_irrefl x.key)

EntryLe-trans : (x y z : Entry) → EntryLe x y → EntryLe y z → EntryLe x z
EntryLe-trans x y z p q = elim (EntryLe-cases x y p) [
  | inl same ↦ elim (EntryLe-cases y z q) [
    | inl same' ↦ EntryLe-same x z (same.0 ∙ same'.0) (omega (arith, same.1, same'.1))
    | inr less' ↦ EntryLe-lt x z (ap (λ (k : List ℕ). str_lt k z.key) same.0 ∙ less')
  ]
  | inr less ↦ elim (EntryLe-cases y z q) [
    | inl same' ↦ EntryLe-lt x z (ap (str_lt x.key) (sym same'.0) ∙ less)
    | inr less' ↦ EntryLe-lt x z (str_lt_trans x.key y.key z.key less less')
  ]
]

All-tt : (entries : List Entry) → All (λ (e : Entry). Unit {0}) entries
All-tt [] = tt
All-tt (e ∷ entries) = (tt, All-tt entries)

pub slice_stable-IsSortedBy :
    (entries : List Entry) → IsSortedBy EntryLe (slice_stable entry_less entries)
unfolding slice_stable
slice_stable-IsSortedBy entries =
    sort_by-IsSortedBy (less_compare entry_less) (λ e. Unit {0}) EntryLe
      (λ x y p q. EntryLe-after x y) (λ x y p q. EntryLe-before x y) EntryLe-trans entries
      (All-tt entries)

-- Sorting brings the newest entry of each key to the front of its key.
pub find-All :
    (q : List ℕ) (P : Entry → Type 0) (entries : List Entry) (e : Entry)
    → All P entries
    → find_entry q entries ≡ some e
    → P e
unfolding find_entry
find-All q P [] e h found = cc
find-All q P (x ∷ xs) e h found = ground (arith, find-All q P xs e h.1, h.0)

pub find_entry-key :
    (q : List ℕ) (entries : List Entry) (e : Entry) → find_entry q entries ≡ some e → e.key ≡ q
unfolding find_entry
find_entry-key q [] e found = cc
find_entry-key q (x ∷ xs) e found = ground (arith, find_entry-key q xs e, str_eq_iff x.key q)

newer-first :
    (q : List ℕ) (x : Entry) (entries : List Entry)
    → x.key ≡ q
    → All (EntryLe x) entries
    → newer x (find_entry q entries) ≡ some x
newer-first q x entries key le = elim (Option-cases (find_entry q entries)) [
  | inl absent ↦ rw absent refl
  | inr hit ↦
      let behind = find-All q (EntryLe x) entries hit.0 le hit.1 in
      let same = find_entry-key q entries hit.0 hit.1 in
      rw hit.1 (elim (EntryLe-cases x hit.0 behind) [
        | inl both ↦ ground (arith, both.1)
        | inr less ↦ ground (arith, str_lt_irrefl q)
      ])
]

All-EntryLe-trans :
    (x y : Entry) (entries : List Entry)
    → EntryLe x y
    → All (EntryLe y) entries
    → All (EntryLe x) entries
All-EntryLe-trans x y [] p h = tt
All-EntryLe-trans x y (z ∷ zs) p h = (EntryLe-trans x y z p h.0, All-EntryLe-trans x y zs p h.1)

find_entry-past :
    (q : List ℕ) (x y : Entry) (rest ys : List Entry)
    → entry_less y x ≡ true
    → find_entry q rest ≡ (if str_eq x.key q then newer x (find_entry q ys) else find_entry q ys)
    → find_entry q (y ∷ rest)
      ≡ (if str_eq x.key q then newer x (find_entry q (y ∷ ys)) else find_entry q (y ∷ ys))
unfolding find_entry entry_less
find_entry-past q x y rest ys less after =
    ground (arith, str_eq_iff x.key q, str_eq_iff y.key q, str_eq_iff y.key x.key)

find_entry-insert :
    (q : List ℕ) (x : Entry) (ys : List Entry)
    → IsSortedBy EntryLe ys
    → find_entry q (insert_by (less_compare entry_less) x ys)
      ≡ (if str_eq x.key q then newer x (find_entry q ys) else find_entry q ys)
find_entry-insert q x [] o = unfold find_entry insert_by in refl
find_entry-insert q x (y ∷ ys) o = elim (Bool-cases (entry_less y x)) [
  | inl less ↦ rw (insert_by_gt (less_compare entry_less) x y ys (ground arith)) (
      find_entry-past q x y (insert_by (less_compare entry_less) x ys) ys less
        (find_entry-insert q x ys o.1))
  | inr more ↦
      rw (insert_by_le (less_compare entry_less) x y ys (ground arith))
        (elim (Bool-cases (str_eq x.key q)) [
          | inl here ↦
              rw
                (newer-first q x (y ∷ ys) ((str_eq_iff x.key q).0 here)
                  (more, All-EntryLe-trans x y ys more o.0))
                (unfold find_entry in ground arith)
          | inr other ↦ unfold find_entry in ground arith
        ])
]

-- After sorting the first entry of a key is its newest.
pub find_entry-sort :
    (q : List ℕ) (entries : List Entry)
    → find_entry q (slice_stable entry_less entries) ≡ newest q entries
unfolding slice_stable sort_by
find_entry-sort q [] = unfold find_entry newest in refl
find_entry-sort q (e ∷ entries) =
    find_entry-insert q e (slice_stable entry_less entries) (slice_stable-IsSortedBy entries)
    ∙ ap (λ (o : Option Entry). if str_eq e.key q then newer e o else o) (find_entry-sort q entries)
    ∙ unfold newest in refl
