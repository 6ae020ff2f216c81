-- ===== src/Lsm/Range.antt =====
-- The key range of a table next to the keys of its entries, and the assumption on the platform's
-- collation that this takes.
use info_crate.Common.{
  ℕ, ◌≡◌, ◌≢◌, arith, Bool, true, false, some, List, [], ◌∷◌, All, if◌then◌else◌, Bool-cases, inl,
  inr, Ordering,
}
use info_crate.Text.{JsString, str_eq, unit_compare}
use info_crate.Text.Laws.{
  str_eq_iff, UnitLe, UnitLe-refl, UnitLe-of_gt, UnitLe-trans, unit_compare_flip,
}
use info_crate.Sort.{sort_by}
use info_crate.Sort.Sorted.{IsSortedBy, sort_by-IsSortedBy}
use info_crate.Dict
use info_crate.SsTable.{Entry, find_entry, create_ss_table, first_key, last_key_or}
use info_crate.Lsm.{deduplicate, compare_entries}
use info_crate.Lsm.Lookup.{out_of_range}

-- The platform's collation, and a class of keys on which it agrees with the order of code units.
-- (The collation of most locales does so on the digits, and on the lower-case letters.)
pub record Collation : Type 1 where
  pub locale_compare : JsString → JsString → Ordering
  pub IsPlain : JsString → Type 0
  pub agrees : (a b : JsString) → IsPlain a → IsPlain b → locale_compare a b ≡ unit_compare a b

All-if :
    (P : Entry → Type 0) (b : Bool) (s t : List Entry)
    → All P s
    → All P t
    → All P (if b then s else t)
All-if P true s t h k = h
All-if P false s t h k = k

-- Each key is followed by no smaller one.
abbrev pub IsOrdered : List Entry → Type 0
IsOrdered = IsSortedBy (λ x y. UnitLe x.key y.key)

module _ (c : Collation) where
  open c use {locale_compare, IsPlain, agrees}

  abbrev cmp : Entry → Entry → Ordering
  cmp = compare_entries locale_compare

  abbrev pub HasPlainKeys : List Entry → Type 0
  HasPlainKeys = All (λ e. IsPlain e.key)

  le_of_compare :
      (x y : Entry)
      → IsPlain x.key
      → IsPlain y.key
      → compare_entries locale_compare x y ≢ Ordering.gt
      → UnitLe x.key y.key
  unfolding compare_entries
  le_of_compare x y px py h =
      ground (arith, agrees x.key y.key px py, str_eq_iff x.key y.key, UnitLe-refl x.key)

  ge_of_compare :
      (x y : Entry)
      → IsPlain x.key
      → IsPlain y.key
      → compare_entries locale_compare x y ≡ Ordering.gt
      → UnitLe y.key x.key
  unfolding compare_entries
  ge_of_compare x y px py h = ground (
    arith,
    agrees x.key y.key px py,
    str_eq_iff x.key y.key,
    UnitLe-refl x.key,
    UnitLe-of_gt x.key y.key,
  )

  pub sort_by-IsOrdered :
      (xs : List Entry) → HasPlainKeys xs → IsOrdered (sort_by (compare_entries locale_compare) xs)
  sort_by-IsOrdered =
      sort_by-IsSortedBy cmp (λ e. IsPlain e.key) (λ x y. UnitLe x.key y.key) ge_of_compare
        le_of_compare (λ x y z. UnitLe-trans x.key y.key z.key)

All-deduplicate :
    (P : Entry → Type 0) (seen : List JsString) (es : List Entry)
    → All P es
    → All P (deduplicate seen es)
unfolding deduplicate
All-deduplicate P seen [] h = tt
All-deduplicate P seen (e ∷ es) h =
    let rest = All-deduplicate P (e.key ∷ seen) es h.1 in
    All-if P (Dict.has e.key seen) _ _ (All-deduplicate P seen es h.1)
      (All-if P e.is_tombstone _ _ rest (h.0, rest))

IsOrdered-if :
    (b : Bool) (s t : List Entry) → IsOrdered s → IsOrdered t → IsOrdered (if b then s else t)
IsOrdered-if true s t h k = h
IsOrdered-if false s t h k = k

pub deduplicate-IsOrdered :
    (seen : List JsString) (es : List Entry) → IsOrdered es → IsOrdered (deduplicate seen es)
unfolding deduplicate
deduplicate-IsOrdered seen [] h = tt
deduplicate-IsOrdered seen (e ∷ es) h =
    let rest = deduplicate-IsOrdered (e.key ∷ seen) es h.1 in
    IsOrdered-if (Dict.has e.key seen) _ _ (deduplicate-IsOrdered seen es h.1) (
      IsOrdered-if e.is_tombstone _ _ rest
        (All-deduplicate (λ y. UnitLe e.key y.key) (e.key ∷ seen) es h.0, rest))

le_of_find :
    (q a : JsString) (es : List Entry) {e : Entry}
    → All (λ y. UnitLe a y.key) es
    → find_entry q es ≡ some e
    → UnitLe a q
le_of_find q a [] h f = cc
le_of_find q a (x ∷ es) h f = elim (Bool-cases (str_eq x.key q)) [
  | inl same ↦ rw (← (str_eq_iff x.key q).0 same) h.0
  | inr other ↦ le_of_find q a es h.1 (rw other at f)
]

le-last_key_or :
    (a d : JsString) (es : List Entry)
    → UnitLe a d
    → All (λ y. UnitLe a y.key) es
    → UnitLe a (last_key_or d es)
unfolding last_key_or
le-last_key_or a d [] h k = h
le-last_key_or a d (x ∷ es) h k = le-last_key_or a x.key es k.0 k.1

first-le :
    (q : JsString) (es : List Entry) {e : Entry}
    → IsOrdered es
    → find_entry q es ≡ some e
    → UnitLe (first_key es) q
first-le q [] o h = cc
first-le q (x ∷ es) o h = elim (Bool-cases (str_eq x.key q)) [
  | inl same ↦ rw ((str_eq_iff x.key q).0 same) (UnitLe-refl q)
  | inr other ↦ le_of_find q x.key es o.0 (rw other at h)
]

le-last :
    (q d : JsString) (es : List Entry) {e : Entry}
    → IsOrdered es
    → find_entry q es ≡ some e
    → UnitLe q (last_key_or d es)
unfolding last_key_or
le-last q d [] o h = cc
le-last q d (x ∷ es) o h = elim (Bool-cases (str_eq x.key q)) [
  | inl same ↦
      rw (← (str_eq_iff x.key q).0 same) (le-last_key_or x.key x.key es (UnitLe-refl x.key) o.0)
  | inr other ↦ le-last q x.key es o.1 (rw other at h)
]

-- On entries whose keys do not fall in the order of the code units, a key of the entries is within
-- the range of their table.
pub out_of_range-create_ss_table :
    (id level : ℕ) (es : List Entry) (q : JsString) {e : Entry}
    → IsOrdered es
    → find_entry q es ≡ some e
    → out_of_range (create_ss_table id es level) q ≡ false
unfolding create_ss_table
out_of_range-create_ss_table id level es q o h = ground (
  arith,
  first-le q es o h,
  le-last q [] es o h,
  unit_compare_flip q (first_key es),
  unit_compare_flip (last_key_or [] es) q,
)
