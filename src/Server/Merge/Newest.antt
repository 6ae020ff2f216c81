-- ===== src/Server/Merge/Newest.antt =====
-- What the merge of go/pkg/lsm/compaction.go keeps: the newest entry of each key.
use info_crate.Common.{
  ℕ, ◌≡◌, refl, ap, ◌∙◌, sym, arith, Bool, true, false, ◌&&◌, Option, none, some, List, [], ◌∷◌,
  All, Bool-cases, inl, inr, if◌then◌else◌,
}
use info_crate.Text.{str_eq, str_lt}
use info_crate.Text.Laws.{str_eq_iff, str_lt_trans, str_lt_irrefl}
use info_crate.Sort.Sorted.{IsSortedBy}
use info_crate.Server.Memtable.{Entry}
use info_crate.Server.Merge.{gather, dedup_loop, merge_entries}
use info_crate.Server.Merge.Order.{
  find_entry, newest, EntryLe, EntryLe-cases, slice_stable-IsSortedBy, find_entry-sort,
}

-- Keys strictly ascend.
abbrev pub Ascends : List Entry → Type 0
Ascends = IsSortedBy (λ a b. str_lt a.key b.key ≡ true)

-- A newest entry that the merge to the bottom level drops.
abbrev pub kept : Bool → Option Entry → Option Entry
kept bottom none = none
kept bottom (some e) = if e.is_tombstone && bottom then none else some e

-- A key that is below the first of sorted entries is not the key of a later one.
find_entry-below :
    (q : List ℕ) (e : Entry) (entries : List Entry)
    → str_lt q e.key ≡ true
    → All (EntryLe e) entries
    → find_entry q entries ≡ none
unfolding find_entry
find_entry-below q e [] less le = refl
find_entry-below q e (x ∷ xs) less le = ground (
  arith,
  find_entry-below q e xs less le.1,
  EntryLe-cases e x le.0,
  str_eq_iff x.key q,
  str_lt_trans q e.key x.key,
  str_lt_irrefl q,
)

-- Behind `last`, which is not after any of them, the loop skips `last` and keeps the first of each
-- other key.
find_entry-dedup :
    (bottom : Bool) (q : List ℕ) (last : Entry) (entries : List Entry)
    → All (EntryLe last) entries
    → IsSortedBy EntryLe entries
    → find_entry q (dedup_loop bottom (some last.key) entries)
      ≡ (if str_eq last.key q then none else kept bottom (find_entry q entries))
unfolding dedup_loop find_entry
find_entry-dedup bottom q last [] le o = ground arith
find_entry-dedup bottom q last (e ∷ entries) le o = ground (
  arith,
  find_entry-dedup bottom q last entries le.1 o.1,
  find_entry-dedup bottom q e entries o.0 o.1,
  EntryLe-cases last e le.0,
  (λ (less : str_lt q e.key ≡ true). find_entry-below q e entries less o.0),
  str_eq_iff e.key last.key,
  str_eq_iff e.key q,
  str_eq_iff last.key q,
)

-- What the loop keeps behind `last` is above it and ascends.
dedup-Ascends :
    (bottom : Bool) (last : Entry) (entries : List Entry)
    → All (EntryLe last) entries
    → IsSortedBy EntryLe entries
    → All (λ e. str_lt last.key e.key ≡ true) (dedup_loop bottom (some last.key) entries)
      × Ascends (dedup_loop bottom (some last.key) entries)
unfolding dedup_loop
dedup-Ascends bottom last [] le o = (tt, tt)
dedup-Ascends bottom last (e ∷ entries) le o =
    let skip = dedup-Ascends bottom last entries le.1 o.1 in
    let next = dedup-Ascends bottom e entries o.0 o.1 in
    elim (EntryLe-cases last e le.0) [
      | inl same ↦ rw ((str_eq_iff e.key last.key).1 (sym same.0)) skip
      | inr less ↦
          let other : str_eq e.key last.key ≡ false =
            ground (arith, str_eq_iff e.key last.key, str_lt_irrefl last.key) in
          let above =
            All-Above last.key e.key (dedup_loop bottom (some e.key) entries) less next.0 in
          elim (Bool-cases (e.is_tombstone && bottom)) [
            | inl drop ↦ rw (other, drop) (above, next.1)
            | inr keep ↦ rw (other, keep) ((less, above), next)
          ]
    ]
  where
    All-Above :
        (a b : List ℕ) (es : List Entry)
        → str_lt a b ≡ true
        → All (λ e. str_lt b e.key ≡ true) es
        → All (λ e. str_lt a e.key ≡ true) es
    All-Above a b [] less h = tt
    All-Above a b (e ∷ es) less h = (str_lt_trans a b e.key less h.0, All-Above a b es less h.1)

dedup_first :
    (bottom : Bool) (q : List ℕ) (entries : List Entry)
    → IsSortedBy EntryLe entries
    → (find_entry q (dedup_loop bottom none entries) ≡ kept bottom (find_entry q entries))
      × Ascends (dedup_loop bottom none entries)
dedup_first bottom q [] o = unfold dedup_loop find_entry in (refl, tt)
dedup_first bottom q (e ∷ entries) o =
    let found = find_entry-dedup bottom q e entries o.0 o.1 in
    let order = dedup-Ascends bottom e entries o.0 o.1 in
    unfold dedup_loop find_entry in (ground (arith, found), ground (arith, order))

-- Whatever tables are merged, in whatever order their entries stand, the keys that are written
-- strictly ascend, and a key has in them its newest entry, the first of the newest if times are
-- equal; at the bottom level a key whose newest entry is a tombstone has none.
pub merge_entries-newest :
    (bottom : Bool) (tables : List (List Entry)) (q : List ℕ)
    → Ascends (merge_entries bottom tables)
      × (find_entry q (merge_entries bottom tables) ≡ kept bottom (newest q (gather tables)))
unfolding merge_entries
merge_entries-newest bottom tables q =
    let done = dedup_first bottom q _ (slice_stable-IsSortedBy (gather tables)) in
    (done.1, done.0 ∙ ap (kept bottom) (find_entry-sort q (gather tables)))
