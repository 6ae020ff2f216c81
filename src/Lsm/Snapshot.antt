-- ===== src/Lsm/Snapshot.antt =====
-- The snapshot of the memtable, `getMemtableSnapshot` of src/engine/storageEngine.ts.
use mathlib.Core.List.{Perm}
use info_crate.Common.{◌≡◌, ◌≢◌, arith, [], ◌∷◌, All, map, Ordering}
use info_crate.Text.{JsString}
use info_crate.Text.Laws.{UnitLe, UnitLe-of_gt, UnitLe-trans}
use info_crate.Sort.Laws.{sort_by-perm}
use info_crate.Sort.Sorted.{IsSortedBy, sort_by-IsSortedBy}
use info_crate.Dict.{Dict}
use info_crate.Lsm.{MemEntry, SimulatedLsmEngine, node_view, get_memtable_snapshot}
use info_crate.Lsm.Range.{Collation}

module _ (c : Collation) where
  open c use {locale_compare, IsPlain, agrees}

  le_of_order :
      (a b : JsString) → IsPlain a → IsPlain b → locale_compare a b ≢ Ordering.gt → UnitLe a b
  le_of_order a b pa pb h = ground (arith, agrees a b pa pb)

  ge_of_order :
      (a b : JsString) → IsPlain a → IsPlain b → locale_compare a b ≡ Ordering.gt → UnitLe b a
  ge_of_order a b pa pb h = ground (arith, agrees a b pa pb, UnitLe-of_gt a b)

  All-views :
      (memtable : Dict MemEntry)
      → All (λ p. IsPlain p.0) memtable
      → All (λ n. IsPlain n.key) (map node_view memtable)
  All-views [] h = tt
  All-views ((key, entry) ∷ memtable) h = (h.0, All-views memtable h.1)

  -- The snapshot has one record for each key of the memtable, with the key's value, mark, time and
  -- height, and stands in the order of the keys, where the collation sorts them as `<` does.
  pub get_memtable_snapshot-IsSortedBy :
      (s : SimulatedLsmEngine)
      → All (λ p. IsPlain p.0) s.memtable
      → Perm (get_memtable_snapshot locale_compare s) (map node_view s.memtable)
        × IsSortedBy (λ m n. UnitLe m.key n.key) (get_memtable_snapshot locale_compare s)
  unfolding get_memtable_snapshot
  get_memtable_snapshot-IsSortedBy s plain = (
    sort_by-perm _ (map node_view s.memtable),
    sort_by-IsSortedBy (λ a b. locale_compare a.key b.key) (λ n. IsPlain n.key) _
        (λ x y. ge_of_order x.key y.key) (λ x y. le_of_order x.key y.key)
        (λ x y z. UnitLe-trans x.key y.key z.key) _ (All-views s.memtable plain),
  )
