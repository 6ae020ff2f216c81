-- ===== src/Lsm/Newest.antt =====
-- What `get` answers, as one search: the memtable's entries, then those of level 0 in the order of
-- the tables, then level 1 table by table.
use mathlib.Core.Option
use info_crate.Common.{
  ◌≡◌, refl, sym, ap, ◌∙◌, arith, Bool, true, false, Option, none, some, List, [], ◌∷◌, map, All,
  if◌then◌else◌, Bool-cases, inl, inr,
}
use info_crate.Text.{JsString, str_eq}
use info_crate.Dict
use info_crate.Dict.{Dict}
use info_crate.SsTable.{Entry, SsTableBlockView, SsTableView, search_blocks, find_entry, or_else}
use info_crate.SsTable.Search.{
  find_entry-append, lookup_table, lookup_table-create_ss_table, search_blocks-create_ss_table,
}
use info_crate.Lsm.{MemEntry, SimulatedLsmEngine, mem_entry, entries_of, all_entries}
use info_crate.Lsm.Lookup.{
  Location, GetResult, hit, get_memtable, get_immutable, get_l0, get_l1, out_of_range, not_found,
  get,
}
use info_crate.Lsm.Counts.{IsBuilt, IsSound}

-- What a client sees of an answer.
abbrev pub outcome : GetResult → Bool × Option JsString
outcome r = (r.found, r.value)

-- What a client is to see of the newest entry of a key.
abbrev pub answer : Option Entry → Bool × Option JsString
answer none = (false, none)
answer (some e) = if e.is_tombstone then (false, none) else (true, e.value)

-- The first table of level 1 whose range and contents have the key.
unfoldable pub l1_entry : List SsTableView → JsString → Option Entry
l1_entry [] key = none
l1_entry (t ∷ tables) key =
    or_else (if out_of_range t key then none else find_entry key (entries_of t.blocks))
      (l1_entry tables key)

unfoldable pub newest : SimulatedLsmEngine → JsString → Option Entry
newest s key =
    or_else (find_entry key (map mem_entry s.memtable))
      (or_else (find_entry key (all_entries s.l0_tables)) (l1_entry s.l1_tables key))

-- An answer and an entry that say the same.
abbrev Agree : Option GetResult → Option Entry → Type 0
Agree none none = Unit
Agree none (some e) = ⊥
Agree (some r) none = ⊥
Agree (some r) (some e) = outcome r ≡ answer (some e)

Agree-or_else :
    (o p : Option GetResult) (d e : Option Entry)
    → Agree o d
    → Agree p e
    → Agree (or_else o p) (or_else d e)
Agree-or_else none p none e h k = k
Agree-or_else none p (some d) e h k = absurd h
Agree-or_else (some r) p none e h k = absurd h
Agree-or_else (some r) p (some d) e h k = h

Agree-get_or :
    (o : Option GetResult) (e : Option Entry)
    → Agree o e
    → outcome (Option.get_or o not_found) ≡ answer e
Agree-get_or none none h = refl
Agree-get_or none (some e) h = absurd h
Agree-get_or (some r) none h = absurd h
Agree-get_or (some r) (some e) h = h

module _ (bloom_checked : Bool) (live dead : Location) where
  Agree-hit :
      (o : Option Entry)
      → Agree (Option.map (λ (e : Entry). hit e.value e.is_tombstone bloom_checked live dead) o) o
  unfolding hit
  Agree-hit none = tt
  Agree-hit (some e) = ground arith

get_memtable-Agree :
    (m : Dict MemEntry) (key : JsString)
    → Agree (get_memtable m key) (find_entry key (map mem_entry m))
unfolding get_memtable Dict.get hit
get_memtable-Agree [] key = tt
get_memtable-Agree ((j, e) ∷ m) key = elim (Bool-cases (str_eq j key)) [
  | inl same ↦ rw same (ground arith)
  | inr other ↦ rw other (get_memtable-Agree m key)
]

search_blocks-entries_of :
    (blocks : List SsTableBlockView) (key : JsString)
    → search_blocks key blocks ≡ find_entry key (entries_of blocks)
unfolding search_blocks
search_blocks-entries_of [] key = refl
search_blocks-entries_of (b ∷ blocks) key =
    ap (or_else (find_entry key b.entries)) (search_blocks-entries_of blocks key)
    ∙ sym (find_entry-append key b.entries (entries_of blocks))

-- The filter of a built table hides nothing.
lookup_table-IsBuilt :
    (t : SsTableView) (key : JsString)
    → IsBuilt t
    → lookup_table t key ≡ find_entry key (entries_of t.blocks)
lookup_table-IsBuilt t key (id, level, entries, e) = rw e (
    lookup_table-create_ss_table id level entries key
    ∙ sym (search_blocks-create_ss_table id level entries key)
    ∙ search_blocks-entries_of _ key)

guard-map {ℓ κ} :
    {A : Type ℓ} {B : Type κ} (b : Bool) (f : A → B) (o : Option A)
    → (if b then Option.map f o else none) ≡ Option.map f (if b then o else none)
guard-map true f o = refl
guard-map false f o = refl

get_l0-Agree :
    (tables : List SsTableView) (key : JsString)
    → All IsBuilt tables
    → Agree (get_l0 tables key) (find_entry key (all_entries tables))
unfolding get_l0
get_l0-Agree [] key built = tt
get_l0-Agree (t ∷ tables) key built =
    rw (find_entry-append, guard-map, lookup_table-IsBuilt t key built.0)
      (Agree-or_else _ _ _ _ (Agree-hit true _ _ (find_entry key (entries_of t.blocks)))
        (get_l0-Agree tables key built.1))

get_l1-Agree :
    (tables : List SsTableView) (key : JsString)
    → All IsBuilt tables
    → Agree (get_l1 tables key) (l1_entry tables key)
unfolding get_l1 l1_entry
get_l1-Agree [] key built = tt
get_l1-Agree (t ∷ tables) key built = elim (Bool-cases (out_of_range t key)) [
  | inl outside ↦ rw outside (get_l1-Agree tables key built.1)
  | inr inside ↦
      rw (inside, guard-map, lookup_table-IsBuilt t key built.0)
        (Agree-or_else _ _ _ _ (Agree-hit true _ _ (find_entry key (entries_of t.blocks)))
          (get_l1-Agree tables key built.1))
]

-- On a sound engine `get` answers by the newest entry of the key: its value, or not found where
-- there is no entry or the entry is a tombstone.
pub outcome-get :
    (s : SimulatedLsmEngine) (key : JsString)
    → IsSound s
    → outcome (get s key) ≡ answer (newest s key)
unfolding get newest
outcome-get s key v = Agree-get_or _ _ (
    Agree-or_else _ _ _ _ (get_memtable-Agree s.memtable key) (
      rw v.no_immutable (
        unfold get_immutable in
        Agree-or_else _ _ _ _ (get_l0-Agree s.l0_tables key v.l0_built)
          (get_l1-Agree s.l1_tables key v.l1_built))))
