-- ===== src/Server/Table/Lookup.antt =====
-- `Get` of go/pkg/lsm/sstable.go on blocks of ascending entries.
use info_crate.Common.{
  ℕ, ◌≡◌, refl, ap, ◌∙◌, sym, arith, Bool, true, false, Option, none, some, List, [], ◌∷◌, ◌++◌,
  length, All, length-append, Bool-cases, inl, inr,
}
use info_crate.Text.{str_lt}
use info_crate.Text.Laws.{str_eq_iff, str_lt_trans, str_lt_irrefl, str_lt_total}
use info_crate.Server.Memtable.{Entry}
use info_crate.Server.Merge.Order.{find_entry}
use info_crate.Server.Merge.Newest.{Ascends}
use info_crate.Server.Table.Reader.{SsTableReader, search, get_in, get_block}
use info_crate.Server.Table.Records.{
  EntryFits, encode_entries, stored, find_stored, get_loop-encode_entries, length-encode_entries,
}
use info_crate.Server.Table.Layout.{concat, encode_blocks, last_of, index_of, IsFull}
use info_crate.Server.Table.Scan.{All-front, read_block, next_block}

-- What `Get` tells of an entry.
abbrev pub told : Option Entry → Option (List ℕ × Bool)
told none = none
told (some e) = some (stored e, e.is_tombstone)

abbrev AllAbove : List ℕ → List Entry → Type 0
AllAbove k = All (λ e. str_lt k e.key ≡ true)

find_entry-above :
    (q k : List ℕ) (entries : List Entry)
    → str_lt q k ≡ true
    → AllAbove k entries
    → find_entry q entries ≡ none
unfolding find_entry
find_entry-above q k [] less h = refl
find_entry-above q k (e ∷ entries) less h = ground (
  arith,
  find_entry-above q k entries less h.1,
  str_eq_iff e.key q,
  str_lt_trans q k e.key less h.0,
  str_lt_irrefl q,
)

last_of-above :
    (k : List ℕ) (e : Entry) (b cs : List Entry)
    → AllAbove k ((e ∷ b) ++ cs)
    → str_lt k (last_of (e ∷ b)) ≡ true
unfolding last_of
last_of-above k e [] cs h = h.0
last_of-above k e (d ∷ b) cs h = last_of-above k d b cs h.1

-- The block whose last key is not below the key holds it, if any block does.
find_entry-here :
    (q : List ℕ) (e : Entry) (b cs : List Entry)
    → Ascends ((e ∷ b) ++ cs)
    → str_lt (last_of (e ∷ b)) q ≡ false
    → find_stored q (e ∷ b) ≡ told (find_entry q ((e ∷ b) ++ cs))
unfolding find_stored find_entry last_of
find_entry-here q e [] cs o h = ground (
  arith,
  str_lt_total e.key q,
  (λ (less : str_lt q e.key ≡ true). find_entry-above q e.key cs less o.0),
)
find_entry-here q e (d ∷ b) cs o h = ground (
  arith,
  find_entry-here q d b cs o.1 h,
  str_lt_total e.key q,
  (λ (less : str_lt q e.key ≡ true). find_entry-above q e.key ((d ∷ b) ++ cs) less o.0),
)

-- No block whose last key is below the key holds it.
find_entry-later :
    (q : List ℕ) (e : Entry) (b cs : List Entry)
    → Ascends ((e ∷ b) ++ cs)
    → str_lt (last_of (e ∷ b)) q ≡ true
    → find_entry q ((e ∷ b) ++ cs) ≡ find_entry q cs
unfolding find_entry last_of
find_entry-later q e [] cs o h = ground (arith, str_eq_iff e.key q, str_lt_irrefl q)
find_entry-later q e (d ∷ b) cs o h =
    let less = str_lt_trans e.key (last_of (d ∷ b)) q (last_of-above e.key d b cs o.0) h in
    ground (arith, find_entry-later q d b cs o.1 h, str_eq_iff e.key q, less, str_lt_irrefl q)

Ascends-behind : (b cs : List Entry) → Ascends (b ++ cs) → Ascends cs
Ascends-behind [] cs o = o
Ascends-behind (e ∷ b) cs o = Ascends-behind b cs o.1

-- The search of the index and the scan of the block that it names.
pub get_block_lem :
    (q : List ℕ) (r : SsTableReader) (blocks : List (List Entry)) (pre post : List ℕ)
    → r.file ≡ pre ++ (encode_blocks blocks ++ post)
    → All IsFull blocks
    → All EntryFits (concat blocks)
    → Ascends (concat blocks)
    → get_block q r (search q (index_of (length pre) blocks))
      ≡ some (told (find_entry q (concat blocks)))
unfolding get_block search index_of
get_block_lem q r [] pre post file full fits o = unfold find_entry in refl
get_block_lem q r ([] ∷ blocks) pre post file full fits o = absurd (full.0 refl)
get_block_lem q r ((e ∷ b) ∷ blocks) pre post file full fits o =
    let parts = All-front EntryFits (e ∷ b) (concat blocks) fits in
    elim (Bool-cases (str_lt (last_of (e ∷ b)) q)) [
      | inl below ↦
          rw
            (
              below,
              find_entry-later q e b (concat blocks) o below,
              sym (length-append pre (encode_entries (e ∷ b))),
            )
            (get_block_lem q r blocks (pre ++ encode_entries (e ∷ b)) post
              (file ∙ sym (next_block pre (e ∷ b) blocks post)) full.1 parts.1
              (Ascends-behind (e ∷ b) (concat blocks) o))
      | inr reached ↦
          rw (reached, file, read_block pre (e ∷ b) blocks post, get_in)
            (ap some (
              get_loop-encode_entries _ q (e ∷ b) (length-encode_entries (e ∷ b)) parts.0
              ∙ find_entry-here q e b (concat blocks) o reached))
    ]
